-- ===== src/Shell/Strtok.antt =====
-- A call of `strtok` takes the next word off a text.
use criscv_hw.Prelude.{
  ℕ, zero, suc, ◌+◌, ◌≤◌, ◌<◌, ◌≡◌, ◌⊎◌, refl, sym, ap, ◌∙◌, inl, inr, true, false, ◌||◌, Option,
  none, some, List, [], ◌∷◌, length, arith, ◌==◌, Bool-cases, Memory, store, Outside,
}
use criscv_hw.Shell.Tokens.{line_size, is_blank, skip_blanks, token_end, Token, end_token, strtok}
use criscv_hw.Shell.Texts.{
  split, words, BytesAt, TextAt, store_at, store_away, BytesAt-same, TextAt-same, TextAt-tail,
  blank_nul, words-blank, split-blank, split-more, split-nil, words-nul, words-front, words-stop,
}

-- Behind the blanks: a text without a blank in front, of the same words.
record Skipped (mem : Memory) (p : ℕ) (text : List ℕ) (begin : ℕ) : Type 0 where
  left : List ℕ
  at : TextAt mem begin left
  place : begin + length left ≡ p + length text
  from : p ≤ begin
  same : words left ≡ words text
  front : is_blank (mem begin) ≡ false

skip_blanks-Skipped :
    (n : ℕ) (mem : Memory) (p : ℕ) (text : List ℕ)
    → length text < n
    → TextAt mem p text
    → Skipped mem p text (skip_blanks n mem p)
unfolding skip_blanks
skip_blanks-Skipped zero mem p text h t = absurd (omega arith)
skip_blanks-Skipped (suc n) mem p [] h t =
    let e : mem p ≡ 0 = (let z : p ≡ p + 0 = omega arith in rw z t.ended) in
    let f : is_blank (mem p) ≡ false = rw e blank_nul in
    rw (skip_blanks, f)
      (record { left = []; at = t; place = refl; from = omega arith; same = refl; front = f })
skip_blanks-Skipped (suc n) mem p (c ∷ cs) h t = elim (Bool-cases (is_blank (mem p))) [
  | inr f ↦
      rw (skip_blanks, f)
        (record { left = c ∷ cs; at = t; place = refl; from = omega arith; same = refl; front = f })
  | inl f ↦
      let s = skip_blanks-Skipped n mem (p + 1) cs (omega arith) (TextAt-tail mem p c cs t) in
      let b : is_blank c ≡ true = rw (sym t.bytes.0) f in
      rw (skip_blanks, f)
        (record {
          left = s.left;
          at = s.at;
          place = omega (arith, s.place);
          from = omega (arith, s.from);
          same = s.same ∙ sym (words-blank c cs b);
          front = s.front;
        })
]

-- At the end of a word: the word, and the text from there on, which does not begin with a byte of it.
record Ended (mem : Memory) (p : ℕ) (text : List ℕ) (end : ℕ) : Type 0 where
  word : List ℕ
  left : List ℕ
  bytes : BytesAt mem p word
  at : TextAt mem end left
  word_end : end ≡ p + length word
  left_end : end + length left ≡ p + length text
  first : (split text).0 ≡ word
  others : (split text).1 ≡ words left
  stop : (is_blank (mem end) || mem end == 0) ≡ true

token_end-Ended :
    (n : ℕ) (mem : Memory) (p : ℕ) (text : List ℕ)
    → length text < n
    → TextAt mem p text
    → Ended mem p text (token_end n mem p)
unfolding token_end
token_end-Ended zero mem p text h t = absurd (omega arith)
token_end-Ended (suc n) mem p [] h t =
    let e : mem p ≡ 0 = (let z : p ≡ p + 0 = omega arith in rw z t.ended) in
    let f : (is_blank (mem p) || mem p == 0) ≡ true = ground arith in
    rw (token_end, f)
      (record {
        word = [];
        left = [];
        bytes = tt;
        at = t;
        word_end = omega arith;
        left_end = refl;
        first = split-nil.0;
        others = split-nil.1;
        stop = f;
      })
token_end-Ended (suc n) mem p (c ∷ cs) h t = elim (Bool-cases (is_blank (mem p) || mem p == 0)) [
  | inl f ↦
      let b : is_blank c ≡ true = blank_at f in
      rw (token_end, f)
        (record {
          word = [];
          left = c ∷ cs;
          bytes = tt;
          at = t;
          word_end = omega arith;
          left_end = refl;
          first = ap (λ s. s.0) (split-blank c cs b);
          others = ap (λ s. s.1) (split-blank c cs b) ∙ sym (words-blank c cs b);
          stop = f;
        })
  | inr f ↦
      let r = token_end-Ended n mem (p + 1) cs (omega arith) (TextAt-tail mem p c cs t) in
      let b : is_blank c ≡ false = plain_at f in
      rw (token_end, f)
        (record {
          word = c ∷ r.word;
          left = r.left;
          bytes = (t.bytes.0, t.bytes.1, r.bytes);
          at = r.at;
          word_end = omega (arith, r.word_end);
          left_end = omega (arith, r.left_end);
          first = ap (λ s. s.0) (split-more c cs b) ∙ ap (λ w. c ∷ w) r.first;
          others = ap (λ s. s.1) (split-more c cs b) ∙ r.others;
          stop = r.stop;
        })
]
  where
    blank_at : (is_blank (mem p) || mem p == 0) ≡ true → is_blank c ≡ true
    blank_at f = ground (arith, t.bytes.0, t.bytes.1)

    plain_at : (is_blank (mem p) || mem p == 0) ≡ false → is_blank c ≡ false
    plain_at f = ground (arith, t.bytes.0, t.bytes.1)

-- A token, the text behind it, and that only bytes of the text have changed.
pub record Cutting (mem : Memory) (p : ℕ) (text : List ℕ) (t : Token) : Type 0 where
  pub word : List ℕ
  pub left : List ℕ
  pub same : words text ≡ word ∷ words left
  pub at : TextAt t.mem t.begin word
  pub behind : TextAt t.mem t.rest left
  pub from : p ≤ t.begin
  pub apart : (t.begin + length word < t.rest) ⊎ (length left ≡ 0)
  pub order : t.begin + length word ≤ t.rest
  pub to : t.rest + length left ≤ p + length text
  pub kept : (x : ℕ) → Outside p (length text) x → t.mem x ≡ mem x

abbrev pub CuttingIf : Memory → ℕ → List ℕ → Option Token → Type 0
CuttingIf mem p text none = words text ≡ []
CuttingIf mem p text (some t) = Cutting mem p text t

end_token-Cutting :
    (mem : Memory) (p begin end : ℕ) (text : List ℕ) (s : Skipped mem p text begin)
    → (mem begin == 0) ≡ false
    → Ended mem begin s.left end
    → Cutting mem p text (end_token mem begin end)
unfolding end_token
end_token-Cutting mem p begin end text s e w = elim (Bool-cases (mem end == 0)) [
  | inl f ↦
      let none_left : w.left ≡ [] = words-nul mem end w.left w.at f in
      rw (end_token, f)
        (record {
          word = w.word;
          left = w.left;
          same = all;
          at = record { bytes = w.bytes; ended = rw (sym w.word_end) (ground arith) };
          behind = w.at;
          from = s.from;
          apart = inr (ap length none_left);
          order = omega (arith, w.word_end);
          to = omega (arith, w.left_end, s.place);
          kept = λ x o. refl;
        })
  | inr f ↦
      let (cs, behind, same, len) = words-stop mem end w.left w.at w.stop f in
      rw (end_token, f)
        (record {
          word = w.word;
          left = cs;
          same = all ∙ ap (λ ws. w.word ∷ ws) same;
          at = record {
            bytes =
                BytesAt-same mem (store mem end 0) begin w.word
                  (λ x lo hi. store_away mem end x 0 (omega (arith, w.word_end))) w.bytes;
            ended = rw (sym w.word_end) (store_at mem end 0);
          };
          behind =
              TextAt-same mem (store mem end 0) (end + 1) cs
                (λ x lo hi. store_away mem end x 0 (omega arith)) behind;
          from = s.from;
          apart = inl (omega (arith, w.word_end));
          order = omega (arith, w.word_end);
          to = omega (arith, w.left_end, s.place, len);
          kept = λ x o.
              store_away mem end x 0
                (omega (arith, o, w.word_end, w.left_end, s.place, s.from, len));
        })
]
  where
    all : words text ≡ w.word ∷ words w.left
    all = sym s.same ∙ (words-front mem begin s.left s.at s.front e ∙ (λ i. w.first i ∷ w.others i))

pub strtok-Cutting :
    (mem : Memory) (p : ℕ) (text : List ℕ)
    → TextAt mem p text
    → length text < line_size
    → CuttingIf mem p text (strtok line_size mem p)
unfolding strtok words split
strtok-Cutting mem p text t h =
    let begin : ℕ = skip_blanks line_size mem p in
    let s : Skipped mem p text begin = skip_blanks-Skipped line_size mem p text h t in
    let short : length s.left < line_size = omega (arith, s.place, s.from) in
    elim (Bool-cases (mem begin == 0)) [
      | inl e ↦ rw (strtok, e) (sym s.same ∙ ap words (words-nul mem begin s.left s.at e))
      | inr e ↦
          rw (strtok, e)
            (end_token-Cutting mem p begin (token_end line_size mem begin) text s e
              (token_end-Ended line_size mem begin s.left short s.at))
    ]
