-- ===== src/Shell/Texts.antt =====
-- Texts in memory, and their words, as `shell` of bootbin/boot.c cuts its line into them.
use criscv_hw.Prelude.{
  ℕ, suc, ◌+◌, ◌≤◌, ◌<◌, ◌≡◌, ◌⊎◌, refl, sym, ◌∙◌, true, false, ◌||◌, List, [], ◌∷◌, length, arith,
  ◌==◌, if◌then◌else◌, Memory, store,
}
use criscv_hw.Shell.Tokens.{is_blank}

-- A text split at its first blank: the word up to it, and the words behind it.
abbrev pub push : List ℕ → List (List ℕ) → List (List ℕ)
push [] words = words
push (c ∷ cs) words = (c ∷ cs) ∷ words

unfoldable pub split : List ℕ → List ℕ × List (List ℕ)
split [] = ([], [])
split (c ∷ cs) =
    let (word, words) = split cs in if is_blank c then ([], push word words) else (c ∷ word, words)

-- The words of a text, which blanks and tabs separate.
unfoldable pub words : List ℕ → List (List ℕ)
words text = push (split text).0 (split text).1

-- The bytes of a text at an address, none of them a NUL.
abbrev pub BytesAt : Memory → ℕ → List ℕ → Type 0
BytesAt mem p [] = Unit
BytesAt mem p (c ∷ cs) = (mem p ≡ c) × (0 < c) × BytesAt mem (p + 1) cs

-- A C string at an address.
pub record TextAt (mem : Memory) (p : ℕ) (text : List ℕ) : Type 0 where
  pub bytes : BytesAt mem p text
  pub ended : mem (p + length text) ≡ 0

-- Pointers to C strings.
abbrev pub TextsAt : Memory → List ℕ → List (List ℕ) → Type 0
TextsAt mem [] [] = Unit
TextsAt mem [] (text ∷ texts) = ⊥
TextsAt mem (p ∷ ps) [] = ⊥
TextsAt mem (p ∷ ps) (text ∷ texts) = TextAt mem p text × TextsAt mem ps texts

pub store_at : (mem : Memory) (p v : ℕ) → store mem p v p ≡ v
unfolding store
store_at mem p v = ground arith

pub store_away : (mem : Memory) (p x v : ℕ) → (x < p) ⊎ (p < x) → store mem p v x ≡ mem x
unfolding store
store_away mem p x v h = ground arith

pub BytesAt-same :
    (mem mem' : Memory) (p : ℕ) (text : List ℕ)
    → ((x : ℕ) → p ≤ x → x < p + length text → mem' x ≡ mem x)
    → BytesAt mem p text
    → BytesAt mem' p text
BytesAt-same mem mem' p [] same b = tt
BytesAt-same mem mem' p (c ∷ cs) same b = (
  same p (omega arith) (omega arith) ∙ b.0,
  b.1,
  BytesAt-same mem mem' (p + 1) cs (λ x lo hi. same x (omega arith) (omega arith)) b.2,
)

pub TextAt-same :
    (mem mem' : Memory) (p : ℕ) (text : List ℕ)
    → ((x : ℕ) → p ≤ x → x ≤ p + length text → mem' x ≡ mem x)
    → TextAt mem p text
    → TextAt mem' p text
TextAt-same mem mem' p text same t = record {
  bytes = BytesAt-same mem mem' p text (λ x lo hi. same x lo (omega arith)) t.bytes;
  ended = same (p + length text) (omega arith) (omega arith) ∙ t.ended;
}

pub TextAt-tail :
    (mem : Memory) (p c : ℕ) (cs : List ℕ) → TextAt mem p (c ∷ cs) → TextAt mem (p + 1) cs
TextAt-tail mem p c cs t = record {
  bytes = t.bytes.2;
  ended = let e : p + 1 + length cs ≡ p + length (c ∷ cs) = omega arith in rw e t.ended;
}

pub blank_nul : is_blank 0 ≡ false
unfolding is_blank
blank_nul = refl

pub words-blank : (c : ℕ) (cs : List ℕ) → is_blank c ≡ true → words (c ∷ cs) ≡ words cs
unfolding words split
words-blank c cs e = rw (split, e)

pub split-blank : (c : ℕ) (cs : List ℕ) → is_blank c ≡ true → split (c ∷ cs) ≡ ([], words cs)
unfolding split words
split-blank c cs e = rw (split, e)

pub split-more :
    (c : ℕ) (cs : List ℕ) → is_blank c ≡ false → split (c ∷ cs) ≡ (c ∷ (split cs).0, (split cs).1)
unfolding split
split-more c cs e = rw (split, e)

pub split-nil : ((split []).0 ≡ []) × ((split []).1 ≡ words [])
unfolding split words
split-nil = (refl, refl)

pub words-nul :
    (mem : Memory) (p : ℕ) (text : List ℕ) → TextAt mem p text → (mem p == 0) ≡ true → text ≡ []
words-nul mem p [] t e = refl
words-nul mem p (c ∷ cs) t e = absurd (ground (arith, t.bytes.0, t.bytes.1))

pub words-front :
    (mem : Memory) (p : ℕ) (text : List ℕ)
    → TextAt mem p text
    → is_blank (mem p) ≡ false
    → (mem p == 0) ≡ false
    → words text ≡ (split text).0 ∷ (split text).1
unfolding words
words-front mem p [] t b e =
    let z : mem p ≡ 0 = (let q : p ≡ p + 0 = omega arith in rw q t.ended) in absurd (ground arith)
words-front mem p (c ∷ cs) t b e =
    let f : is_blank c ≡ false = rw (sym t.bytes.0) b in rw (split-more c cs f)

-- The blank behind a word.
pub words-stop :
    (mem : Memory) (p : ℕ) (text : List ℕ)
    → TextAt mem p text
    → (is_blank (mem p) || mem p == 0) ≡ true
    → (mem p == 0) ≡ false
    → (cs : List ℕ) × (TextAt mem (p + 1) cs)
      × (words text ≡ words cs)
      × (length text ≡ suc (length cs))
words-stop mem p [] t b e =
    let z : mem p ≡ 0 = (let q : p ≡ p + 0 = omega arith in rw q t.ended) in absurd (ground arith)
words-stop mem p (c ∷ cs) t b e =
    let f : is_blank c ≡ true = ground (arith, t.bytes.0) in
    (cs, TextAt-tail mem p c cs t, words-blank c cs f, refl)
