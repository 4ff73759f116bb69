-- ===== src/Shell/Served.antt =====
-- A line that is typed without corrections into bootbin/boot.c's `shell` is served.
use criscv_hw.Prelude.{
  ℕ, zero, suc, ◌+◌, ◌-◌, ◌<◌, ◌≡◌, refl, sym, ap, ◌∙◌, Bool, true, false, ◌||◌, none, some, List,
  [], ◌∷◌, ◌++◌, length, length-append, drop, arith, ltb, ◌==◌, All, Memory,
}
use mathlib.Core.Path.{subst}
use mathlib.Core.List.{append-nil, append_assoc}
use criscv_hw.Ymodem.Session.{Line}
use criscv_hw.Shell.Input.{readchar}
use criscv_hw.Shell.World.{World, Env, Next, bytes_of, skip_bytes}
use criscv_hw.Shell.Tokens.{line_size}
use criscv_hw.Shell.Texts.{words}
use criscv_hw.Shell.Editor.{typed}
use criscv_hw.Shell.Commands.{shell_round}
use criscv_hw.Shell.Dispatch.{LineTaken, Chosen, RoundOf, shell_round-RoundOf}

-- A byte that the editor takes as it is.
abbrev pub edits : ℕ → Bool
edits c = c == 0 || c == b'\r' || c == b'\n' || c == 8 || c == 127

abbrev pub Simple : ℕ → Type 0
Simple c = edits c ≡ false

typed-step :
    (max c : ℕ) (text input : List ℕ)
    → Simple c
    → length text < max - 1
    → typed max text (c ∷ input) ≡ typed max (text ++ c ∷ []) input
unfolding typed readchar
typed-step max c text input s h =
    let e : ltb (length text) (max - 1) ≡ true = ground arith in
    let r : readchar c ≡ c = ground arith in
    let f : (readchar c == b'\r' || readchar c == b'\n') ≡ false = rw r (ground arith) in
    let g : (readchar c == 8 || readchar c == 127) ≡ false = rw r (ground arith) in
    rw (typed, e, f, g) (ap (λ d. typed max (text ++ d ∷ []) input) r)

typed-return :
    (max : ℕ) (text rest : List ℕ)
    → length text < max - 1
    → typed max text (b'\r' ∷ rest) ≡ some (text, rest)
unfolding typed readchar
typed-return max text rest h =
    let e : ltb (length text) (max - 1) ≡ true = ground arith in rw (typed, e)

typed-Simple :
    (max : ℕ) (text pre rest : List ℕ)
    → All Simple pre
    → length text + length pre < max - 1
    → typed max text (pre ++ b'\r' ∷ rest) ≡ some (text ++ pre, rest)
typed-Simple max text [] rest s h =
    typed-return max text rest (omega arith) ∙ ap (λ t. some (t, rest)) (sym (append-nil text))
typed-Simple max text (c ∷ pre) rest s h =
    typed-step max c text (pre ++ b'\r' ∷ rest) s.0 (omega arith)
    ∙ (typed-Simple max (text ++ c ∷ []) pre rest s.1
          (let l = length-append text (c ∷ []) in omega arith)
        ∙ ap (λ t. some (t, rest)) (append_assoc text (c ∷ []) pre))

bytes_of-skip_bytes : (n : ℕ) (line : Line) → bytes_of (skip_bytes n line) ≡ drop n (bytes_of line)
unfolding bytes_of skip_bytes
bytes_of-skip_bytes zero line = refl
bytes_of-skip_bytes (suc n) [] = refl
bytes_of-skip_bytes (suc n) (none ∷ line) = bytes_of-skip_bytes (suc n) line
bytes_of-skip_bytes (suc n) (some b ∷ line) = bytes_of-skip_bytes n line

drop-behind :
    (xs : List ℕ) (c : ℕ) (ys : List ℕ)
    → drop (length (xs ++ c ∷ ys) - length ys) (xs ++ c ∷ ys) ≡ ys
drop-behind xs c ys =
    let l = length-append xs (c ∷ ys) in
    let n : length (xs ++ c ∷ ys) - length ys ≡ suc (length xs) = omega (arith, l) in
    ap (λ k. drop k (xs ++ c ∷ ys)) n ∙ past xs
  where
    past : (zs : List ℕ) → drop (suc (length zs)) (zs ++ c ∷ ys) ≡ ys
    past [] = refl
    past (z ∷ zs) = past zs

module _ {Fil Dir Volume : Type 0} (env : Env Fil Dir Volume) (ram : Memory → ℕ → ℕ) where
  -- A round that has taken the line `text` and left the bytes `rest`.
  pub record Serves (w : World Fil Volume) (text rest : List ℕ) (n : Next (World Fil Volume))
      : Type 0 where
    pub world : World Fil Volume
    pub taken : LineTaken env w world rest
    pub left : bytes_of world.line ≡ rest
    pub chosen : Chosen env ram (words text) world n

  -- Once a line of at most 126 bytes, none of them a NUL, an end of a line or a correction, has been
  -- typed with Return behind it, the shell takes exactly this line off the input and runs the
  -- command that its first word names, on its words, or refuses more than 16 of them, or goes on
  -- where there are none.
  pub shell_round-Serves :
      (w : World Fil Volume) (text rest : List ℕ)
      → bytes_of w.line ≡ text ++ b'\r' ∷ rest
      → All Simple text
      → length text < 127
      → Serves w text rest (shell_round env ram w)
  shell_round-Serves w text rest e s h =
      let t : typed line_size [] (bytes_of w.line) ≡ some (text, rest) =
        ap (typed line_size []) e ∙ typed-Simple line_size [] text rest s (omega arith) in
      let (world, taken, chosen) =
        subst (λ r. RoundOf env ram w r (shell_round env ram w)) t
          (shell_round-RoundOf env ram w) in
      record {
        world = world;
        taken = taken;
        left =
            ap bytes_of taken.line_eq
            ∙ (bytes_of-skip_bytes _ w.line
                ∙ (ap (λ xs. drop (length xs - length rest) xs) e ∙ drop-behind text b'\r' rest));
        chosen = chosen;
      }
