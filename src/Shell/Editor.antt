-- ===== src/Shell/Editor.antt =====
-- The line editor of bootbin/boot.c, `readline`, against an editor on texts.
use criscv_hw.Prelude.{
  ℕ, ◌+◌, ◌-◌, ◌<◌, ◌≡◌, refl, sym, inl, inr, true, false, ◌||◌, Option, none, some, List, [], ◌∷◌,
  ◌++◌, length, length-append, arith, ltb, ◌==◌, if◌then◌else◌, Bool-cases, Memory, store,
}
use criscv_hw.Shell.Input.{readchar, Typed, end_line, edit, readline}
use criscv_hw.Shell.Texts.{BytesAt, TextAt, store_at, store_away, BytesAt-same}

-- A text without its last byte.
abbrev pub init : List ℕ → List ℕ
init [] = []
init (c ∷ []) = []
init (c ∷ d ∷ cs) = c ∷ init (d ∷ cs)

-- The line that the bytes typed make of the text so far, and the bytes behind it: Return ends it, and
-- so does the last byte that there is room for; Backspace and Delete take the last byte back.
unfoldable pub typed : ℕ → List ℕ → List ℕ → Option (List ℕ × List ℕ)
typed max text [] = if ltb (length text) (max - 1) then none else some (text, [])
typed max text (b ∷ input) =
    let c = readchar b in
    elim (ltb (length text) (max - 1)) [
      | false ↦ some (text, b ∷ input)
      | true ↦ elim (c == b'\r' || c == b'\n') [
        | true ↦ some (text, input)
        | false ↦ elim (c == 8 || c == 127) [
          | true ↦ typed max (init text) input
          | false ↦ typed max (text ++ c ∷ []) input
        ]
      ]
    ]

-- The line as `readline` leaves it.
pub record Line (buf max : ℕ) (text left : List ℕ) (r : Typed) : Type 0 where
  pub at : TextAt r.mem buf text
  pub pos_eq : r.pos ≡ length text
  pub short : length text < max
  pub input_eq : r.input ≡ left

abbrev pub LineIf : ℕ → ℕ → Option (List ℕ × List ℕ) → Option Typed → Type 0
LineIf buf max none none = Unit
LineIf buf max none (some r) = ⊥
LineIf buf max (some (text, left)) none = ⊥
LineIf buf max (some (text, left)) (some r) = Line buf max text left r

length-init : (text : List ℕ) → length (init text) ≡ length text - 1
length-init [] = omega arith
length-init (c ∷ []) = omega arith
length-init (c ∷ d ∷ cs) = omega (arith, length-init (d ∷ cs))

BytesAt-init :
    (mem : Memory) (p : ℕ) (text : List ℕ) → BytesAt mem p text → BytesAt mem p (init text)
BytesAt-init mem p [] b = tt
BytesAt-init mem p (c ∷ []) b = tt
BytesAt-init mem p (c ∷ d ∷ cs) b = (b.0, b.1, BytesAt-init mem (p + 1) (d ∷ cs) b.2)

BytesAt-append :
    (mem : Memory) (p : ℕ) (text : List ℕ) (c : ℕ)
    → BytesAt mem p text
    → mem (p + length text) ≡ c
    → 0 < c
    → BytesAt mem p (text ++ c ∷ [])
BytesAt-append mem p [] c b e h = (let q : p ≡ p + 0 = omega arith in rw q e, h, tt)
BytesAt-append mem p (d ∷ ds) c b e h = (
  b.0,
  b.1,
  BytesAt-append mem (p + 1) ds c b.2
      (let q : p + 1 + length ds ≡ p + length (d ∷ ds) = omega arith in rw q e) h,
)

-- Storing behind a text lets it be.
BytesAt-behind :
    (mem : Memory) (p v : ℕ) (text : List ℕ)
    → BytesAt mem p text
    → BytesAt (store mem (p + length text) v) p text
BytesAt-behind mem p v text b =
    BytesAt-same mem (store mem (p + length text) v) p text
      (λ x lo hi. store_away mem (p + length text) x v (omega arith)) b

readchar-pos : (b : ℕ) → 0 < readchar b
unfolding readchar
readchar-pos b = ground arith

end_line-Line :
    (buf max pos : ℕ) (text input : List ℕ) (mem : Memory) (sent : List ℕ)
    → BytesAt mem buf text
    → pos ≡ length text
    → length text < max
    → Line buf max text input (end_line buf pos input mem sent)
unfolding end_line
end_line-Line buf max pos text input mem sent b e h = record {
  at = rw e (record {
    bytes = BytesAt-behind mem buf 0 text b;
    ended = store_at mem (buf + length text) 0;
  });
  pos_eq = e;
  short = h;
  input_eq = refl;
}

edit-LineIf :
    (buf max : ℕ) (text input : List ℕ) (mem : Memory) (sent : List ℕ)
    → BytesAt mem buf text
    → length text < max
    → LineIf buf max (typed max text input) (edit buf max (length text) input mem sent)
unfolding edit typed
edit-LineIf buf max text [] mem sent b h = elim (Bool-cases (ltb (length text) (max - 1))) [
  | inl e ↦ rw (edit, typed, e) tt
  | inr e ↦ rw (edit, typed, e) (end_line-Line buf max (length text) text [] mem sent b refl h)
]
edit-LineIf buf max text (a ∷ input) mem sent b h =
    let c : ℕ = readchar a in
    elim (Bool-cases (ltb (length text) (max - 1))) [
      | inr e ↦
          rw (edit, typed, e)
            (end_line-Line buf max (length text) text (a ∷ input) mem sent b refl h)
      | inl e ↦ elim (Bool-cases (c == b'\r' || c == b'\n')) [
        | inl f ↦
            rw (edit, typed, e, f)
              (end_line-Line buf max (length text) text input mem sent b refl h)
        | inr f ↦ elim (Bool-cases (c == 8 || c == 127)) [
          | inl g ↦
              rw (edit, typed, e, f, g, sym (length-init text))
                (edit-LineIf buf max (init text) input mem _ (BytesAt-init mem buf text b)
                  (omega (arith, h, length-init text)))
          | inr g ↦
              rw (edit, typed, e, f, g, sym (longer c))
                (edit-LineIf buf max (text ++ c ∷ []) input (store mem (buf + length text) c)
                  (c ∷ sent)
                  (BytesAt-append (store mem (buf + length text) c) buf text c
                    (BytesAt-behind mem buf c text b) (store_at mem (buf + length text) c)
                    (readchar-pos a))
                  (rw (longer c) (ground arith)))
        ]
      ]
    ]
  where
    longer : (c : ℕ) → length (text ++ c ∷ []) ≡ length text + 1
    longer c = length-append text (c ∷ [])

-- `readline` waits for ever exactly where the editor on texts finds no end of the line. Otherwise
-- the buffer holds the edited text as a C string, the answer is its length, which is below the size
-- of the buffer, and the same bytes are left on the line.
pub readline-typed :
    (buf max : ℕ) (input : List ℕ) (mem : Memory)
    → 0 < max
    → LineIf buf max (typed max [] input) (readline buf max input mem)
unfolding readline
readline-typed buf max input mem h = edit-LineIf buf max [] input mem [] tt (omega arith)
