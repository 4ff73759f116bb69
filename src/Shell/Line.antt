-- ===== src/Shell/Line.antt =====
-- The line editor keeps to its buffer.
use criscv_hw.Prelude.{
  ℕ, ◌+◌, ◌-◌, ◌<◌, ◌≡◌, ◌∙◌, inl, inr, ◌||◌, Option, none, some, List, [], ◌∷◌, ◌++◌, arith, ltb,
  ◌==◌, Bool-cases, Memory, store, Outside,
}
use mathlib.Core.Path.{subst}
use criscv_hw.Shell.Input.{readchar, Typed, end_line, edit, readline}

-- A line of fewer than `max` bytes with its NUL, and no byte changed outside the buffer.
pub record IsLine (buf max : ℕ) (mem : Memory) (r : Typed) : Type 0 where
  pub short : r.pos < max
  pub ended : r.mem (buf + r.pos) ≡ 0
  pub kept : (x : ℕ) → Outside buf max x → r.mem x ≡ mem x

abbrev pub IsLineIf : ℕ → ℕ → Memory → Option Typed → Type 0
IsLineIf buf max mem none = Unit
IsLineIf buf max mem (some r) = IsLine buf max mem r

end_line-IsLine :
    (buf max pos : ℕ) (input : List ℕ) (mem : Memory) (sent : List ℕ)
    → pos < max
    → IsLine buf max mem (end_line buf pos input mem sent)
unfolding end_line store
end_line-IsLine buf max pos input mem sent h = record {
  short = h;
  ended = ground arith;
  kept = λ x o. ground arith;
}

IsLineIf-store :
    (buf max pos c : ℕ) (mem : Memory) (r : Option Typed)
    → pos < max
    → IsLineIf buf max (store mem (buf + pos) c) r
    → IsLineIf buf max mem r
unfolding store
IsLineIf-store buf max pos c mem none h i = tt
IsLineIf-store buf max pos c mem (some r) h i = record {
  short = i.short;
  ended = i.ended;
  kept = λ x o. i.kept x o ∙ ground arith;
}

edit-IsLine :
    (buf max pos : ℕ) (input : List ℕ) (mem : Memory) (sent : List ℕ)
    → pos < max
    → IsLineIf buf max mem (edit buf max pos input mem sent)
unfolding edit
edit-IsLine buf max pos [] mem sent h = elim (Bool-cases (ltb pos (max - 1))) [
  | inl e ↦ rw (edit, e) tt
  | inr e ↦ rw (edit, e) (end_line-IsLine buf max pos [] mem sent h)
]
edit-IsLine buf max pos (b ∷ input) mem sent h =
    let c : ℕ = readchar b in
    elim (Bool-cases (ltb pos (max - 1))) [
      | inr e ↦ rw (edit, e) (end_line-IsLine buf max pos (b ∷ input) mem sent h)
      | inl e ↦ elim (Bool-cases (c == b'\r' || c == b'\n')) [
        | inl f ↦ rw (edit, e, f) (end_line-IsLine buf max pos input mem sent h)
        | inr f ↦ elim (Bool-cases (c == 8 || c == 127)) [
          | inl g ↦ rw (edit, e, f, g) (edit-IsLine buf max (pos - 1) input mem _ (omega arith))
          | inr g ↦
              rw (edit, e, f, g)
                (IsLineIf-store buf max pos c mem _ h (
                  edit-IsLine buf max (pos + 1) input (store mem (buf + pos) c) (c ∷ sent)
                    (ground arith)))
        ]
      ]
    ]

-- The end of a line ends the loop, if the full buffer has not ended it before.
edit-returns :
    (buf max pos : ℕ) (pre rest : List ℕ) (mem : Memory) (sent : List ℕ)
    → (r : Typed) × (edit buf max pos (pre ++ b'\r' ∷ rest) mem sent ≡ some r)
unfolding edit readchar
edit-returns buf max pos [] rest mem sent = elim (Bool-cases (ltb pos (max - 1))) [
  | inl e ↦ (end_line buf pos rest mem sent, rw (edit, e))
  | inr e ↦ (end_line buf pos (b'\r' ∷ rest) mem sent, rw (edit, e))
]
edit-returns buf max pos (b ∷ pre) rest mem sent =
    let c : ℕ = readchar b in
    let input : List ℕ = pre ++ b'\r' ∷ rest in
    elim (Bool-cases (ltb pos (max - 1))) [
      | inr e ↦ (end_line buf pos (b ∷ input) mem sent, rw (edit, e))
      | inl e ↦ elim (Bool-cases (c == b'\r' || c == b'\n')) [
        | inl f ↦ (end_line buf pos input mem sent, rw (edit, e, f))
        | inr f ↦ elim (Bool-cases (c == 8 || c == 127)) [
          | inl g ↦ rw (edit, e, f, g) (edit-returns buf max (pos - 1) pre rest mem _)
          | inr g ↦
              rw (edit, e, f, g)
                (edit-returns buf max (pos + 1) pre rest (store mem (buf + pos) c) (c ∷ sent))
        ]
      ]
    ]

pub readline-IsLineIf :
    (buf max : ℕ) (input : List ℕ) (mem : Memory)
    → 0 < max
    → IsLineIf buf max mem (readline buf max input mem)
unfolding readline
readline-IsLineIf buf max input mem h = edit-IsLine buf max 0 input mem [] h

-- Once Return is typed, whatever was typed before it, `readline` has returned: a line shorter than
-- `max` that ends in NUL within the buffer, and no byte outside the `max` bytes of the buffer is
-- written.
pub readline-IsLine :
    (buf max : ℕ) (pre rest : List ℕ) (mem : Memory)
    → 0 < max
    → (r : Typed) × ((readline buf max (pre ++ b'\r' ∷ rest) mem ≡ some r) × IsLine buf max mem r)
unfolding readline
readline-IsLine buf max pre rest mem h =
    let (r, e) = edit-returns buf max 0 pre rest mem [] in
    (r, (e, subst (IsLineIf buf max mem) e (readline-IsLineIf buf max (pre ++ b'\r' ∷ rest) mem h)))
