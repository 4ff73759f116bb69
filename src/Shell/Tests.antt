-- ===== src/Shell/Tests.antt =====
-- A program's first bytes behind others, and a line with a correction.
use criscv_hw.Prelude.{ℕ, ◌≡◌, refl, Option, none, some, List, [], ◌∷◌, ◌++◌, Memory}
use criscv_hw.Prelude.Text.{codes}
use criscv_hw.Shell.Input.{
  start, next_pos, wait_for_start, Typed, readchar, edit, end_line, readline,
}
use criscv_hw.Shell.Start.{wait_for_start-start}

-- The second R begins the word anew.
starts : wait_for_start 0 (codes "xRVRVFrest") ≡ some (codes "rest")
unfolding wait_for_start next_pos
starts = refl

wait_for_start-start_example :
    (left : List ℕ) × (before : List ℕ) × ((wait_for_start 0
          (codes "xRV" ++ (start ++ codes "rest"))
        ≡ some left)
      × (codes "xRV" ++ (start ++ codes "rest") ≡ before ++ (start ++ left)))
wait_for_start-start_example = wait_for_start-start (codes "xRV") (codes "rest")

abbrev blank : Memory
blank = λ x. 0

abbrev pos_of : Option Typed → ℕ
pos_of none = 100
pos_of (some r) = r.pos

-- "lx", a backspace, and "s".
types_ls : pos_of (readline 100 8 (b'l' ∷ b'x' ∷ 8 ∷ b's' ∷ b'\r' ∷ []) blank) ≡ 2
unfolding readline edit readchar end_line
types_ls = refl
