-- ===== src/Shell/Start.antt =====
-- `waitForStart` against the first place of "RVF" in what comes.
use criscv_hw.Prelude.{
  ℕ, zero, suc, ◌≤◌, ◌<◌, ◌≡◌, refl, sym, ap, ◌∙◌, inl, inr, true, none, some, List, [], ◌∷◌, ◌++◌,
  arith, ltb, ◌==◌, ==_iff, Bool-cases,
}
use mathlib.Core.List.{append_assoc}
use criscv_hw.Shell.Input.{start, next_pos, wait_for_start}

-- The part of "RVF" that has come.
abbrev part : ℕ → List ℕ
part zero = []
part (suc zero) = b'R' ∷ []
part (suc (suc zero)) = b'R' ∷ b'V' ∷ []
part _ = start

wait_for_start-more :
    (st_pos c : ℕ) (cs : List ℕ)
    → st_pos < 3
    → wait_for_start st_pos (c ∷ cs) ≡ wait_for_start (next_pos st_pos c) cs
unfolding wait_for_start
wait_for_start-more st_pos c cs h =
    let e : ltb st_pos 3 ≡ true = ground arith in rw (wait_for_start, e)

next_pos-le : (st_pos c : ℕ) → st_pos < 3 → next_pos st_pos c ≤ 3
unfolding next_pos
next_pos-le st_pos c h = ground arith

wait_for_start-done : (input : List ℕ) → wait_for_start 3 input ≡ some input
unfolding wait_for_start
wait_for_start-done [] = refl
wait_for_start-done (c ∷ cs) = refl

-- "RVF" is over from any position below 3.
wait_for_start-word :
    (st_pos : ℕ) (rest : List ℕ) → st_pos < 3 → wait_for_start st_pos (start ++ rest) ≡ some rest
unfolding wait_for_start next_pos
wait_for_start-word zero rest h = wait_for_start-done rest
wait_for_start-word (suc zero) rest h = wait_for_start-done rest
wait_for_start-word (suc (suc zero)) rest h = wait_for_start-done rest
wait_for_start-word (suc (suc (suc n))) rest h = absurd (omega arith)

-- From any position below 3 the wait is over once "RVF" comes, whatever comes before it.
wait_for_start-ends :
    (pre rest : List ℕ) (st_pos : ℕ)
    → st_pos ≤ 3
    → (left : List ℕ) × (wait_for_start st_pos (pre ++ (start ++ rest)) ≡ some left)
wait_for_start-ends [] rest st_pos h = elim (Bool-cases (ltb st_pos 3)) [
  | inl e ↦ (rest, wait_for_start-word st_pos rest (ground arith))
  | inr e ↦
      let three : st_pos ≡ 3 = ground arith in
      (start ++ rest, rw three (wait_for_start-done (start ++ rest)))
]
wait_for_start-ends (c ∷ cs) rest st_pos h =
    let input : List ℕ = cs ++ (start ++ rest) in
    elim (Bool-cases (ltb st_pos 3)) [
      | inl e ↦
          let l : st_pos < 3 = ground arith in
          rw (wait_for_start-more st_pos c input l)
            (wait_for_start-ends cs rest (next_pos st_pos c) (next_pos-le st_pos c l))
      | inr e ↦
          let three : st_pos ≡ 3 = ground arith in
          (c ∷ input, rw three (wait_for_start-done (c ∷ input)))
    ]

-- What came before a byte, with the byte, ends in the part of "RVF" that the position stands for.
next_pos-part :
    (st_pos c : ℕ) (cs : List ℕ)
    → st_pos < 3
    → (q : List ℕ) × (part st_pos ++ c ∷ cs ≡ q ++ (part (next_pos st_pos c) ++ cs))
unfolding next_pos
next_pos-part zero c cs h = elim (Bool-cases (c == b'R')) [
  | inl e ↦ let r : c ≡ b'R' = (==_iff c b'R').0 e in rw r ([], refl)
  | inr e ↦ (c ∷ [], rw e refl)
]
next_pos-part (suc zero) c cs h = elim (Bool-cases (c == b'V')) [
  | inl e ↦ let r : c ≡ b'V' = (==_iff c b'V').0 e in rw r ([], refl)
  | inr e ↦ elim (Bool-cases (c == b'R')) [
    | inl f ↦ let r : c ≡ b'R' = (==_iff c b'R').0 f in rw r (b'R' ∷ [], refl)
    | inr f ↦ (b'R' ∷ c ∷ [], rw (e, f) refl)
  ]
]
next_pos-part (suc (suc zero)) c cs h = elim (Bool-cases (c == b'F')) [
  | inl e ↦ let r : c ≡ b'F' = (==_iff c b'F').0 e in rw r ([], refl)
  | inr e ↦ elim (Bool-cases (c == b'R')) [
    | inl f ↦ let r : c ≡ b'R' = (==_iff c b'R').0 f in rw r (b'R' ∷ b'V' ∷ [], refl)
    | inr f ↦ (b'R' ∷ b'V' ∷ c ∷ [], rw (e, f) refl)
  ]
]
next_pos-part (suc (suc (suc n))) c cs h = absurd (omega arith)

wait_for_start-empty : (st_pos : ℕ) → ltb st_pos 3 ≡ true → wait_for_start st_pos [] ≡ none
unfolding wait_for_start
wait_for_start-empty st_pos e = rw (wait_for_start, e)

after_three :
    (input : List ℕ) (st_pos : ℕ) {left : List ℕ}
    → st_pos ≡ 3
    → wait_for_start st_pos input ≡ some left
    → (pre : List ℕ) × (part st_pos ++ input ≡ pre ++ (start ++ left))
after_three input st_pos {left} three e =
    let same : some input ≡ some left = sym (wait_for_start-done input) ∙ (rw three at e) in
    let eq : input ≡ left = cc in rw (three, eq) ([], refl)

-- What is left when the wait is over follows on "RVF".
wait_for_start-after :
    (input : List ℕ) (st_pos : ℕ) {left : List ℕ}
    → st_pos ≤ 3
    → wait_for_start st_pos input ≡ some left
    → (pre : List ℕ) × (part st_pos ++ input ≡ pre ++ (start ++ left))
wait_for_start-after [] st_pos {left} h e = elim (Bool-cases (ltb st_pos 3)) [
  | inr f ↦ after_three [] st_pos (ground arith) e
  | inl f ↦ let never : none ≡ some left = sym (wait_for_start-empty st_pos f) ∙ e in cc
]
wait_for_start-after (c ∷ cs) st_pos {left} h e = elim (Bool-cases (ltb st_pos 3)) [
  | inr f ↦ after_three (c ∷ cs) st_pos (ground arith) e
  | inl f ↦
      let l : st_pos < 3 = ground arith in
      let (q, eq) = next_pos-part st_pos c cs l in
      let (pre, rest) =
        wait_for_start-after cs (next_pos st_pos c) (next_pos-le st_pos c l)
          (sym (wait_for_start-more st_pos c cs l) ∙ e) in
      (q ++ pre, eq ∙ (ap (λ w. q ++ w) rest ∙ sym (append_assoc q pre (start ++ left))))
]

-- The wait for a program is over once "RVF" has come, whatever comes before it; and whenever it is
-- over, what is left of the input follows directly on "RVF".
pub wait_for_start-start :
    (pre rest : List ℕ)
    → (left : List ℕ) × (before : List ℕ) × ((wait_for_start 0 (pre ++ (start ++ rest)) ≡ some left)
        × (pre ++ (start ++ rest) ≡ before ++ (start ++ left)))
wait_for_start-start pre rest =
    let (left, e) = wait_for_start-ends pre rest 0 (omega arith) in
    let (before, eq) = wait_for_start-after (pre ++ (start ++ rest)) 0 (omega arith) e in
    (left, before, (e, eq))
