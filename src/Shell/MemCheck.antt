-- ===== src/Shell/MemCheck.antt =====
-- `mem_addr_test` against what it is to find.
use criscv_hw.Prelude.{
  ℕ, zero, suc, ◌+◌, ◌*◌, ◌^◌, ◌≤◌, ◌<◌, ◌≡◌, refl, ◌∙◌, inl, inr, true, false, arith, ◌==◌, ==_iff,
  if◌then◌else◌, Bool-cases, Memory, store, Outside, Bool, ap, some,
}
use mathlib.Core.Path.{fun_ext}
use criscv_hw.Prelude.Words.{
  store_dword, store_dword-kept, store_word, word_at, word_at-same, word_at-store_dword,
}
use criscv_hw.Shell.World.{World, sendstring}
use criscv_hw.Shell.MemTest.{store_bytes, fill, verify, rounds, wraps, test_range, mem_addr_test}

-- The words that are not their address.
unfoldable pub mismatches : (ℕ → ℕ) → ℕ → ℕ → ℕ
mismatches ram zero a = 0
mismatches ram (suc left) a = (if ram a == a then 0 else 1) + mismatches ram left (a + 4)

verify-mismatches :
    (ram : ℕ → ℕ) (left a errs : ℕ) → (verify ram left a errs).0 ≡ errs + mismatches ram left a
unfolding verify mismatches
verify-mismatches ram zero a errs = omega arith
verify-mismatches ram (suc left) a errs = elim (Bool-cases (ram a == a)) [
  | inl e ↦ rw (verify, e) (verify-mismatches ram left (a + 4) errs ∙ omega arith)
  | inr e ↦ rw (verify, e) (verify-mismatches ram left (a + 4) (errs + 1) ∙ omega arith)
]

store_bytes-store_dword : (a v : ℕ) (mem : Memory) → store_bytes a v mem ≡ store_dword a v mem
unfolding store_bytes store_dword store_word store
store_bytes-store_dword a v mem = fun_ext λ x. ground arith

fill-same : (left a : ℕ) (mem : Memory) → fill left a true mem ≡ fill left a false mem
unfolding fill
fill-same zero a mem = refl
fill-same (suc left) a mem =
    rw (store_bytes-store_dword a a mem) (fill-same left (a + 4) (store_dword a a mem))

-- The test by bytes and the test by words fill the memory alike, answer alike and print alike, on any
-- memory.
pub test_range-same :
    {Fil Volume : Type 0} (ram : Memory → ℕ → ℕ) (start end : ℕ) (byte_stores : Bool)
    (w : World Fil Volume)
    → test_range ram start end byte_stores w ≡ test_range ram start end false w
unfolding test_range
test_range-same ram start end true w = rw (fill-same (rounds start end) start w.mem)
test_range-same ram start end false w = refl

-- A range that ends four bytes below 2 ^ 32 or before is tested to its end.
mem_addr_test-some :
    {Fil Volume : Type 0} (ram : Memory → ℕ → ℕ) (start end : ℕ) (byte_stores : Bool)
    (w : World Fil Volume)
    → end + 4 ≤ 2 ^ 32
    → mem_addr_test ram start end byte_stores w ≡ some (test_range ram start end false w)
unfolding mem_addr_test
mem_addr_test-some ram start end byte_stores w h =
    let e : wraps start end ≡ false = ground arith in
    rw (mem_addr_test, e) (ap (λ r. some r) (test_range-same ram start end byte_stores w))

zero-mismatches :
    (ram : ℕ → ℕ) (left a : ℕ)
    → ((i : ℕ) → i < left → ram (a + 4 * i) ≡ a + 4 * i)
    → mismatches ram left a ≡ 0
unfolding mismatches
zero-mismatches ram zero a h = refl
zero-mismatches ram (suc left) a h =
    let z : a + 4 * 0 ≡ a = omega arith in
    let first : ram a ≡ a = rw z at (h 0 (omega arith)) in
    let same : (ram a == a) ≡ true = (==_iff (ram a) a).1 first in
    let rest : mismatches ram left (a + 4) ≡ 0 = zero-mismatches ram left (a + 4) (λ i lt.
      let step : a + 4 * suc i ≡ a + 4 + 4 * i = omega arith in
      rw step at (h (suc i) (omega arith))) in
    rw same (omega arith)

-- The memory that the test reads back.
abbrev pub filled : ℕ → ℕ → Memory → Memory
filled start end mem = fill (rounds start end) start false mem

test_range-mismatches :
    {Fil Volume : Type 0} (ram : Memory → ℕ → ℕ) (start end : ℕ) (w : World Fil Volume)
    → (test_range ram start end false w).0
      ≡ mismatches (ram (filled start end w.mem)) (rounds start end) start
unfolding test_range
test_range-mismatches ram start end w =
    verify-mismatches (ram (filled start end w.mem)) (rounds start end) start 0 ∙ omega arith

fill-kept :
    (left a : ℕ) (mem : Memory) (x : ℕ) → Outside a (4 * left) x → fill left a false mem x ≡ mem x
unfolding fill
fill-kept zero a mem x h = refl
fill-kept (suc left) a mem x h =
    fill-kept left (a + 4) (store_dword a a mem) x (omega arith)
    ∙ store_dword-kept a a mem x (omega arith)

fill-word :
    (left a i : ℕ) (mem : Memory)
    → i < left
    → a + 4 * left ≤ 2 ^ 32
    → word_at (fill left a false mem) (a + 4 * i) ≡ a + 4 * i
unfolding fill
fill-word zero a i mem h le = absurd (omega arith)
fill-word (suc left) a zero mem h le =
    let z : a + 4 * 0 ≡ a = omega arith in
    rw z (
      word_at-same (fill left (a + 4) false (store_dword a a mem)) (store_dword a a mem) a
        (λ x lo hi. fill-kept left (a + 4) (store_dword a a mem) x (inl hi))
      ∙ (word_at-store_dword a a mem ∙ omega arith))
fill-word (suc left) a (suc i) mem h le =
    let step : a + 4 * suc i ≡ a + 4 + 4 * i = omega arith in
    rw step (fill-word left (a + 4) i (store_dword a a mem) (omega arith) (omega arith))

test_range-kept :
    {Fil Volume : Type 0} (start end : ℕ) (w : World Fil Volume) (x : ℕ)
    → Outside start (4 * rounds start end) x
    → (test_range word_at start end false w).1.mem x ≡ w.mem x
unfolding test_range sendstring
test_range-kept start end w x o = fill-kept (rounds start end) start w.mem x o

-- On a memory that reads as it was written, the test of a range that ends at least four bytes below
-- 2 ^ 32 passes, whether it stores by bytes or by words, and changes no byte before the range or
-- behind its last word.
pub mem_addr_test-passes :
    {Fil Volume : Type 0} (start end : ℕ) (byte_stores : Bool) (w : World Fil Volume)
    → start ≤ end
    → end + 4 ≤ 2 ^ 32
    → (w' : World Fil Volume) × (mem_addr_test word_at start end byte_stores w ≡ some (0, w'))
      × ((x : ℕ) → Outside start (4 * rounds start end) x → w'.mem x ≡ w.mem x)
mem_addr_test-passes start end byte_stores w h le =
    let zero_errs : (test_range word_at start end false w).0 ≡ 0 =
      test_range-mismatches word_at start end w
      ∙ zero-mismatches (word_at (filled start end w.mem)) (rounds start end) start
          (λ i lt. fill-word (rounds start end) start i w.mem lt (omega arith)) in
    let w' = (test_range word_at start end false w).1 in
    (
      w',
      mem_addr_test-some word_at start end byte_stores w le ∙ ap (λ n. some (n, w')) zero_errs,
      (λ x o. test_range-kept start end w x o),
    )
