-- ===== src/Stdfn/Slots.antt =====
-- The search of bootbin/stdfn.c for a free slot, and its error codes.
use criscv_hw.Prelude.{
  ℕ, zero, suc, ◌+◌, ◌≤◌, ◌<◌, ◌≡◌, ◌≢◌, refl, inl, inr, Bool, true, false, arith, Bool-cases,
}
use criscv_hw.Prelude.Int.{negsuc}
use criscv_hw.Stdfn.FatFs.{
  Fresult, fr_no_file, fr_no_path, fr_invalid_name, fr_exist, fr_denied, fr_write_protected,
  fr_too_many_open_files,
}
use criscv_hw.Stdfn.Files.{Slot, Os, fr_to_err, first_free}

-- Whether the slot `i` is in use.
abbrev pub used : {Fil Volume : Type 0} → ℕ → Os Fil Volume → Bool
used i s = (s.slots i).used

pub first_free-le :
    {Fil : Type 0} (left i : ℕ) (slots : ℕ → Slot Fil) → first_free left i slots ≤ i + left
unfolding first_free
first_free-le zero i slots = omega arith
first_free-le (suc left) i slots = ground (arith, first_free-le left (i + 1) slots)

pub first_free-past :
    {Fil : Type 0} (left i : ℕ) (slots : ℕ → Slot Fil)
    → (slots i).used ≡ true
    → first_free (suc left) i slots ≡ first_free left (i + 1) slots
unfolding first_free
first_free-past left i slots e = rw (first_free, e)

pub first_free-here :
    {Fil : Type 0} (left i : ℕ) (slots : ℕ → Slot Fil)
    → (slots i).used ≡ false
    → first_free (suc left) i slots ≡ i
unfolding first_free
first_free-here left i slots e = rw (first_free, e)

pub first_free-zero : {Fil : Type 0} (i : ℕ) (slots : ℕ → Slot Fil) → first_free 0 i slots ≡ i
unfolding first_free
first_free-zero i slots = refl

-- The slot found is free, and those before it are in use.
pub first_free-free :
    {Fil : Type 0} (left i : ℕ) (slots : ℕ → Slot Fil)
    → first_free left i slots < i + left
    → (slots (first_free left i slots)).used ≡ false
first_free-free zero i slots h = absurd (omega (arith, first_free-zero i slots))
first_free-free (suc left) i slots h = elim (Bool-cases (slots i).used) [
  | inl e ↦
      let step = first_free-past left i slots e in
      rw step (first_free-free left (i + 1) slots (omega (arith, step)))
  | inr e ↦ rw (first_free-here left i slots e) e
]

pub first_free-used :
    {Fil : Type 0} (left i j : ℕ) (slots : ℕ → Slot Fil)
    → i ≤ j
    → j < first_free left i slots
    → (slots j).used ≡ true
first_free-used zero i j slots lo hi = absurd (omega (arith, first_free-zero i slots))
first_free-used (suc left) i j slots lo hi = elim (Bool-cases (slots i).used) [
  | inl e ↦ ground (arith, first_free-past left i slots e, first_free-used left (i + 1) j slots)
  | inr e ↦ absurd (omega (arith, first_free-here left i slots e))
]

pub true-ne-false : true ≢ false
true-ne-false e = cc

-- Every result that FatFs reports becomes a negative number.
pub fr_to_err-negsuc : (r : Fresult) → (n : ℕ) × (fr_to_err r ≡ negsuc n)
unfolding fr_to_err
fr_to_err-negsuc fr_no_file = (1, refl)
fr_to_err-negsuc fr_no_path = (1, refl)
fr_to_err-negsuc fr_invalid_name = (1, refl)
fr_to_err-negsuc fr_exist = (16, refl)
fr_to_err-negsuc fr_denied = (12, refl)
fr_to_err-negsuc fr_write_protected = (12, refl)
fr_to_err-negsuc fr_too_many_open_files = (23, refl)
fr_to_err-negsuc _ = (4, refl)
