-- ===== src/Stage1/Zero.antt =====
-- The loop that clears .bss in bootloader/boot.c.
use criscv_hw.Prelude.{
  ℕ, zero, suc, ◌+◌, ◌^◌, ◌≤◌, ◌<◌, ◌≡◌, refl, sym, ap, ◌∙◌, inl, inr, true, false, Option, none,
  some, arith, ltb, Bool-cases, Memory, store,
}
use mathlib.Core.Path.{subst}
use criscv_hw.BlockDevice.{BlockDevice}
use criscv_hw.Stage1.Defs.{bss_end, zero_loop}

module _ {S : Type 0} (dev : BlockDevice S) where
  zero_loop-more :
      (fuel p vaddr ph : ℕ) (s : S)
      → ltb p (bss_end dev vaddr ph s) ≡ true
      → zero_loop dev (suc fuel) p vaddr ph s ≡ zero_loop dev fuel (p + 1) vaddr ph (dev.poke p 0 s)
  unfolding zero_loop
  zero_loop-more fuel p vaddr ph s e = rw (zero_loop, e)

  zero_loop-end :
      (fuel p vaddr ph : ℕ) (s : S)
      → ltb p (bss_end dev vaddr ph s) ≡ false
      → zero_loop dev (suc fuel) p vaddr ph s ≡ some s
  unfolding zero_loop
  zero_loop-end fuel p vaddr ph s e = rw (zero_loop, e)

  -- From `p` up to the end that the memory gives in the end, every byte is 0; below `p` all are as
  -- before.
  pub record Zeroed (p vaddr ph : ℕ) (s t : S) : Type 0 where
    pub zeros : (x : ℕ) → p ≤ x → x < bss_end dev vaddr ph t → dev.memory t x ≡ 0
    pub kept : (x : ℕ) → x < p → dev.memory t x ≡ dev.memory s x

  poke-here : (p : ℕ) (s : S) → dev.memory (dev.poke p 0 s) p ≡ 0
  unfolding store
  poke-here p s = ap (λ (m : Memory). m p) (dev.poke_memory p 0 s) ∙ ground arith

  poke-below : (p x : ℕ) (s : S) → x < p → dev.memory (dev.poke p 0 s) x ≡ dev.memory s x
  unfolding store
  poke-below p x s h = ap (λ (m : Memory). m x) (dev.poke_memory p 0 s) ∙ ground arith

  Zeroed-more :
      (p vaddr ph : ℕ) (s t : S)
      → Zeroed (p + 1) vaddr ph (dev.poke p 0 s) t
      → Zeroed p vaddr ph s t
  Zeroed-more p vaddr ph s t z = record {
    zeros = λ x lo hi. elim (Bool-cases (ltb p x)) [
      | inl e ↦ z.zeros x (ground arith) hi
      | inr e ↦ rw (p_is x lo e) (z.kept p (omega arith) ∙ poke-here p s)
    ];
    kept = λ x h. z.kept x (omega arith) ∙ poke-below p x s h;
  }
    where
      p_is : (x : ℕ) → p ≤ x → ltb p x ≡ false → x ≡ p
      p_is x lo e = ground arith

  -- The same of a loop that may not end.
  abbrev pub ZeroedIf : ℕ → ℕ → ℕ → S → Option S → Type 0
  ZeroedIf p vaddr ph s none = Unit
  ZeroedIf p vaddr ph s (some u) = Zeroed p vaddr ph s u

  -- When the loop ends, .bss is cleared.
  pub zero_loop-Zeroed :
      (fuel p vaddr ph : ℕ) (s : S) {t : S}
      → zero_loop dev fuel p vaddr ph s ≡ some t
      → Zeroed p vaddr ph s t
  unfolding zero_loop
  zero_loop-Zeroed zero p vaddr ph s e = cc
  zero_loop-Zeroed (suc fuel) p vaddr ph s {t} e =
      elim (Bool-cases (ltb p (bss_end dev vaddr ph s))) [
        | inl m ↦ Zeroed-more p vaddr ph s t (
            zero_loop-Zeroed fuel (p + 1) vaddr ph (dev.poke p 0 s)
              (sym (zero_loop-more fuel p vaddr ph s m) ∙ e))
        | inr n ↦ nothing n (sym (zero_loop-end fuel p vaddr ph s n) ∙ e)
      ]
    where
      empty : ltb p (bss_end dev vaddr ph s) ≡ false → Zeroed p vaddr ph s s
      empty n = record { zeros = λ x lo hi. absurd (ground arith); kept = λ x h. refl }

      nothing :
          ltb p (bss_end dev vaddr ph s) ≡ false
          → ◌≡◌ {A = Option S} (some s) (some t)
          → Zeroed p vaddr ph s t
      nothing n e = subst (λ (o : Option S). ZeroedIf p vaddr ph s o) e (empty n)

  -- The end of .bss lies below 2 ^ 32, so the loop ends whatever it clears.
  pub zero_loop-returns :
      (fuel p vaddr ph : ℕ) (s : S)
      → 2 ^ 32 ≤ p + fuel
      → 0 < fuel
      → (t : S) × (zero_loop dev fuel p vaddr ph s ≡ some t)
  unfolding zero_loop
  zero_loop-returns zero p vaddr ph s h pos = absurd (omega arith)
  zero_loop-returns (suc fuel) p vaddr ph s h pos =
      elim (Bool-cases (ltb p (bss_end dev vaddr ph s))) [
        | inl m ↦
            rw (zero_loop, m)
              (zero_loop-returns fuel (p + 1) vaddr ph (dev.poke p 0 s) (omega arith)
                (ground arith))
        | inr n ↦ (s, zero_loop-end fuel p vaddr ph s n)
      ]
