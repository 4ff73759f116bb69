-- ===== src/BlockDevice/Blocks.antt =====
-- Reads of several blocks from a device, one behind the other.
use criscv_hw.Prelude.{ℕ, suc, ◌+◌, ◌*◌, ◌≡◌, ◌⊎◌, refl, sym, ap, ◌∙◌, inl, inr, arith, Outside}
use criscv_hw.Sddisk.Block.{Status, success, failure}
use criscv_hw.BlockDevice.{BlockDevice}

pub Status-cases : (r : Status) → (r ≡ success) ⊎ (r ≡ failure)
Status-cases success = inl refl
Status-cases failure = inr refl

module _ {S : Type 0} (dev : BlockDevice S) where
  -- `count` blocks from `sector` on, read one behind the other into memory from `buff` on.
  pub data Reads : ℕ → ℕ → ℕ → S → S → Type 0 where
    none_left : {sector buff : ℕ} {s : S} → Reads sector buff 0 s s
    one_more :
        {sector buff n : ℕ} {s t u : S}
        → dev.read_block sector buff s ≡ (success, t)
        → Reads (sector + 1) (buff + 512) n t u
        → Reads sector buff (suc n) s u

  -- They store into their buffer alone.
  pub Reads-kept :
      {sector buff n : ℕ} {s u : S} (x : ℕ)
      → Reads sector buff n s u
      → Outside buff (n * 512) x
      → dev.memory u x ≡ dev.memory s x
  Reads-kept x none_left out = refl
  Reads-kept x (one_more {sector} {buff} {s} {t} first rest) out =
      Reads-kept x rest (omega arith)
      ∙ (ap (λ (r : Status × S). dev.memory r.1 x) (sym first)
          ∙ dev.read_kept sector buff s x (omega arith))
