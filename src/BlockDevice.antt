-- ===== src/BlockDevice.antt =====
-- What sddisk.h promises its callers: a card that starts and reads blocks into memory. The callers
-- take it as an argument; `Sddisk.Device` gives the drivers of the two builds.
pub mod Blocks
use criscv_hw.Prelude.{ℕ, ◌≡◌, Memory, Outside, store}
use criscv_hw.Sddisk.Block.{Status, failure}

pub record BlockDevice (S : Type 0) : Type 0 where
  pub init : S → Status × S
  pub read_block : ℕ → ℕ → S → Status × S
  pub memory : S → Memory
  -- A store by the caller.
  pub poke : ℕ → ℕ → S → S
  -- A read writes only into its buffer of 512 bytes, and not at all if it fails.
  pub read_kept :
      (lba buf : ℕ) (s : S) (x : ℕ)
      → Outside buf 512 x
      → memory (read_block lba buf s).1 x ≡ memory s x
  pub read_failed :
      (lba buf : ℕ) (s : S)
      → (read_block lba buf s).0 ≡ failure
      → memory (read_block lba buf s).1 ≡ memory s
  pub poke_memory : (a v : ℕ) (s : S) → memory (poke a v s) ≡ store (memory s) a v
