-- ===== src/Sddisk/Device.antt =====
-- The drivers as block devices: the laws of `BlockDevice` follow from what a read does.
use criscv_hw.Prelude.{ℕ, ◌≡◌, refl, ap, Outside, store, arith}
use criscv_hw.Sddisk.Wire.{Card, Sd}
use criscv_hw.Sddisk.Message.{printf_text, uart_text}
use criscv_hw.Sddisk.Block.{
  Status, success, failure, Report, read_block, sddisk_read_block, loader_sddisk_read_block,
}
use criscv_hw.Sddisk.Init.{sddisk_init, loader_sddisk_init}
use criscv_hw.Sddisk.Reads.{Outcome, read_block-Outcome}
use criscv_hw.BlockDevice.{BlockDevice}

module _ (card : Card) (lba buf : ℕ) (s : Sd) where
  kept_of_Outcome :
      (r : Status × Sd)
      → Outcome card lba buf s r
      → (x : ℕ) → Outside buf 512 x
      → r.1.mem x ≡ s.mem x
  kept_of_Outcome (success, after) read x out = read.kept x out
  kept_of_Outcome (failure, after) failed x out = ap (λ m. m x) failed.mem_eq

  same_of_Outcome : (r : Status × Sd) → Outcome card lba buf s r → r.0 ≡ failure → r.1.mem ≡ s.mem
  same_of_Outcome (success, after) read e = absurd (ground arith)
  same_of_Outcome (failure, after) failed e = failed.mem_eq

module _ (report : Report) (card : Card) where
  pub read_block-kept :
      (lba buf : ℕ) (s : Sd) (x : ℕ)
      → Outside buf 512 x
      → (read_block report card lba buf s).1.mem x ≡ s.mem x
  read_block-kept lba buf s =
      kept_of_Outcome card lba buf s (read_block report card lba buf s)
        (read_block-Outcome report card lba buf s)

  pub read_block-failed :
      (lba buf : ℕ) (s : Sd)
      → (read_block report card lba buf s).0 ≡ failure
      → (read_block report card lba buf s).1.mem ≡ s.mem
  read_block-failed lba buf s =
      same_of_Outcome card lba buf s (read_block report card lba buf s)
        (read_block-Outcome report card lba buf s)

-- The driver of the second stage.
abbrev pub sddisk : Card → BlockDevice Sd
unfolding sddisk_read_block
sddisk card = record {
  init = sddisk_init card;
  read_block = sddisk_read_block card;
  memory = λ s. s.mem;
  poke = λ a v s. record s { mem = store s.mem a v };
  read_kept = read_block-kept printf_text card;
  read_failed = read_block-failed printf_text card;
  poke_memory = λ a v s. refl;
}

-- The driver of the first stage.
abbrev pub loader_sddisk : Card → BlockDevice Sd
unfolding loader_sddisk_read_block
loader_sddisk card = record {
  init = loader_sddisk_init card;
  read_block = loader_sddisk_read_block card;
  memory = λ s. s.mem;
  poke = λ a v s. record s { mem = store s.mem a v };
  read_kept = read_block-kept uart_text card;
  read_failed = read_block-failed uart_text card;
  poke_memory = λ a v s. refl;
}
