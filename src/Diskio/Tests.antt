-- ===== src/Diskio/Tests.antt =====
-- Reads through `disk_read` from a drive that is a function from sectors to bytes.
use criscv_hw.Prelude.{
  ℕ, ◌+◌, ◌≡◌, refl, inr, true, false, ◌&&◌, arith, leb, ltb, if◌then◌else◌, Memory, store,
}
use criscv_hw.Sddisk.Block.{Status, success, failure}
use criscv_hw.BlockDevice.{BlockDevice}
use criscv_hw.Diskio.Defs.{Drive, is_ready, disk_read}
use criscv_hw.Diskio.Reads.{Ended, disk_read-Ended, disk_read-kept}

-- Sectors below 100 hold their own number in each byte; the others cannot be read.
abbrev read_sector : ℕ → ℕ → Memory → Status × Memory
read_sector lba buf mem =
    if ltb lba 100
    then (success, λ x. if leb buf x && ltb x (buf + 512) then lba else mem x)
    else (failure, mem)

abbrev numbers : BlockDevice Memory
numbers = record {
  init = λ m. (success, m);
  read_block = read_sector;
  memory = λ m. m;
  poke = λ a v m. store m a v;
  read_kept = λ lba buf s x h. ground arith;
  read_failed = λ lba buf s e. ground arith;
  poke_memory = λ a v s. refl;
}

abbrev drive : Drive Memory
drive = record { drive_status = 0; device = λ x. 0 }

abbrev fresh : Drive Memory
fresh = record { drive_status = 1; device = λ x. 0 }

drive-is_ready : is_ready drive ≡ true
unfolding is_ready
drive-is_ready = refl

fresh-is_ready : is_ready fresh ≡ false
unfolding is_ready
fresh-is_ready = refl

disk_read-Ended_example :
    Ended numbers 98 4096 3 drive.device
      (let (result, d') = disk_read numbers 0 4096 98 3 drive in (result, d'.device))
disk_read-Ended_example =
    disk_read-Ended numbers 4096 98 3 drive drive-is_ready (omega arith) (omega arith) (omega arith)
      (omega arith)

disk_read-kept_example : (disk_read numbers 0 4096 98 3 drive).1.device 8000 ≡ 0
disk_read-kept_example =
    disk_read-kept numbers 0 4096 98 3 drive 8000 (omega arith) (inr (omega arith))
