-- ===== src/Stage1/Tests.antt =====
-- A second stage of one sector.
use criscv_hw.Prelude.{
  ℕ, ◌+◌, ◌-◌, ◌≤◌, ◌≡◌, refl, Bool, true, false, ◌&&◌, arith, ltb, leb, ◌==◌, if◌then◌else◌,
  Option, some, Memory, store,
}
use criscv_hw.Sddisk.Block.{Status, success, failure}
use criscv_hw.BlockDevice.{BlockDevice}
use criscv_hw.Stage1.Defs.{
  Stop, started, Boot, boot_base, le32, main, load_loop, file_end, after_init, after_first, check,
  after_load, enter, zero_loop, die, uart_puts,
}
use criscv_hw.Stage1.Boot.{Stopped, main-Stopped}

-- The words of an ELF header that the loader reads, and its program header at 0x34: it lies at
-- offset 0 of the file and address 0xC00000, with 512 bytes in the file and 516 in memory.
abbrev image : ℕ → ℕ
image i =
    if i == 0
    then 0x7F
    else if i == 1
    then b'E'
    else if i == 2
    then b'L'
    else if i == 3
    then b'F'
    else if i == 0x1A
    then 0xC0
    else if i == 0x1C
    then 0x34
    else if i == 0x3E
    then 0xC0
    else if i == 0x45
    then 2
    else if i == 0x48
    then 4
    else if i == 0x49
    then 2
    else 0

abbrev read_image : ℕ → ℕ → Memory → Status × Memory
read_image lba buf mem =
    if lba == 1
    then (success, λ x. if leb buf x && ltb x (buf + 512) then image (x - buf) else mem x)
    else (failure, mem)

abbrev card : BlockDevice Memory
card = record {
  init = λ m. (success, m);
  read_block = read_image;
  memory = λ m. m;
  poke = λ a v m. store m a v;
  read_kept = λ lba buf s x h. ground arith;
  read_failed = λ lba buf s e. ground arith;
  poke_memory = λ a v s. refl;
}

abbrev power_on : Memory
power_on = λ x. 7

abbrev header_read : Memory
header_read = (read_image 1 boot_base power_on).1

has_started : Option (Stop × Boot Memory) → Bool
has_started (some (started entry, t)) = entry == 0xC00000
has_started _ = false

-- The loader jumps to the entry.
image_starts : has_started (main card power_on) ≡ true
unfolding main after_init after_first check after_load enter load_loop zero_loop le32 die uart_puts
    store has_started
image_starts = refl

header_read-small : file_end header_read ≤ 0xFF000000
unfolding le32
header_read-small = omega arith

main-Stopped_example : Stopped card header_read (main card power_on)
main-Stopped_example = main-Stopped card power_on power_on header_read refl refl header_read-small
