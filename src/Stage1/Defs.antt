-- ===== src/Stage1/Defs.antt =====
-- bootloader/boot.c over any device that meets the contract of sddisk.h. The state is the device,
-- with the memory, and the text sent to the UART, newest first.
use criscv_hw.Prelude.{
  ℕ, zero, suc, ◌+◌, ◌-◌, ◌*◌, ◌%◌, ◌^◌, Bool, true, false, not, Option, none, some, List, [], ◌∷◌,
  ◌++◌, reverse, ltb, ◌==◌, if◌then◌else◌, Memory,
}
use criscv_hw.Prelude.Text.{codes}
use criscv_hw.Sddisk.Block.{Status, success, failure}
use criscv_hw.BlockDevice.{BlockDevice}

abbrev pub boot_lba : ℕ
boot_lba = 1

abbrev pub boot_base : ℕ
boot_base = 0xC00000

abbrev pub elf_magic : ℕ
elf_magic = 0x464C457F

-- p[0] | (p[1] << 8) | (p[2] << 16) | (p[3] << 24), where each p[i] is a byte.
unfoldable pub le32 : Memory → ℕ → ℕ
le32 mem p =
    mem p % 2 ^ 8
    + mem (p + 1) % 2 ^ 8 * 2 ^ 8
    + mem (p + 2) % 2 ^ 8 * 2 ^ 16
    + mem (p + 3) % 2 ^ 8 * 2 ^ 24

-- The program header, and its p_offset, p_vaddr, p_filesz and p_memsz.
abbrev pub program_header : Memory → ℕ
program_header mem = (boot_base + le32 mem (boot_base + 0x1C)) % 2 ^ 32

abbrev pub file_offset : Memory → ℕ
file_offset mem = le32 mem (program_header mem + 4)

abbrev pub virtual_address : Memory → ℕ
virtual_address mem = le32 mem (program_header mem + 8)

abbrev pub filesz : Memory → ℕ → ℕ
filesz mem ph = le32 mem (ph + 16)

abbrev pub memsz : Memory → ℕ → ℕ
memsz mem ph = le32 mem (ph + 20)

-- `end`: the file bytes to load.
abbrev pub file_end : Memory → ℕ
file_end mem = (file_offset mem + filesz mem (program_header mem)) % 2 ^ 32

-- `vaddr - off == (uint32_t)b`
abbrev pub is_linked : Memory → Bool
is_linked mem = (virtual_address mem + 2 ^ 32 - file_offset mem) % 2 ^ 32 == boot_base

-- How the program ends: `die` with a code; the empty loop behind a card that does not start; or the
-- jump to an address.
pub data Stop : Type 0 where
  died : ℕ → Stop
  hung : Stop
  started : ℕ → Stop

-- The device and the text sent to the UART.
pub record Boot (S : Type 0) : Type 0 where
  pub device : S
  pub out : List ℕ

-- `uart_puts`, or `putch` of each byte.
unfoldable pub uart_puts : {S : Type 0} → List ℕ → Boot S → Boot S
uart_puts text s = record s { out = reverse text ++ s.out }

unfoldable pub die : {S : Type 0} → ℕ → Boot S → Stop × Boot S
die code s = (died code, uart_puts (b'E' ∷ code ∷ b'\n' ∷ []) s)

module _ {S : Type 0} (dev : BlockDevice S) where
  -- The loop over the sectors behind the first, on fuel; `none` means that the fuel ran out.
  unfoldable pub load_loop : ℕ → ℕ → ℕ → S → Option (Status × S)
  load_loop zero i end s = none
  load_loop (suc fuel) i end s =
      let (r, t) =
        dev.read_block ((boot_lba + i) % 2 ^ 32) ((boot_base + i * 512 % 2 ^ 32) % 2 ^ 32) s in
      elim (ltb (i * 512 % 2 ^ 32) end) [
        | false ↦ some (success, s)
        | true ↦ elim r [
          | success ↦ load_loop fuel ((i + 1) % 2 ^ 32) end t
          | failure ↦ some (failure, t)
        ]
      ]

  -- `(uint8_t *)vaddr + le32(ph + 20)`, read anew in each round.
  abbrev pub bss_end : ℕ → ℕ → S → ℕ
  bss_end vaddr ph s = (vaddr + memsz (dev.memory s) ph) % 2 ^ 32

  -- The loop that clears .bss, on fuel.
  unfoldable pub zero_loop : ℕ → ℕ → ℕ → ℕ → S → Option S
  zero_loop zero p vaddr ph s = none
  zero_loop (suc fuel) p vaddr ph s = elim (ltb p (bss_end vaddr ph s)) [
    | false ↦ some s
    | true ↦ zero_loop fuel (p + 1) vaddr ph (dev.poke p 0 s)
  ]

  -- The jump, with .bss cleared. The second stage does not return.
  unfoldable pub enter : Option S → Boot S → Option (Stop × Boot S)
  enter none s = none
  enter (some t) s = some (
    started (le32 (dev.memory t) (boot_base + 0x18)),
    uart_puts (codes "J\nStarting main bootloader\n") (record s { device = t }),
  )

  -- The sectors behind the first are read, or one of them was not.
  unfoldable pub after_load : ℕ → ℕ → Option (Status × S) → Boot S → Option (Stop × Boot S)
  after_load vaddr ph none s = none
  after_load vaddr ph (some (failure, t)) s = some (die b'r' (record s { device = t }))
  after_load vaddr ph (some (success, t)) s =
      enter (zero_loop (2 ^ 32) ((vaddr + filesz (dev.memory t) ph) % 2 ^ 32) vaddr ph t)
        (record s { device = t })

  -- The first sector is read.
  unfoldable pub check : Boot S → Option (Stop × Boot S)
  check s =
      let mem = dev.memory s.device in
      if not (le32 mem boot_base == elf_magic)
      then some (die b'e' s)
      else if not (is_linked mem)
      then some (die b'l' s)
      else after_load (virtual_address mem) (program_header mem)
          (load_loop (2 ^ 23) 1 (file_end mem) s.device) s

  unfoldable pub after_first : Status × S → Boot S → Option (Stop × Boot S)
  after_first (failure, t) s = some (die b'r' (record s { device = t }))
  after_first (success, t) s = check (record s { device = t })

  unfoldable pub after_init : Status × S → Boot S → Option (Stop × Boot S)
  after_init (failure, t) s =
      some (hung, uart_puts (codes "SD init failed\n") (record s { device = t }))
  after_init (success, t) s =
      after_first (dev.read_block boot_lba boot_base t)
        (uart_puts (codes "SD init Passed\n") (record s { device = t }))

  -- `main`; `none` means that one of the loops did not end.
  unfoldable pub main : S → Option (Stop × Boot S)
  main s =
      after_init (dev.init s)
        (uart_puts (codes "Starting Boot\n") (record { device = s; out = [] }))
