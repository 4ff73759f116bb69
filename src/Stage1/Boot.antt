-- ===== src/Stage1/Boot.antt =====
-- `main` of bootloader/boot.c as a whole.
use criscv_hw.Prelude.{
  ℕ, ◌+◌, ◌-◌, ◌%◌, ◌^◌, ◌≤◌, ◌≡◌, ◌⊎◌, refl, inl, inr, true, false, Option, none, some, arith,
  ◌==◌, ==_iff, Bool-cases,
}
use criscv_hw.Sddisk.Block.{Status, success, failure}
use criscv_hw.BlockDevice.{BlockDevice}
use criscv_hw.Stage1.Defs.{
  boot_base, boot_lba, elf_magic, le32, program_header, file_offset, virtual_address, filesz,
  file_end, is_linked, Stop, died, hung, started, Boot, uart_puts, die, load_loop, enter,
  after_load, check, after_first, after_init, main,
}
use criscv_hw.Stage1.Zero.{Zeroed, zero_loop-Zeroed, zero_loop-returns}
use criscv_hw.Stage1.Load.{IsLoaded, Loaded, load_loop-Loaded}

module _ {S : Type 0} (dev : BlockDevice S) where
  -- What holds at the jump to `entry`, `first` being the state once the first sector is read.
  pub record IsBooted (first : S) (entry : ℕ) (t : S) : Type 0 where
    pub is_elf : le32 (dev.memory first) boot_base ≡ elf_magic
    pub linked :
        (virtual_address (dev.memory first) + 2 ^ 32 - file_offset (dev.memory first)) % 2 ^ 32
        ≡ boot_base
    pub loaded : S
    pub image : IsLoaded dev 1 (file_end (dev.memory first)) first loaded
    pub cleared :
        Zeroed dev
          ((virtual_address (dev.memory first)
              + filesz (dev.memory loaded) (program_header (dev.memory first)))
            % 2 ^ 32)
          (virtual_address (dev.memory first))
          (program_header (dev.memory first))
          loaded
          t
    pub entry_eq : entry ≡ le32 (dev.memory t) (boot_base + 0x18)

  -- What a stop says of the run that led to it.
  abbrev pub Stopped : S → Option (Stop × Boot S) → Type 0
  Stopped first (some (started entry, t)) = IsBooted first entry t.device
  Stopped first (some (died code, t)) =
      (code ≡ b'r')
      ⊎ (((code ≡ b'e') × ((le32 (dev.memory first) boot_base == elf_magic) ≡ false))
          ⊎ ((code ≡ b'l') × (is_linked (dev.memory first) ≡ false)))
  Stopped first (some (hung, t)) = ⊥
  Stopped first none = ⊥

  enter-Stopped :
      (first u : S) (s : Boot S)
      → le32 (dev.memory first) boot_base ≡ elf_magic
      → is_linked (dev.memory first) ≡ true
      → IsLoaded dev 1 (file_end (dev.memory first)) first u
      → Stopped first (
          after_load dev
            (virtual_address (dev.memory first))
            (program_header (dev.memory first))
            (some (success, u))
            s)
  unfolding after_load enter uart_puts
  enter-Stopped first u s magic linked image =
      let vaddr : ℕ = virtual_address (dev.memory first) in
      let ph : ℕ = program_header (dev.memory first) in
      let p : ℕ = (vaddr + filesz (dev.memory u) ph) % 2 ^ 32 in
      let (v, e) = zero_loop-returns dev (2 ^ 32) p vaddr ph u (omega arith) (omega arith) in
      rw (after_load, e)
        (record {
          is_elf = magic;
          linked = (==_iff _ boot_base).0 linked;
          loaded = u;
          image = image;
          cleared = zero_loop-Zeroed dev (2 ^ 32) p vaddr ph u e;
          entry_eq = refl;
        })

  after_load-Stopped :
      (first : S) (s : Boot S) (r : Option (Status × S))
      → le32 (dev.memory first) boot_base ≡ elf_magic
      → is_linked (dev.memory first) ≡ true
      → Loaded dev 1 (file_end (dev.memory first)) first r
      → Stopped first (
          after_load dev
            (virtual_address (dev.memory first))
            (program_header (dev.memory first))
            r
            s)
  after_load-Stopped first s (some (success, u)) magic linked image =
      enter-Stopped first u s magic linked image
  after_load-Stopped first s (some (failure, u)) magic linked image =
      unfold after_load die in inl refl
  after_load-Stopped first s none magic linked image = absurd image

  check-Stopped :
      (s : Boot S) → file_end (dev.memory s.device) ≤ 0xFF000000 → Stopped s.device (check dev s)
  unfolding check die
  check-Stopped s small =
      let mem = dev.memory s.device in
      elim (Bool-cases (le32 mem boot_base == elf_magic)) [
        | inr e ↦ rw (check, e) (inr (inl (refl, e)))
        | inl e ↦ elim (Bool-cases (is_linked mem)) [
          | inr n ↦ rw (check, e, n) (inr (inr (refl, n)))
          | inl l ↦
              rw (check, e, l)
                (after_load-Stopped s.device s (load_loop dev (2 ^ 23) 1 (file_end mem) s.device)
                  ((==_iff (le32 mem boot_base) elf_magic).0 e) l
                  (load_loop-Loaded dev (2 ^ 23) 1 (file_end mem) s.device small (omega arith)
                    (omega arith)))
        ]
      ]

  after_first-success :
      (s : S) (first : S) (b : Boot S)
      → dev.read_block boot_lba boot_base s ≡ (success, first)
      → after_first dev (dev.read_block boot_lba boot_base s) b
        ≡ check dev (record b { device = first })
  unfolding after_first
  after_first-success s first b e = rw e refl

  -- Once the card has started and its first sector is read into `first`, and if the file that its
  -- header describes ends below 4080 MB, the loader ends. If it jumps, the sector began with the
  -- magic number of ELF and the file is linked for the load address; exactly the sectors that the
  -- file takes were read, in order and one behind the other; then every byte of .bss is 0 and none
  -- below it has changed; and the jump goes to the entry that the header gives. If it does not jump,
  -- it stops with 'e' for a wrong magic number, 'l' for a wrong link address, or 'r'.
  pub main-Stopped :
      (s started_card first : S)
      → dev.init s ≡ (success, started_card)
      → dev.read_block boot_lba boot_base started_card ≡ (success, first)
      → file_end (dev.memory first) ≤ 0xFF000000
      → Stopped first (main dev s)
  unfolding main after_init
  main-Stopped s started_card first e f small =
      rw (e, after_first-success started_card first _ f) (check-Stopped _ small)
