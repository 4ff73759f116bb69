-- ===== src/Stdfn/Resumes.antt =====
-- What the trap entry of bootbin/stdfn.c does to the registers of the interrupted program.
use criscv_hw.Prelude.{
  ℕ, ◌+◌, ◌-◌, ◌*◌, ◌%◌, ◌^◌, ◌≤◌, ◌<◌, ◌≡◌, ◌≢◌, ap, ◌∙◌, arith, All, get_or, Memory, Outside,
}
use criscv_hw.Prelude.Words.{
  word_at, store_dword, word_at-store_dword, store_dword-kept, word_at-same,
}
use criscv_hw.Stdfn.FatFs.{FatFs}
use criscv_hw.Stdfn.System.{TrapFrame, frame_words, Machine, Layout, resumed, set_mem, syscall_c}
use criscv_hw.Stdfn.Entry.{Cpu, mret, store_words, frame_at, save, restore, entry, store_words-word}

-- A register file of 32-bit words.
abbrev pub Words : TrapFrame → Type 0
Words f = All (λ w. w < 2 ^ 32) (frame_words f)

-- The memory holds the frame at `sp` but for the saved a0.
abbrev HoldsFrame : TrapFrame → ℕ → Memory → Type 0
HoldsFrame f sp mem =
    (i : ℕ) → i < 16 → i ≢ 4 → word_at mem (sp + 4 * i) ≡ get_or (frame_words f) i 0

frame_at-HoldsFrame :
    (f : TrapFrame) (sp : ℕ) (mem : Memory)
    → HoldsFrame f sp mem
    → frame_at mem sp ≡ record f { a0 = word_at mem (sp + 16) }
frame_at-HoldsFrame f sp mem h = rw (
  h 0 (omega arith) (omega arith),
  h 1 (omega arith) (omega arith),
  h 2 (omega arith) (omega arith),
  h 3 (omega arith) (omega arith),
  h 5 (omega arith) (omega arith),
  h 6 (omega arith) (omega arith),
  h 7 (omega arith) (omega arith),
  h 8 (omega arith) (omega arith),
  h 9 (omega arith) (omega arith),
  h 10 (omega arith) (omega arith),
  h 11 (omega arith) (omega arith),
  h 12 (omega arith) (omega arith),
  h 13 (omega arith) (omega arith),
  h 14 (omega arith) (omega arith),
  h 15 (omega arith) (omega arith),
)

saved-HoldsFrame :
    (f : TrapFrame) (sp : ℕ) (mem : Memory)
    → Words f
    → HoldsFrame f sp (store_words (frame_words f) sp mem)
saved-HoldsFrame f sp mem b i l n = store_words-word (frame_words f) sp i mem b l

-- A word that is stored over the saved a0.
store_dword-HoldsFrame :
    (f : TrapFrame) (sp v : ℕ) (mem : Memory)
    → HoldsFrame f sp mem
    → HoldsFrame f sp (store_dword (sp + 16) v mem)
store_dword-HoldsFrame f sp v mem h i l n =
    word_at-same (store_dword (sp + 16) v mem) mem (sp + 4 * i)
      (λ x lo hi. store_dword-kept (sp + 16) v mem x (omega (arith, n)))
    ∙ h i l n

module _ {Fil Volume : Type 0} (fs : FatFs Fil Volume) (layout : Layout) (end bss_size : ℕ) where
  saved_frame :
      (f : TrapFrame) (sp : ℕ) (m : Machine Fil Volume)
      → Words f
      → frame_at (save fs layout end bss_size f sp m).os.mem sp ≡ f
  unfolding save
  saved_frame f sp m b =
      frame_at-HoldsFrame f sp _ (saved-HoldsFrame f sp m.os.mem b)
      ∙ ap (λ a. record f { a0 = a })
          (store_words-word (frame_words f) sp 4 m.os.mem b (omega arith))

  -- Where the call comes back and has left the 64 bytes below the program's stack pointer as the
  -- entry had stored them, the program goes on with its own stack pointer and with all its registers
  -- as they were but a0, which holds the result. The call saw these registers, and no byte but
  -- the 64 differs from what the call left.
  pub entry-mret :
      (mcause mepc : ℕ) (cpu : Cpu) (m : Machine Fil Volume) (f : TrapFrame)
      (m' : Machine Fil Volume)
      → Words cpu.regs
      → 64 ≤ cpu.sp
      → cpu.sp < 2 ^ 32
      → let below = cpu.sp - 64 in
        let saved = save fs layout end bss_size cpu.regs below m in
        syscall_c fs layout end bss_size mcause mepc cpu.regs saved ≡ resumed f m'
        → ((x : ℕ) → below ≤ x → x < cpu.sp → m'.os.mem x ≡ saved.os.mem x)
        → (mem : Memory) × (entry fs layout end bss_size mcause mepc cpu m
            ≡ mret
                (record cpu { regs = record (cpu.regs) { a0 = f.a0 % 2 ^ 32 } })
                (set_mem fs layout end bss_size mem m'))
          × ((x : ℕ) → Outside below 64 x → mem x ≡ m'.os.mem x)
  unfolding entry restore save
  entry-mret mcause mepc cpu m f m' b low high call kept =
      let below = cpu.sp - 64 in
      let saved = save fs layout end bss_size cpu.regs below m in
      let mem = store_dword (below + 16) f.a0 m'.os.mem in
      let down : (cpu.sp + 2 ^ 32 - 64) % 2 ^ 32 ≡ below = omega arith in
      let up : (below + 64) % 2 ^ 32 ≡ cpu.sp = omega arith in
      let left : HoldsFrame cpu.regs below m'.os.mem = λ i l n.
        word_at-same m'.os.mem saved.os.mem (below + 4 * i)
          (λ x lo hi. kept x (omega arith) (omega arith))
        ∙ saved-HoldsFrame cpu.regs below m.os.mem b i l n in
      let regs : frame_at mem below ≡ record (cpu.regs) { a0 = f.a0 % 2 ^ 32 } =
        frame_at-HoldsFrame cpu.regs below mem
          (store_dword-HoldsFrame cpu.regs below f.a0 m'.os.mem left)
        ∙ ap (λ a. record (cpu.regs) { a0 = a })
            (word_at-store_dword (below + 16) f.a0 m'.os.mem) in
      (
        mem,
        rw (entry, down, saved_frame cpu.regs below m b, call, regs, up),
        λ x o. store_dword-kept (below + 16) f.a0 m'.os.mem x (omega arith),
      )
