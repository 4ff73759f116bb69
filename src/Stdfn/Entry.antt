-- ===== src/Stdfn/Entry.antt =====
-- bootbin/stdfn.c: `syscall`, the entry of the trap handler in assembly, around `syscall_c`. The
-- registers that the entry does not save are those that compiled code keeps.
use criscv_hw.Prelude.{
  ℕ, zero, suc, ◌+◌, ◌-◌, ◌*◌, ◌%◌, ◌^◌, ◌<◌, ◌≡◌, refl, ◌∙◌, inl, List, [], ◌∷◌, length, arith,
  All, get_or, Memory, Outside,
}
use criscv_hw.Prelude.Words.{
  word_at, store_dword, word_at-store_dword, store_dword-kept, word_at-same,
}
use criscv_hw.Stdfn.FatFs.{FatFs}
use criscv_hw.Stdfn.System.{
  TrapFrame, frame_words, Machine, Layout, Trap, resumed, in_shell, halted, waiting, set_mem,
  syscall_c,
}

-- The registers that the entry saves, and the stack pointer.
pub record Cpu : Type 0 where
  pub regs : TrapFrame
  pub sp : ℕ

-- How the entry ends: by `mret`, or as the trap does that does not come back.
pub data Entry (Fil Volume : Type 0) : Type 0 where
  mret : Cpu → Machine Fil Volume → Entry Fil Volume
  gone : Trap Fil Volume → Entry Fil Volume

-- `sw ra, 0(sp)`, `sw t0, 4(sp)`, ... for the words of a frame.
unfoldable pub store_words : List ℕ → ℕ → Memory → Memory
store_words [] p mem = mem
store_words (w ∷ ws) p mem = store_words ws (p + 4) (store_dword p w mem)

-- `lw ra, 0(sp)`, ... `lw t6, 60(sp)`. The frame that `syscall_c` gets is the same sixteen words.
abbrev pub frame_at : Memory → ℕ → TrapFrame
frame_at mem sp = record {
  ra = word_at mem (sp + 0);
  t0 = word_at mem (sp + 4);
  t1 = word_at mem (sp + 8);
  t2 = word_at mem (sp + 12);
  a0 = word_at mem (sp + 16);
  a1 = word_at mem (sp + 20);
  a2 = word_at mem (sp + 24);
  a3 = word_at mem (sp + 28);
  a4 = word_at mem (sp + 32);
  a5 = word_at mem (sp + 36);
  a6 = word_at mem (sp + 40);
  a7 = word_at mem (sp + 44);
  t3 = word_at mem (sp + 48);
  t4 = word_at mem (sp + 52);
  t5 = word_at mem (sp + 56);
  t6 = word_at mem (sp + 60);
}

module _ {Fil Volume : Type 0} (fs : FatFs Fil Volume) (layout : Layout) (end bss_size : ℕ) where
  -- The saves, with the stack pointer at `sp`.
  unfoldable pub save : TrapFrame → ℕ → Machine Fil Volume → Machine Fil Volume
  save regs sp m = set_mem fs layout end bss_size (store_words (frame_words regs) sp m.os.mem) m

  -- `f->a0 = ret`, the loads, and the return.
  unfoldable pub restore : ℕ → Trap Fil Volume → Entry Fil Volume
  restore sp (resumed f m) =
      let mem = store_dword (sp + 16) f.a0 m.os.mem in
      mret (record { regs = frame_at mem sp; sp = (sp + 64) % 2 ^ 32 })
        (set_mem fs layout end bss_size mem m)
  restore sp (in_shell m) = gone (in_shell m)
  restore sp (halted out) = gone (halted out)
  restore sp waiting = gone waiting

  -- `addi sp, sp, -64`, the saves, the call and what follows it.
  unfoldable pub entry : ℕ → ℕ → Cpu → Machine Fil Volume → Entry Fil Volume
  entry mcause mepc cpu m =
      let sp = (cpu.sp + 2 ^ 32 - 64) % 2 ^ 32 in
      let saved = save cpu.regs sp m in
      restore sp (syscall_c fs layout end bss_size mcause mepc (frame_at saved.os.mem sp) saved)

pub store_words-kept :
    (ws : List ℕ) (p : ℕ) (mem : Memory) (x : ℕ)
    → Outside p (4 * length ws) x
    → store_words ws p mem x ≡ mem x
unfolding store_words
store_words-kept [] p mem x o = refl
store_words-kept (w ∷ ws) p mem x o =
    store_words-kept ws (p + 4) (store_dword p w mem) x (omega arith)
    ∙ store_dword-kept p w mem x (omega arith)

-- A word that was saved.
pub store_words-word :
    (ws : List ℕ) (p i : ℕ) (mem : Memory)
    → All (λ w. w < 2 ^ 32) ws
    → i < length ws
    → word_at (store_words ws p mem) (p + 4 * i) ≡ get_or ws i 0
unfolding store_words
store_words-word [] p i mem b l = absurd (omega arith)
store_words-word (w ∷ ws) p zero mem (h, b) l =
    let here : p + 4 * 0 ≡ p = omega arith in
    rw here (
      word_at-same (store_words ws (p + 4) (store_dword p w mem)) (store_dword p w mem) p
        (λ x lo hi. store_words-kept ws (p + 4) (store_dword p w mem) x (inl hi))
      ∙ (word_at-store_dword p w mem ∙ omega arith))
store_words-word (w ∷ ws) p (suc i) mem (h, b) l =
    let there : p + 4 * suc i ≡ p + 4 + 4 * i = omega arith in
    rw there (store_words-word ws (p + 4) i (store_dword p w mem) b (omega arith))
