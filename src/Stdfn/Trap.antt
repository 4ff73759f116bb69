-- ===== src/Stdfn/Trap.antt =====
-- `syscall_c` and the registers of the interrupted program.
use criscv_hw.Prelude.{ℕ, ◌≡◌, refl, inl, inr, false, ◌==◌, ==_iff, Bool-cases, Option-cases}
use criscv_hw.Prelude.Int.{to_int}
use criscv_hw.Stdfn.FatFs.{FatFs}
use criscv_hw.Stdfn.Calls.{read}
use criscv_hw.Stdfn.System.{
  TrapFrame, Machine, Layout, Trap, resumed, in_shell, halted, waiting, Call, sys_write, sys_read,
  sys_lseek, sys_fstat, sys_close, sys_getgid, sys_kill, sys_open, sys_exit, sys_openat,
  sys_gettimeofday, sys_brk, sys_unknown, call_of, call_table, gettimeofday, dispatch, syscall_c,
  cause_ecall_m,
}

module _ {Fil Volume : Type 0} (fs : FatFs Fil Volume) (layout : Layout) (end bss_size : ℕ) where
  -- What a trap does to the registers, by how it ends.
  abbrev pub Kept : ℕ → TrapFrame → Trap Fil Volume → Type 0
  Kept mcause f (resumed f' m) = (mcause ≡ cause_ecall_m) × (f' ≡ record f { a0 = f'.a0 })
  Kept mcause f (in_shell m) = mcause ≡ cause_ecall_m
  Kept mcause f (halted out) = (mcause == cause_ecall_m) ≡ false
  Kept mcause f waiting = mcause ≡ cause_ecall_m

  dispatch-Kept :
      (mcause : ℕ) (c : Call) (f : TrapFrame) (m : Machine Fil Volume)
      → mcause ≡ cause_ecall_m
      → Kept mcause f (dispatch fs layout end bss_size c f m)
  unfolding dispatch
  dispatch-Kept mcause sys_write f m e = (e, refl)
  dispatch-Kept mcause sys_read f m e =
      elim (Option-cases (read fs (to_int f.a0) f.a1 (to_int f.a2) m.os)) [
        | inl n ↦ rw (dispatch, n) e
        | inr (r, s) ↦ rw (dispatch, s) (e, refl)
      ]
  dispatch-Kept mcause sys_lseek f m e = (e, refl)
  dispatch-Kept mcause sys_fstat f m e = (e, refl)
  dispatch-Kept mcause sys_close f m e = (e, refl)
  dispatch-Kept mcause sys_getgid f m e = (e, refl)
  dispatch-Kept mcause sys_kill f m e = (e, refl)
  dispatch-Kept mcause sys_open f m e = (e, refl)
  dispatch-Kept mcause sys_exit f m e = e
  dispatch-Kept mcause sys_openat f m e = (e, refl)
  dispatch-Kept mcause sys_gettimeofday f m e = elim (Option-cases (gettimeofday m.cycles)) [
    | inl n ↦ rw (dispatch, n) e
    | inr (r, s) ↦ rw (dispatch, s) (e, refl)
  ]
  dispatch-Kept mcause sys_brk f m e = (e, refl)
  dispatch-Kept mcause sys_unknown f m e = (e, refl)

  -- A trap goes back to the program only for an ECALL, and then with every register but a0 as it
  -- was, whichever call it is; it goes to the shell or waits only for an ECALL, and halts only for
  -- another cause.
  pub syscall_c-Kept :
      (mcause mepc : ℕ) (f : TrapFrame) (m : Machine Fil Volume)
      → Kept mcause f (syscall_c fs layout end bss_size mcause mepc f m)
  unfolding syscall_c
  syscall_c-Kept mcause mepc f m = elim (Bool-cases (mcause == cause_ecall_m)) [
    | inl e ↦
        rw (syscall_c, e)
          (dispatch-Kept mcause (call_of call_table f.a7) f m ((==_iff mcause cause_ecall_m).0 e))
    | inr e ↦ rw (syscall_c, e) e
  ]
