-- ===== src/Stdfn/System.antt =====
-- bootbin/stdfn.c: the heap, the clock, the report of a fault, and the trap handler.
use criscv_hw.Prelude.{
  ℕ, zero, suc, ◌+◌, ◌*◌, ◌/◌, ◌%◌, ◌^◌, true, false, not, ◌||◌, Option, none, some, List, [], ◌∷◌,
  ◌++◌, ltb, ◌==◌, if◌then◌else◌, get_or, Memory,
}
use criscv_hw.Prelude.Int.{ℤ, pos, to_int, of_int}
use criscv_hw.Prelude.Text.{codes}
use criscv_hw.Stdfn.FatFs.{FatFs}
use criscv_hw.Stdfn.Files.{Os}
use criscv_hw.Stdfn.Calls.{Stat, write, read, lseek, fstat, close, open_file}

abbrev pub heap_limit : ℕ
heap_limit = 0x01F00000

-- ((uintptr_t)(_end + bss_size[0]) + 7) & ~7
unfoldable pub heap_start : ℕ → ℕ → ℕ
heap_start end bss_size = ((end + bss_size) % 2 ^ 32 + 7) % 2 ^ 32 / 8 * 8

-- `_brk`: the answer and the new `cur_brk`, which is 0 before the first call.
unfoldable pub brk : ℕ → ℕ → ℕ → ℕ → ℕ × ℕ
brk end bss_size addr cur_brk =
    let cur = if cur_brk == 0 then heap_start end bss_size else cur_brk in
    if addr == 0
    then (cur, cur)
    else if ltb heap_limit addr || ltb addr cur
    then (cur, cur)
    else (addr, addr)

-- A read of the cycle counter: mcycleh, mcycle, and mcycleh again.
pub record CycleRead : Type 0 where
  pub hi : ℕ
  pub lo : ℕ
  pub hi_again : ℕ

-- The reads are repeated until both high halves agree; `none` if they never do. The reads that are
-- still to come are kept.
unfoldable pub read_cycles : List CycleRead → Option (ℕ × List CycleRead)
read_cycles [] = none
read_cycles (r ∷ rs) = elim (r.hi == r.hi_again) [
  | true ↦ some (r.hi * 2 ^ 32 + r.lo, rs)
  | false ↦ read_cycles rs
]

-- The seconds and microseconds of a count of cycles at 50 MHz.
unfoldable pub time_of : ℕ → ℕ × ℕ
time_of cycles = let us = cycles / 50 in (us / 1000000, us % 1000000)

unfoldable pub gettimeofday : List CycleRead → Option ((ℕ × ℕ) × List CycleRead)
gettimeofday reads = elim (read_cycles reads) [
  | none ↦ none
  | some (cycles, rest) ↦ some (time_of cycles, rest)
]

-- The nibbles of `v` from the one at bit `i - 4` down, as lower-case digits.
unfoldable pub put_hex : ℕ → ℕ → List ℕ
put_hex zero v = []
put_hex (suc left) v =
    get_or (codes "0123456789abcdef") (v / 2 ^ (left * 4) % 16) 0 ∷ put_hex left v

abbrev pub cause_misaligned_load : ℕ
cause_misaligned_load = 4

abbrev pub cause_misaligned_store : ℕ
cause_misaligned_store = 6

abbrev pub cause_ecall_m : ℕ
cause_ecall_m = 11

-- What `trap_fault` sends before it stops for ever.
unfoldable pub trap_fault : ℕ → ℕ → List ℕ
trap_fault mcause mepc =
    (if mcause == cause_misaligned_load
      then b'*'
      else (if mcause == cause_misaligned_store then b'#' else b'!'))
    ∷ put_hex 8 mepc

-- The saved registers, in the order of the frame on the stack. `Entry` keeps that frame in the
-- memory: it stores it before `syscall_c`, which is handed its words, stores the result of the call
-- into it, and takes the registers from the memory again afterwards.
pub record TrapFrame : Type 0 where
  pub ra : ℕ
  pub t0 : ℕ
  pub t1 : ℕ
  pub t2 : ℕ
  pub a0 : ℕ
  pub a1 : ℕ
  pub a2 : ℕ
  pub a3 : ℕ
  pub a4 : ℕ
  pub a5 : ℕ
  pub a6 : ℕ
  pub a7 : ℕ
  pub t3 : ℕ
  pub t4 : ℕ
  pub t5 : ℕ
  pub t6 : ℕ

abbrev pub frame_words : TrapFrame → List ℕ
frame_words f =
    f.ra ∷ f.t0 ∷ f.t1 ∷ f.t2 ∷ f.a0 ∷ f.a1 ∷ f.a2 ∷ f.a3 ∷ f.a4 ∷ f.a5 ∷ f.a6 ∷ f.a7 ∷ f.t3 ∷ f.t4
    ∷ f.t5 ∷ f.t6 ∷ []

-- `for (...) { put_hex(r[i]); UART = ' '; }`
unfoldable pub dump : List ℕ → List ℕ
dump [] = []
dump (r ∷ rs) = put_hex 8 r ++ (b' ' ∷ dump rs)

-- The numbers of the calls, as <machine/syscall.h> has them.
pub data Call : Type 0 where
  sys_write sys_read sys_lseek sys_fstat sys_close sys_getgid sys_kill sys_open sys_exit sys_openat
        sys_gettimeofday sys_brk sys_unknown :
      Call

abbrev pub call_table : List (ℕ × Call)
call_table =
    (64, sys_write)
    ∷ (63, sys_read)
    ∷ (62, sys_lseek)
    ∷ (80, sys_fstat)
    ∷ (57, sys_close)
    ∷ (176, sys_getgid)
    ∷ (129, sys_kill)
    ∷ (1024, sys_open)
    ∷ (93, sys_exit)
    ∷ (56, sys_openat)
    ∷ (169, sys_gettimeofday)
    ∷ (214, sys_brk)
    ∷ []

unfoldable pub call_of : List (ℕ × Call) → ℕ → Call
call_of [] a7 = sys_unknown
call_of ((n, c) ∷ rest) a7 = if a7 == n then c else call_of rest a7

-- How the C library lays out the two structures that are filled in for the caller.
pub record Layout : Type 0 where
  pub store_stat : ℕ → Stat → Memory → Memory
  pub store_timeval : ℕ → ℕ × ℕ → Memory → Memory

-- The files, the heap, the process number, and the reads of the cycle counter to come.
pub record Machine (Fil Volume : Type 0) : Type 0 where
  pub os : Os Fil Volume
  pub cur_brk : ℕ
  pub pid : ℕ
  pub cycles : List CycleRead

-- How a trap ends: back in the program; in the shell (`sys_exit` does not return); stopped for ever
-- with some output; or waiting for ever.
pub data Trap (Fil Volume : Type 0) : Type 0 where
  resumed : TrapFrame → Machine Fil Volume → Trap Fil Volume
  in_shell : Machine Fil Volume → Trap Fil Volume
  halted : List ℕ → Trap Fil Volume
  waiting : Trap Fil Volume

module _ {Fil Volume : Type 0} (fs : FatFs Fil Volume) (layout : Layout) (end bss_size : ℕ) where
  -- The result goes into the saved a0.
  abbrev pub return : TrapFrame → ℤ → Machine Fil Volume → Trap Fil Volume
  return f ret m = resumed (record f { a0 = of_int ret }) m

  abbrev pub with_os : TrapFrame → Machine Fil Volume → ℤ × Os Fil Volume → Trap Fil Volume
  with_os f m (ret, os) = return f ret (record m { os = os })

  abbrev pub set_mem : Memory → Machine Fil Volume → Machine Fil Volume
  set_mem mem m = record m { os = record (m.os) { mem = mem } }

  -- The `switch` of `syscall_c`.
  unfoldable pub dispatch : Call → TrapFrame → Machine Fil Volume → Trap Fil Volume
  dispatch sys_write f m = with_os f m (write fs (to_int f.a0) f.a1 (to_int f.a2) m.os)
  dispatch sys_read f m = elim (read fs (to_int f.a0) f.a1 (to_int f.a2) m.os) [
    | none ↦ waiting
    | some r ↦ with_os f m r
  ]
  dispatch sys_lseek f m = with_os f m (lseek fs (to_int f.a0) f.a1 f.a2 m.os)
  dispatch sys_fstat f m =
      let (ret, stat) = fstat fs (to_int f.a0) m.os in
      return f ret (set_mem (layout.store_stat f.a1 stat m.os.mem) m)
  dispatch sys_close f m = with_os f m (close fs (to_int f.a0) m.os)
  dispatch sys_getgid f m = return f (to_int m.pid) m
  dispatch sys_kill f m = return f (pos 0) m
  dispatch sys_open f m = with_os f m (open_file fs f.a0 f.a1 m.os)
  dispatch sys_exit f m = in_shell m
  dispatch sys_openat f m = with_os f m (open_file fs f.a1 f.a2 m.os)
  dispatch sys_gettimeofday f m = elim (gettimeofday m.cycles) [
    | none ↦ waiting
    | some (time, rest) ↦
        return f (pos 0)
          (record (set_mem (layout.store_timeval f.a0 time m.os.mem) m) { cycles = rest })
  ]
  dispatch sys_brk f m =
      let (ret, cur) = brk end bss_size f.a0 m.cur_brk in
      return f (to_int ret) (record m { cur_brk = cur })
  dispatch sys_unknown f m = return f (pos 0) m

  -- A trap that is no ECALL prints the registers, and stops.
  unfoldable pub syscall_c : ℕ → ℕ → TrapFrame → Machine Fil Volume → Trap Fil Volume
  syscall_c mcause mepc f m =
      if not (mcause == cause_ecall_m)
      then halted (dump (frame_words f) ++ trap_fault mcause mepc)
      else dispatch (call_of call_table f.a7) f m
