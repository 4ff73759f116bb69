-- ===== src/Stdfn/Tests.antt =====
-- Calls on a small file system, and the clock.
use criscv_hw.Prelude.{
  ℕ, ◌+◌, ◌-◌, ◌*◌, ◌/◌, ◌%◌, ◌^◌, ◌<◌, ◌≡◌, refl, true, false, some, [], ◌∷◌, arith, ◌==◌,
  if◌then◌else◌, All, Memory, Outside,
}
use criscv_hw.Prelude.Int.{pos}
use criscv_hw.Stdfn.Entry.{Cpu, mret, save, entry}
use criscv_hw.Stdfn.Resumes.{entry-mret}
use criscv_hw.Stdfn.FatFs.{FatFs, fr_ok}
use criscv_hw.Stdfn.Files.{Os}
use criscv_hw.Stdfn.Calls.{open_file, close}
use criscv_hw.Stdfn.Slots.{used}
use criscv_hw.Stdfn.Descriptors.{Opened, Refuses, open_file-Opened, close-frees}
use criscv_hw.Stdfn.System.{
  TrapFrame, Machine, Layout, resumed, set_mem, call_of, dispatch, syscall_c, brk, CycleRead,
  read_cycles, time_of, gettimeofday,
}
use criscv_hw.Stdfn.Clock.{IsSample, ValueIn, read_cycles-ValueIn, gettimeofday_lem}

-- A file is its position; each is 10 bytes long, and every call does its work.
abbrev ten_bytes : FatFs ℕ Unit
ten_bytes = record {
  readonly = true;
  f_open = λ name mode mem f v. record { result = fr_ok; fil = 0; volume = v };
  f_close = λ f v. record { result = fr_ok; fil = f; volume = v };
  f_read = λ buf n mem f v. record { result = fr_ok; count = 0; fil = f; volume = v; mem = mem };
  f_write = λ buf n mem f v. record { result = fr_ok; count = 0; fil = f; volume = v; mem = mem };
  f_lseek = λ p f v. record { result = fr_ok; fil = p; volume = v };
  f_truncate = λ f v. record { result = fr_ok; fil = f; volume = v };
  f_tell = λ f. f;
  f_size = λ f. 10;
}

-- The slots below `n` are in use.
abbrev os : ℕ → Os ℕ Unit
os n = record {
  slots = λ i. record {
    fil = 4;
    used = elim (Prim.Native.Nat.compare i n) [ Prim.Native.Nat.Ordering.lt ↦ true | _ ↦ false ];
  };
  volume = tt;
  mem = λ x. 0;
  uart_in = [];
  uart_out = [];
  led = 0;
}

open_file-Opened_example : Opened ten_bytes (os 2) (open_file ten_bytes 512 1 (os 2))
open_file-Opened_example = open_file-Opened ten_bytes 512 1 (os 2)

close-frees_example :
    let t = (close ten_bytes (pos 4) (os 2)).1 in
    ((j : ℕ) → used j t ≡ (if j == 4 - 3 then false else used j (os 2))) × Refuses ten_bytes 4 t
close-frees_example = close-frees ten_bytes 4 (os 2) (omega arith, omega arith, refl)

-- The low half overflows between the first two reads, so the second three are taken.
abbrev torn : CycleRead
torn = record { hi = 0; lo = 5; hi_again = 1 }

abbrev whole : CycleRead
whole = record { hi = 1; lo = 105; hi_again = 1 }

samples : All IsSample (torn ∷ whole ∷ [])
samples = (
  record {
    first = 2 ^ 32 - 1;
    second = 2 ^ 32 + 5;
    third = 2 ^ 32 + 50;
    in_order = (omega arith, omega arith);
    hi_eq = refl;
    lo_eq = refl;
    hi_again_eq = refl;
  },
  (
    record {
      first = 2 ^ 32 + 100;
      second = 2 ^ 32 + 105;
      third = 2 ^ 32 + 110;
      in_order = (omega arith, omega arith);
      hi_eq = refl;
      lo_eq = refl;
      hi_again_eq = refl;
    },
    tt,
  ),
)

torn-read : read_cycles (torn ∷ whole ∷ []) ≡ some (2 ^ 32 + 105, [])
unfolding read_cycles
torn-read = refl

read_cycles-ValueIn_example : ValueIn (torn ∷ whole ∷ []) samples (2 ^ 32 + 105)
read_cycles-ValueIn_example = read_cycles-ValueIn (torn ∷ whole ∷ []) samples torn-read

torn-time : gettimeofday (torn ∷ whole ∷ []) ≡ some ((85, 899348), [])
unfolding gettimeofday time_of read_cycles
torn-time = refl

gettimeofday_lem_example :
    (899348 < 1000000)
    × ((cycles : ℕ) × (ValueIn (torn ∷ whole ∷ []) samples cycles
          × (85 * 1000000 + 899348 ≡ cycles / 50)))
gettimeofday_lem_example = gettimeofday_lem (torn ∷ whole ∷ []) samples torn-time

-- A `_brk` of 0xC30000 by a program whose registers hold their own numbers.
abbrev frame : TrapFrame
frame = record {
  ra = 1;
  t0 = 5;
  t1 = 6;
  t2 = 7;
  a0 = 0xC30000;
  a1 = 11;
  a2 = 12;
  a3 = 13;
  a4 = 14;
  a5 = 15;
  a6 = 16;
  a7 = 214;
  t3 = 28;
  t4 = 29;
  t5 = 30;
  t6 = 31;
}

abbrev machine : Machine ℕ Unit
machine = record { os = os 1; cur_brk = 0xC20000; pid = 2; cycles = [] }

abbrev no_layout : Layout
no_layout = record { store_stat = λ a s m. m; store_timeval = λ a t m. m }

abbrev cpu : Cpu
cpu = record { regs = frame; sp = 0x20000 }

abbrev pushed : Machine ℕ Unit
pushed = save ten_bytes no_layout 0xC10000 0 frame 0x1FFC0 machine

brk_call :
    syscall_c ten_bytes no_layout 0xC10000 0 11 0x10000 frame pushed
    ≡ resumed (record frame { a0 = 0xC30000 }) (record pushed { cur_brk = 0xC30000 })
unfolding syscall_c call_of dispatch brk save
brk_call = refl

entry-mret_example :
    (mem : Memory) × (entry ten_bytes no_layout 0xC10000 0 11 0x10000 cpu machine
      ≡ mret
          (record cpu { regs = record frame { a0 = 0xC30000 % 2 ^ 32 } })
          (set_mem ten_bytes no_layout 0xC10000 0 mem (record pushed { cur_brk = 0xC30000 })))
    × ((x : ℕ) → Outside 0x1FFC0 64 x → mem x ≡ pushed.os.mem x)
entry-mret_example =
    entry-mret ten_bytes no_layout 0xC10000 0 11 0x10000 cpu machine
      (record frame { a0 = 0xC30000 }) (record pushed { cur_brk = 0xC30000 }) (ground arith)
      (omega arith) (omega arith) brk_call (λ x lo hi. refl)
