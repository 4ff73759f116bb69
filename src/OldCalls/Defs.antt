-- ===== src/OldCalls/Defs.antt =====
-- bootloader/stdfn.c: all its calls and `syscall`. Descriptor 5 is the file in memory, any other is
-- the UART.
use criscv_hw.Prelude.{
  ℕ, zero, suc, ◌+◌, ◌-◌, ◌*◌, ◌/◌, ◌%◌, ◌^◌, Bool, true, false, Option, none, some, List, [], ◌∷◌,
  ltb, ◌==◌, if◌then◌else◌, Memory, store, bit_or,
}
use criscv_hw.Prelude.Int.{ℤ, pos, negsuc, to_int, of_int}
use criscv_hw.Stdfn.Files.{rounds_of, send_bytes}
use criscv_hw.Stdfn.System.{
  TrapFrame, Call, sys_write, sys_read, sys_lseek, sys_fstat, sys_close, sys_getgid, sys_kill,
  sys_open, sys_exit, sys_openat, sys_gettimeofday, sys_brk, sys_unknown, call_of, call_table,
}

abbrev pub file_fd : ℕ
file_fd = 5

abbrev pub file_base : ℕ
file_base = 0xC00000

-- `file_dp`, `fdp_offset`, the memory, the bytes to come over the UART, those sent, newest first, the
-- LED and the process number.
pub record Loader : Type 0 where
  pub file_dp : ℕ
  pub fdp_offset : ℕ
  pub mem : Memory
  pub uart_in : List ℕ
  pub uart_out : List ℕ
  pub led : ℕ
  pub pid : ℕ

unfoldable pub is_file : ℤ → Bool
is_file (pos fd) = fd == file_fd
is_file (negsuc n) = false

unfoldable pub write : ℤ → ℕ → ℤ → Loader → ℤ × Loader
write fd buf count s =
    let s' = record s { led = 7 } in
    (
      count,
      if is_file fd
          then s'
          else record s' { uart_out = send_bytes (rounds_of count) buf s'.mem s'.uart_out },
    )

-- The loop over the UART, whose `pos` stays 0; none if it waits for ever.
unfoldable pub read_uart : ℕ → ℕ → List ℕ → Memory → Option (List ℕ × Memory)
read_uart count buf [] mem = if ltb 0 count then none else some ([], mem)
read_uart count buf (c ∷ input) mem = elim (ltb 0 count) [
  | true ↦ read_uart count buf input (store mem buf c)
  | false ↦ some (c ∷ input, mem)
]

-- The loop over the file, with `left` bytes to go.
unfoldable pub read_file : ℕ → ℕ → Loader → Loader
read_file zero buf s = s
read_file (suc left) buf s = read_file left (buf + 1) (record s {
  mem = store s.mem buf (s.mem ((s.file_dp + s.fdp_offset) % 2 ^ 32));
  fdp_offset = (s.fdp_offset + 1) % 2 ^ 32;
})

unfoldable pub read : ℤ → ℕ → ℤ → Loader → Option (ℤ × Loader)
read fd buf count s =
    if is_file fd
    then some (count, read_file (rounds_of count) buf s)
    else (elim (read_uart (rounds_of count) buf s.uart_in s.mem) [
      | none ↦ none
      | some (input, mem) ↦ some (count, record s { uart_in = input; mem = mem })
    ])

unfoldable pub open_file : Loader → ℤ × Loader
open_file s = (pos file_fd, record s { file_dp = file_base; fdp_offset = 0 })

-- The offset behind the `switch` of `_lseek`.
unfoldable pub new_offset : ℕ → ℕ → ℕ → ℕ
new_offset offset whence old =
    if whence == 0 then offset else if whence == 1 then (old + offset) % 2 ^ 32 else old

unfoldable pub lseek : ℤ → ℕ → ℕ → Loader → ℤ × Loader
lseek fd offset whence s =
    let to = new_offset offset whence s.fdp_offset in
    if is_file fd then (to_int to, record s { fdp_offset = to }) else (pos 0, s)

-- `_brk` moves nothing: it answers what it is asked for, and for 0 the end of the program.
unfoldable pub brk : ℕ → ℕ → ℕ → ℕ
brk end bss_size incr = if incr == 0 then (end + bss_size) % 2 ^ 32 else incr

-- The 64 bits of a `long long` that a 32-bit `int` is widened to: its sign fills the high half.
unfoldable pub widen : ℕ → ℕ
widen v = if ltb v (2 ^ 31) then v else v + (2 ^ 64 - 2 ^ 32)

-- The number that the 64 bits of a `long long` stand for.
unfoldable pub to_longlong : ℕ → ℤ
to_longlong v = if ltb v (2 ^ 63) then pos v else negsuc (2 ^ 64 - v - 1)

-- `time`, of the two `int`s: the high one widened and shifted by 32, with the low one, widened too,
-- set into it by `|`.
unfoldable pub time_of_halves : ℕ → ℕ → ℤ
time_of_halves mcycleh mcycle =
    to_longlong (bit_or (widen mcycleh * 2 ^ 32 % 2 ^ 64) (widen mcycle))

-- Division of C, which cuts off towards 0, by a positive number, and its rest.
unfoldable pub neg_of : ℕ → ℤ
neg_of n = if n == 0 then pos 0 else negsuc (n - 1)

unfoldable pub div_by : ℕ → ℤ → ℤ
div_by n (pos a) = pos (a / n)
div_by n (negsuc a) = neg_of ((a + 1) / n)

unfoldable pub mod_by : ℕ → ℤ → ℤ
mod_by n (pos a) = pos (a % n)
mod_by n (negsuc a) = neg_of ((a + 1) % n)

-- The seconds and microseconds of the two halves of the counter.
unfoldable pub gettimeofday : ℕ → ℕ → ℤ × ℤ
gettimeofday mcycleh mcycle =
    let total = div_by 50 (time_of_halves mcycleh mcycle) in
    (div_by 1000000 total, mod_by 1000000 total)

-- A call comes back with a result, or waits for ever.
module _ (store_timeval : ℕ → ℤ × ℤ → Memory → Memory) (end bss_size mcycleh mcycle : ℕ) where
  -- The `switch` of `syscall`; the result goes into the saved a0.
  unfoldable pub dispatch : Call → TrapFrame → Loader → Option (ℤ × Loader)
  dispatch sys_write f s = some (write (to_int f.a0) f.a1 (to_int f.a2) s)
  dispatch sys_read f s = read (to_int f.a0) f.a1 (to_int f.a2) s
  dispatch sys_lseek f s = some (lseek (to_int f.a0) f.a1 f.a2 s)
  dispatch sys_fstat f s = some (pos 0, s)
  dispatch sys_close f s = some (pos 0, s)
  dispatch sys_getgid f s = some (to_int s.pid, s)
  dispatch sys_kill f s = some (pos 0, s)
  dispatch sys_open f s = some (open_file s)
  dispatch sys_gettimeofday f s =
      some (pos 0, record s { mem = store_timeval f.a0 (gettimeofday mcycleh mcycle) s.mem })
  dispatch sys_brk f s = some (to_int (brk end bss_size f.a0), s)
  dispatch sys_exit f s = some (pos 0, s)
  dispatch sys_openat f s = some (pos 0, s)
  dispatch sys_unknown f s = some (pos 0, s)

  unfoldable pub syscall : TrapFrame → Loader → Option (TrapFrame × Loader)
  syscall f s = elim (dispatch (call_of call_table f.a7) f s) [
    | none ↦ none
    | some (ret, s') ↦ some (record f { a0 = of_int ret }, s')
  ]
