-- ===== src/Ymodem/Session.antt =====
-- bootbin/ymodem.c and ymodem.h: the constants, the variables of `ym_receive`, and the polled UART.
use criscv_hw.Prelude.{
  ℕ, zero, suc, ◌-◌, ◌%◌, ◌^◌, Bool, Option, none, some, List, [], ◌∷◌, leb, if◌then◌else◌, length,
  Memory,
}
use criscv_hw.Prelude.Int.{ℤ, pos, negsuc}

abbrev pub ym_timeout_loops : ℕ
ym_timeout_loops = 2_000_000

-- YM_TIMEOUT_LOOPS >> 3
abbrev pub purge_loops : ℕ
purge_loops = 250_000

abbrev pub ym_start_tries : ℕ
ym_start_tries = 60

abbrev pub ym_max_errors : ℕ
ym_max_errors = 10

abbrev pub soh : ℕ
soh = 0x01

abbrev pub stx : ℕ
stx = 0x02

abbrev pub eot : ℕ
eot = 0x04

abbrev pub ack : ℕ
ack = 0x06

abbrev pub nak : ℕ
nak = 0x15

abbrev pub can : ℕ
can = 0x18

-- The results of `ym_receive`: 0 and -1 to -4.
pub data Code : Type 0 where
  ym_ok ym_err_cancel ym_err_timeout ym_err_toobig ym_err_proto : Code

abbrev pub code_value : Code → ℤ
code_value ym_ok = pos 0
code_value ym_err_cancel = negsuc 0
code_value ym_err_timeout = negsuc 1
code_value ym_err_toobig = negsuc 2
code_value ym_err_proto = negsuc 3

abbrev pub ym_type_prog : ℕ
ym_type_prog = 0

abbrev pub ym_type_data : ℕ
ym_type_data = 1

-- The polls of the receiver's status to come: `none` finds no byte, `some b` finds `b`, which the
-- read that follows takes. Behind the last of them the line is silent.
abbrev pub Line : Type 0
Line = List (Option ℕ)

pub record Args : Type 0 where
  pub prog_base : ℕ
  pub prog_max : ℕ
  pub data_base : ℕ
  pub data_max : ℕ
  pub force_type : ℤ

-- The local variables of `ym_receive`, the fields of `*out`, and what lies outside: the line, the
-- bytes sent (newest first) and the memory.
pub record Session : Type 0 where
  pub line : Line
  pub sent : List ℕ
  pub mem : Memory
  pub dest : ℕ
  pub max : ℕ
  pub pos : ℕ
  pub size : ℕ
  pub expect : ℕ
  pub want_hdr : Bool
  pub have_hdr : Bool
  pub done : Bool
  pub tries : ℕ
  pub errors : ℕ
  pub name : List ℕ
  pub type : ℕ
  pub length : ℕ

-- What one round of the `for (;;)` loop does: `continue`, or `return` with a code.
pub data Round : Type 0 where
  continue : Session → Round
  return : Code → Session → Round

-- `--t <= 0` ends the wait when `t` was at most 1.
unfoldable pub getc : ℕ → Line → Option ℕ × Line
getc t [] = (none, [])
getc t (none ∷ polls) = if leb t 1 then (none, polls) else getc (t - 1) polls
getc t (some b ∷ polls) = (some (b % 2 ^ 8), polls)

-- The byte that `ym_getc` returns, and the line after it.
abbrev pub received : ℕ → Line → Option ℕ
received t line = (getc t line).0

abbrev pub remaining : ℕ → Line → Line
remaining t line = (getc t line).1

unfoldable pub putc : ℕ → Session → Session
putc c s = record s { sent = c ∷ s.sent }

-- The loop of `ym_purge`, on fuel.
unfoldable pub purge_loop : ℕ → Line → Line
purge_loop zero line = line
purge_loop (suc fuel) line = elim (received purge_loops line) [
  | none ↦ remaining purge_loops line
  | some b ↦ purge_loop fuel (remaining purge_loops line)
]

-- Every round but the last takes a byte off the line.
unfoldable pub purge : Session → Session
purge s = record s { line = purge_loop (suc (length s.line)) s.line }

unfoldable pub cancel : Session → Session
cancel s = putc can (putc can (putc can s))

-- `return ym_cancel(err)`
abbrev pub give_up : Code → Session → Round
give_up err s = return err (cancel s)

-- `ym_putc(want_hdr ? 'C' : NAK)`
abbrev pub prompt : Session → ℕ
prompt s = if s.want_hdr then b'C' else nak
