-- ===== src/Ymodem/Receive.antt =====
-- bootbin/ymodem.c: the rounds of `ym_receive` and its loop.
use criscv_hw.Prelude.{
  ℕ, zero, suc, ◌+◌, ◌*◌, ◌%◌, ◌^◌, ◌≡◌, ◌⊎◌, inl, inr, refl, Bool, true, false, ◌&&◌, ◌||◌, not,
  Option, none, some, [], ltb, ◌==◌, if◌then◌else◌, length, Memory, store,
}
use criscv_hw.Prelude.Int.{ℤ, pos, negsuc}
use criscv_hw.Ymodem.Session.{
  Args, Session, Line, Round, continue, return, Code, ym_err_cancel, ym_err_timeout, ym_err_toobig,
  ym_err_proto, ym_timeout_loops, ym_start_tries, ym_max_errors, soh, stx, eot, ack, nak, can,
  ym_type_prog, ym_type_data, received, remaining, putc, purge, give_up, prompt,
}
use criscv_hw.Ymodem.Block.{block_len, block_dest, block_blk, take_block, is_good}
use criscv_hw.Ymodem.Header.{on_header}

-- `if(++errors > YM_MAX_ERRORS) return ym_cancel(YM_ERR_PROTO);`, then `go_on`
unfoldable pub count_error : (Session → Session) → Session → Round
count_error go_on s =
    if ltb ym_max_errors (s.errors + 1)
    then give_up ym_err_proto (record s { errors = s.errors + 1 })
    else continue (go_on (record s { errors = s.errors + 1 }))

-- Nothing came in time.
unfoldable pub on_timeout : Session → Round
on_timeout s =
    if not s.have_hdr
    then (if ltb ym_start_tries (s.tries + 1)
        then give_up ym_err_timeout (record s { tries = s.tries + 1 })
        else continue (putc b'C' (record s { tries = s.tries + 1 })))
    else count_error (λ t. putc (prompt t) t) s

-- The prompt that asks again after a bad block, once the line is quiet.
unfoldable pub ask_again : Session → Session
ask_again s = putc (prompt s) (purge s)

-- The end of the file, which counts when it is sent twice.
unfoldable pub on_eot : Session → Round
on_eot s =
    let t = putc nak (record s { line = remaining ym_timeout_loops s.line }) in
    elim (received ym_timeout_loops s.line) [
      | none ↦ continue t
      | some c ↦
          if c == eot
          then continue (
              putc b'C' (record (putc ack t) {
                done = true;
                want_hdr = true;
                length = if not (s.size == 0) && ltb s.size s.pos then s.size else s.pos;
              }))
          else continue t
    ]

unfoldable pub on_can : Session → Round
on_can s =
    let t = record s { line = remaining ym_timeout_loops s.line } in
    elim (received ym_timeout_loops s.line) [
      | none ↦ continue t
      | some c ↦ if c == can then return ym_err_cancel t else continue t
    ]

unfoldable pub on_noise : Session → Round
on_noise s = if s.have_hdr then count_error ask_again s else continue s

-- p[0] == 0x7F && p[1] == 'E' && p[2] == 'L' && p[3] == 'F'
unfoldable pub is_elf : Memory → ℕ → Bool
is_elf mem p = mem p == 0x7F && mem (p + 1) == b'E' && mem (p + 2) == b'L' && mem (p + 3) == b'F'

-- (force_type >= 0) ? force_type : (is_elf ? YM_TYPE_PROG : YM_TYPE_DATA)
unfoldable pub file_type : ℤ → Bool → ℕ
file_type (pos n) elf = n
file_type (negsuc n) elf = if elf then ym_type_prog else ym_type_data

-- for(i = 0; i < len; i++) data_base[i] = prog_base[i];
unfoldable pub copy_bytes : ℕ → ℕ → ℕ → ℕ → Memory → Memory
copy_bytes zero i to from mem = mem
copy_bytes (suc left) i to from mem =
    copy_bytes left (i + 1) to from (store mem (to + i) (mem (from + i)))

-- The first data block decides where the file goes.
unfoldable pub place : Args → ℕ → ℕ → Session → Session
place a p len s =
    let type = file_type a.force_type (is_elf s.mem p) in
    if type == ym_type_data
    then record s {
      type = type;
      mem = copy_bytes len 0 a.data_base a.prog_base s.mem;
      dest = a.data_base;
      max = a.data_max;
    }
    else record s { type = type }

-- `pos += len; expect++; ym_putc(ACK);`
unfoldable pub accept : ℕ → Session → Round
accept len s =
    continue (putc ack (record s { pos = (s.pos + len) % 2 ^ 32; expect = (s.expect + 1) % 2 ^ 8 }))

-- A data block with the expected number.
unfoldable pub on_data : Args → ℕ → Option ℕ → Session → Round
on_data a len none s = give_up ym_err_toobig s
on_data a len (some p) s =
    if s.pos == 0
    then (let t = place a p len s in
        if ltb t.max t.size then give_up ym_err_toobig t else accept len t)
    else accept len s

-- A block whose number and checksum are good.
unfoldable pub on_block : Args → ℕ → ℕ → Option ℕ → Session → Round
on_block a blk len p s =
    if blk == 0 && s.want_hdr
    then on_header len p s
    else if blk == 0 && s.pos == 0
    then continue (putc b'C' (putc ack s))
    else if not s.have_hdr || s.done
    then continue s
    else if blk == (s.expect + 255) % 2 ^ 8
    then continue (putc ack s)
    else if not (blk == s.expect)
    then give_up ym_err_proto s
    else on_data a len p s

-- `blk`, read only where it is known to have come.
abbrev pub block_number : Option ℕ → ℕ
block_number none = 0
block_number (some blk) = blk

-- The session once the bytes of a block are taken.
abbrev pub after_block : ℕ → Session → Session
after_block c s = record s { line = (take_block c s).line; mem = (take_block c s).mem }

-- A block that begins with `c`.
unfoldable pub receive_block : Args → ℕ → Session → Round
receive_block a c s =
    if is_good (take_block c s)
    then on_block a (block_number (block_blk s)) (block_len c) (block_dest s (block_len c))
        (record (after_block c s) { errors = 0 })
    else count_error ask_again (after_block c s)

-- What follows the byte `c`.
unfoldable pub on_byte : Args → ℕ → Session → Round
on_byte a c s =
    if c == eot && s.have_hdr && not s.done
    then on_eot s
    else if c == can
    then on_can s
    else if not (c == soh) && not (c == stx)
    then on_noise s
    else receive_block a c s

-- The session once the byte that begins a round is taken, or waited for in vain.
abbrev pub after_byte : Session → Session
after_byte s = record s { line = remaining ym_timeout_loops s.line }

-- One round of the loop.
unfoldable pub step : Args → Session → Round
step a s = elim (received ym_timeout_loops s.line) [
  | none ↦ on_timeout (after_byte s)
  | some c ↦ on_byte a c (after_byte s)
]

-- The loop, on fuel; `none` means that the fuel ran out.
unfoldable pub run : ℕ → Args → Session → Option (Code × Session)
run zero a s = none
run (suc fuel) a s = elim (step a s) [ continue t ↦ run fuel a t | return code t ↦ some (code, t) ]

-- The variables at the head of the loop, the first 'C' sent.
unfoldable pub start : Args → Line → Memory → Session
start a line mem = putc b'C' (record {
  line = line;
  sent = [];
  mem = mem;
  dest = a.prog_base;
  max = a.prog_max;
  pos = 0;
  size = 0;
  expect = 1;
  want_hdr = true;
  have_hdr = false;
  done = false;
  tries = 0;
  errors = 0;
  name = [];
  type = ym_type_prog;
  length = 0;
})

-- A bound on the rounds: each takes a poll off the line or counts a try or an error.
unfoldable pub rounds : Line → ℕ
rounds line = 12 * length line + 100

unfoldable pub ym_receive : Args → Line → Memory → Option (Code × Session)
unfolding rounds
ym_receive a line mem = run (rounds line) a (start a line mem)

pub step-timeout :
    (a : Args) (s : Session)
    → received ym_timeout_loops s.line ≡ none
    → step a s ≡ on_timeout (after_byte s)
unfolding step
step-timeout a s e = rw (step, e)

pub step-byte :
    (a : Args) (c : ℕ) (s : Session)
    → received ym_timeout_loops s.line ≡ some c
    → step a s ≡ on_byte a c (after_byte s)
unfolding step
step-byte a c s e = rw (step, e)

pub Round-cases :
    (r : Round)
    → ((t : Session) × (r ≡ continue t)) ⊎ ((code : Code) × (t : Session) × (r ≡ return code t))
Round-cases (continue t) = inl (t, refl)
Round-cases (return code t) = inr (code, t, refl)
