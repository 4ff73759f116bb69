-- ===== src/Ymodem/Block.antt =====
-- bootbin/ymodem.c: the receipt of one block in `ym_receive`, from its number to its checksum.
use criscv_hw.Prelude.{
  ℕ, zero, suc, ◌+◌, ◌%◌, ◌^◌, Bool, true, false, ◌&&◌, Option, none, some, ltb, leb, ◌==◌,
  if◌then◌else◌, Memory, store, bit_xor,
}
use criscv_hw.Ymodem.Session.{Session, Line, stx, ym_timeout_loops, received, remaining}
use criscv_hw.Ymodem.Crc.{crc_byte}

-- `len`, by the byte that begins the block.
abbrev pub block_len : ℕ → ℕ
block_len c = if c == stx then 1024 else 128

-- `p`: where the block's data goes, `none`, for the null pointer, if it would not fit. No region
-- begins at address 0, so `dest + pos` is no null pointer.
unfoldable pub block_dest : Session → ℕ → Option ℕ
block_dest s len = if leb ((s.pos + len) % 2 ^ 32) s.max then some (s.dest + s.pos) else none

-- `(blk ^ nblk) == 0xFF`, neither of them timed out
unfoldable pub number_ok : Option ℕ → Option ℕ → Bool
number_ok (some blk) (some nblk) = bit_xor blk nblk == 0xFF
number_ok none nblk = false
number_ok (some blk) none = false

-- `if(p && i < len) p[i] = c;`
unfoldable pub put_byte : Option ℕ → ℕ → ℕ → ℕ → Memory → Memory
put_byte none len i c mem = mem
put_byte (some p) len i c mem = if ltb i len then store mem (p + i) c else mem

-- What the loop over the bytes leaves: `ok`, the checksum, the line and the memory.
pub record Body : Type 0 where
  pub ok : Bool
  pub crc : ℕ
  pub line : Line
  pub mem : Memory

-- The loop, with `left` rounds to go at index `i`.
unfoldable pub body_loop : ℕ → ℕ → ℕ → Option ℕ → ℕ → Line → Memory → Body
body_loop zero i len p crc line mem = record { ok = true; crc = crc; line = line; mem = mem }
body_loop (suc left) i len p crc line mem = elim (received ym_timeout_loops line) [
  | none ↦ record { ok = false; crc = crc; line = remaining ym_timeout_loops line; mem = mem }
  | some c ↦
      body_loop left (i + 1) len p (crc_byte crc c) (remaining ym_timeout_loops line)
        (put_byte p len i c mem)
]

-- The loop does not run at all if the block's number is bad.
unfoldable pub body : Bool → ℕ → Option ℕ → Line → Memory → Body
body true len p line mem = body_loop (len + 2) 0 len p 0 line mem
body false len p line mem = record { ok = false; crc = 0; line = line; mem = mem }

-- `blk` and `nblk`, and the line behind them.
abbrev pub block_blk : Session → Option ℕ
block_blk s = received ym_timeout_loops s.line

abbrev pub block_nblk : Session → Option ℕ
block_nblk s = received ym_timeout_loops (remaining ym_timeout_loops s.line)

abbrev pub after_numbers : Session → Line
after_numbers s = remaining ym_timeout_loops (remaining ym_timeout_loops s.line)

-- A block that begins with `c`, up to its checksum.
unfoldable pub take_block : ℕ → Session → Body
take_block c s =
    let len = block_len c in
    body (number_ok (block_blk s) (block_nblk s)) len (block_dest s len) (after_numbers s) s.mem

-- `!ok || (crc & 0xFFFF)` does not hold.
unfoldable pub is_good : Body → Bool
is_good b = b.ok && (b.crc % 2 ^ 16 == 0)
