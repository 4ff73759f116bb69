-- ===== src/OldCalls/Reads.antt =====
-- What the calls of bootloader/stdfn.c get wrong and right.
use criscv_hw.Prelude.{
  ℕ, ◌+◌, ◌-◌, ◌*◌, ◌/◌, ◌%◌, ◌^◌, ◌≤◌, ◌<◌, ◌≡◌, ◌⊎◌, refl, sym, ap, ◌∙◌, bit_or, true, false,
  none, List, [], ◌∷◌, arith, ltb, ◌==◌, Memory, store,
}
use criscv_hw.Prelude.Int.{pos}
use criscv_hw.Prelude.Or.{or-zero_left, or-zero, or_parts, or_mask}
use criscv_hw.OldCalls.Defs.{
  Loader, is_file, read_uart, read, file_fd, widen, to_longlong, time_of_halves, div_by, mod_by,
  neg_of, gettimeofday,
}

read_uart-none :
    (count buf : ℕ) (input : List ℕ) (mem : Memory)
    → 0 < count
    → read_uart count buf input mem ≡ none
unfolding read_uart
read_uart-none count buf [] mem h = ground arith
read_uart-none count buf (c ∷ input) mem h =
    let e : ltb 0 count ≡ true = ground arith in
    rw (read_uart, e) (read_uart-none count buf input (store mem buf c) h)

-- A read of one byte or more on a descriptor other than 5, so from the UART, never comes back,
-- whatever is typed: the loop does not count the bytes that it takes.
pub read-none :
    (fd buf count : ℕ) (s : Loader)
    → (fd < 5) ⊎ (5 < fd)
    → 0 < count
    → read (pos fd) buf (pos count) s ≡ none
unfolding read is_file
read-none fd buf count s h lo =
    let e : (fd == file_fd) ≡ false = ground arith in
    rw (read, e, read_uart-none count buf s.uart_in s.mem lo)

div_by_million-neg_of : (m : ℕ) → div_by 1000000 (neg_of m) ≡ neg_of (m / 1000000)
unfolding div_by neg_of
div_by_million-neg_of m = ground arith

mod_by_million-neg_of : (m : ℕ) → mod_by 1000000 (neg_of m) ≡ neg_of (m % 1000000)
unfolding mod_by neg_of
mod_by_million-neg_of m = ground arith

or_low : (h l : ℕ) → l < 2 ^ 32 → bit_or (h * 2 ^ 32) l ≡ h * 2 ^ 32 + l
or_low h l p =
    let parts : bit_or (h * 2 ^ 32 + 0) (0 * 2 ^ 32 + l) ≡ bit_or h 0 * 2 ^ 32 + bit_or 0 l =
      or_parts 32 h 0 0 l (omega arith) p in
    let left : h * 2 ^ 32 + 0 ≡ h * 2 ^ 32 = omega arith in
    let right : 0 * 2 ^ 32 + l ≡ l = omega arith in
    ap (λ t. bit_or t l) (sym left)
    ∙ (ap (λ t. bit_or (h * 2 ^ 32 + 0) t) (sym right) ∙ (parts ∙ rw (or-zero h, or-zero_left l)))

or_ones :
    (h l : ℕ)
    → h < 2 ^ 32
    → l < 2 ^ 32
    → bit_or (h * 2 ^ 32) (l + (2 ^ 64 - 2 ^ 32)) ≡ l + (2 ^ 64 - 2 ^ 32)
or_ones h l hh p =
    let parts : bit_or (h * 2 ^ 32 + 0) ((2 ^ 32 - 1) * 2 ^ 32 + l)
        ≡ bit_or h (2 ^ 32 - 1) * 2 ^ 32 + bit_or 0 l =
      or_parts 32 h 0 (2 ^ 32 - 1) l (omega arith) p in
    let left : h * 2 ^ 32 ≡ h * 2 ^ 32 + 0 = omega arith in
    let right : l + (2 ^ 64 - 2 ^ 32) ≡ (2 ^ 32 - 1) * 2 ^ 32 + l = omega arith in
    rw (left, right, parts, or_mask 32 h hh, or-zero_left l)

widen_high : (h : ℕ) → h < 2 ^ 32 → widen h * 2 ^ 32 % 2 ^ 64 ≡ h * 2 ^ 32
unfolding widen
widen_high h p = ground arith

positive : (h l : ℕ) → h < 2 ^ 31 → l < 2 ^ 31 → time_of_halves h l ≡ pos (h * 2 ^ 32 + l)
unfolding time_of_halves to_longlong widen
positive h l p q =
    let e : ltb l (2 ^ 31) ≡ true = ground arith in
    let f : ltb (h * 2 ^ 32 + l) (2 ^ 63) ≡ true = ground arith in
    rw (widen_high h (omega arith), e, or_low h l (omega arith), f)

negative :
    (h l : ℕ)
    → h < 2 ^ 32
    → l < 2 ^ 32
    → 2 ^ 31 ≤ l
    → div_by 50 (time_of_halves h l) ≡ neg_of ((2 ^ 32 - l) / 50)
unfolding time_of_halves to_longlong widen div_by
negative h l hh p q =
    let e : ltb l (2 ^ 31) ≡ false = ground arith in
    let g : ltb (l + (2 ^ 64 - 2 ^ 32)) (2 ^ 63) ≡ false = ground arith in
    let f : 2 ^ 64 - (l + (2 ^ 64 - 2 ^ 32)) - 1 + 1 ≡ 2 ^ 32 - l = omega arith in
    rw (widen_high h hh, e, or_ones h l hh p, g, f)

-- With the high bits of both halves clear, the time is the counter's, at 50 cycles to the
-- microsecond. With that of the low half set, the `|` of its sign loses the high half, whatever it
-- is, and the time is minus that of what the low half lacks to 2 ^ 32.
pub gettimeofday-neg_of :
    (mcycleh mcycle : ℕ)
    → mcycleh < 2 ^ 32
    → mcycle < 2 ^ 32
    → (mcycleh < 2 ^ 31
        → mcycle < 2 ^ 31
        → gettimeofday mcycleh mcycle ≡ (
          pos ((mcycleh * 2 ^ 32 + mcycle) / 50 / 1000000),
          pos ((mcycleh * 2 ^ 32 + mcycle) / 50 % 1000000),
        ))
      × (2 ^ 31 ≤ mcycle
          → gettimeofday mcycleh mcycle ≡ (
            neg_of ((2 ^ 32 - mcycle) / 50 / 1000000),
            neg_of ((2 ^ 32 - mcycle) / 50 % 1000000),
          ))
unfolding gettimeofday div_by mod_by
gettimeofday-neg_of mcycleh mcycle hh hl = (
  λ g h. rw (gettimeofday, positive mcycleh mcycle g h) refl,
  λ h.
      rw (gettimeofday, negative mcycleh mcycle hh hl h)
        (rw (
          div_by_million-neg_of ((2 ^ 32 - mcycle) / 50),
          mod_by_million-neg_of ((2 ^ 32 - mcycle) / 50),
        )),
)
