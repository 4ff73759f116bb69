-- ===== src/Ymodem/Register.antt =====
-- The register of CRC-16/XMODEM: 16 bits that are fed the message bit by bit, the highest bit of a byte
-- first, and that divide by x^16 + x^12 + x^5 + 1. The loop of ymodem.c takes a step of it.
use criscv_hw.Prelude.{
  ℕ, zero, suc, ◌+◌, ◌*◌, ◌/◌, ◌%◌, ◌^◌, ◌<◌, ◌≡◌, refl, ap, ◌∙◌, List, [], ◌∷◌, ◌==◌,
  if◌then◌else◌, bit_and, bit_xor, arith,
}
use criscv_hw.Prelude.Bits.{xor_parts, xor-lt, and_bit_parts}
use criscv_hw.Prelude.Xor.{low_digit, xor_right_comm}
use criscv_hw.Ymodem.Crc.{crc_bit, crc_bits}

-- One message bit: the register moves up; if the bit that falls out differs from the message bit,
-- the generator is taken off.
unfoldable pub crc16_step : ℕ → ℕ → ℕ
crc16_step r b =
    if (r / 2 ^ 15 + b) % 2 == 0 then 2 * r % 2 ^ 16 else bit_xor (2 * r % 2 ^ 16) 0x1021

unfoldable pub crc16_bits : ℕ → List ℕ → ℕ
crc16_bits r [] = r
crc16_bits r (b ∷ bs) = crc16_bits (crc16_step r b) bs

abbrev pub byte_bits : ℕ → List ℕ
byte_bits c =
    c / 128 % 2
    ∷ c / 64 % 2
    ∷ c / 32 % 2
    ∷ c / 16 % 2
    ∷ c / 8 % 2
    ∷ c / 4 % 2
    ∷ c / 2 % 2
    ∷ c % 2
    ∷ []

unfoldable pub crc16 : ℕ → List ℕ → ℕ
crc16 r [] = r
crc16 r (c ∷ cs) = crc16 (crc16_bits r (byte_bits c)) cs

pub crc16_step-lt : (r b : ℕ) → crc16_step r b < 2 ^ 16
unfolding crc16_step
crc16_step-lt r b = ground (arith, xor-lt 16 (2 * r % 2 ^ 16) 0x1021)

-- The low 16 bits of `a ^ b` for `b` below 2 ^ 16.
pub xor-low : (a b : ℕ) → b < 2 ^ 16 → bit_xor a b % 2 ^ 16 ≡ bit_xor (a % 2 ^ 16) b
xor-low a b h =
    let e : a / 2 ^ 16 * 2 ^ 16 + a % 2 ^ 16 ≡ a = omega arith in
    let z : 0 * 2 ^ 16 + b ≡ b = omega arith in
    let p : bit_xor a b ≡ bit_xor (a / 2 ^ 16) 0 * 2 ^ 16 + bit_xor (a % 2 ^ 16) b =
      rw (e, z) at (xor_parts 16 (a / 2 ^ 16) (a % 2 ^ 16) 0 b (omega arith) h) in
    omega (arith, p, xor-lt 16 (a % 2 ^ 16) b (omega arith) h)

-- The code's test reads bit 15, whatever stands above it.
pub top_bit : (crc : ℕ) → bit_and crc 0x8000 ≡ crc % 2 ^ 16 / 2 ^ 15 * 2 ^ 15
top_bit crc =
    let e : crc / 2 ^ 15 * 2 ^ 15 + crc % 2 ^ 15 ≡ crc = omega arith in
    let p : bit_and crc 0x8000 ≡ crc / 2 ^ 15 % 2 * 2 ^ 15 =
      rw e at (and_bit_parts 15 (crc / 2 ^ 15) (crc % 2 ^ 15) (omega arith)) in
    omega (arith, p)

pub crc_bit-low : (crc : ℕ) → crc_bit crc % 2 ^ 16 ≡ crc16_step (crc % 2 ^ 16) 0
unfolding crc_bit crc16_step
crc_bit-low crc =
    let low : crc * 2 % 2 ^ 32 % 2 ^ 16 ≡ 2 * (crc % 2 ^ 16) % 2 ^ 16 = omega arith in
    ground
      (arith, top_bit crc, xor-low (crc * 2 % 2 ^ 32) 0x1021, ap (λ (t : ℕ). bit_xor t 0x1021) low)

-- Steps on zero bits.
unfoldable pub idle : ℕ → ℕ → ℕ
idle zero r = r
idle (suc n) r = idle n (crc16_step r 0)

pub crc_bits-low : (n crc : ℕ) → crc_bits n crc % 2 ^ 16 ≡ idle n (crc % 2 ^ 16)
unfolding crc_bits idle
crc_bits-low zero crc = refl
crc_bits-low (suc n) crc = crc_bits-low n (crc_bit crc) ∙ ap (idle n) (crc_bit-low crc)

pub xor-cut :
    (r y : ℕ)
    → bit_xor r y ≡ bit_xor (r / 2 ^ 15) (y / 2 ^ 15) * 2 ^ 15 + bit_xor (r % 2 ^ 15) (y % 2 ^ 15)
xor-cut r y =
    let e : r / 2 ^ 15 * 2 ^ 15 + r % 2 ^ 15 ≡ r = omega arith in
    let d : y / 2 ^ 15 * 2 ^ 15 + y % 2 ^ 15 ≡ y = omega arith in
    rw (e, d) at
      (xor_parts 15 (r / 2 ^ 15) (r % 2 ^ 15) (y / 2 ^ 15) (y % 2 ^ 15) (omega arith) (omega arith))

pub xor-double : (r y : ℕ) → 2 * bit_xor r y % 2 ^ 16 ≡ bit_xor (2 * r % 2 ^ 16) (2 * y % 2 ^ 16)
xor-double r y =
    let e : r % 2 ^ 15 * 2 ^ 1 + 0 ≡ 2 * r % 2 ^ 16 = omega arith in
    let d : y % 2 ^ 15 * 2 ^ 1 + 0 ≡ 2 * y % 2 ^ 16 = omega arith in
    let p : bit_xor (2 * r % 2 ^ 16) (2 * y % 2 ^ 16)
        ≡ bit_xor (r % 2 ^ 15) (y % 2 ^ 15) * 2 ^ 1 + 0 =
      rw (e, d) at (xor_parts 1 (r % 2 ^ 15) 0 (y % 2 ^ 15) 0 (omega arith) (omega arith)) in
    omega (arith, xor-cut r y, p, xor-lt 15 (r % 2 ^ 15) (y % 2 ^ 15) (omega arith) (omega arith))

pub xor-top : (r y : ℕ) → bit_xor r y / 2 ^ 15 % 2 ≡ (r / 2 ^ 15 + y / 2 ^ 15) % 2
xor-top r y = omega (
  arith,
  xor-cut r y,
  xor-lt 15 (r % 2 ^ 15) (y % 2 ^ 15) (omega arith) (omega arith),
  low_digit (r / 2 ^ 15) (y / 2 ^ 15),
)

-- Feeding the top bit of `y` is a step on the register with `y` laid over it.
pub feed :
    (r y : ℕ) → crc16_step (bit_xor r y) 0 ≡ bit_xor (crc16_step r (y / 2 ^ 15)) (2 * y % 2 ^ 16)
unfolding crc16_step
feed r y =
    let same : (bit_xor r y / 2 ^ 15 + 0) % 2 ≡ (r / 2 ^ 15 + y / 2 ^ 15) % 2 =
      omega (arith, xor-top r y) in
    rw (crc16_step, same, xor-double r y)
      (ground (arith, xor_right_comm (2 * r % 2 ^ 16) (2 * y % 2 ^ 16) 0x1021))

-- The number that is left of `y` after `n` steps, and the bits that have gone in.
abbrev pub shifted : ℕ → ℕ → ℕ
shifted zero y = y
shifted (suc n) y = shifted n (2 * y % 2 ^ 16)

abbrev pub top_bits : ℕ → ℕ → List ℕ
top_bits zero y = []
top_bits (suc n) y = y / 2 ^ 15 ∷ top_bits n (2 * y % 2 ^ 16)

pub feed_bits :
    (n r y : ℕ) → idle n (bit_xor r y) ≡ bit_xor (crc16_bits r (top_bits n y)) (shifted n y)
unfolding idle crc16_bits
feed_bits zero r y = refl
feed_bits (suc n) r y =
    ap (idle n) (feed r y) ∙ feed_bits n (crc16_step r (y / 2 ^ 15)) (2 * y % 2 ^ 16)

pub top_bits-byte : (c : ℕ) → c < 256 → top_bits 8 (c * 2 ^ 8) ≡ byte_bits c
top_bits-byte c h = ground arith

pub shifted-byte : (c : ℕ) → shifted 8 (c * 2 ^ 8) ≡ 0
shifted-byte c = omega arith
