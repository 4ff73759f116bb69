-- ===== src/Prelude/Or.antt =====
-- Laws of `|` at variables, by its binary digits.
use Prim.Native.Nat.{ℕ, zero, suc, ◌+◌, ◌-◌, ◌*◌, ◌/◌, ◌%◌, ◌^◌, ◌≤◌, ◌<◌, max}
use Prim.Native.Nat.{bit_or, bit_or-bitwise}
use mathlib.Core.Path.{◌≡◌}
use native.Mathlib.Nat.{pow-suc, one-le-pow}
use native.Mathlib.Omega.{arith}
use criscv_hw.Prelude.Bits.{spare, half-parts, parity-parts, double}

pub or-zero_left : (b : ℕ) → bit_or 0 b ≡ b
or-zero_left b = bit_or-bitwise 0 b

-- One equation for the lowest digit.
or_digit : (a b : ℕ) → bit_or a b ≡ bit_or (a / 2) (b / 2) * 2 + max (a % 2) (b % 2)
or_digit zero b = omega (arith, or-zero_left b, or-zero_left (b / 2))
or_digit (suc a) b = omega (
  arith,
  bit_or-bitwise (suc a) b,
  bit_or-bitwise (suc a / 2) (b / 2),
  spare (λ c. c) max (suc a / 2) (suc a / 2) a (b / 2) (omega arith) (omega arith),
)

or-zero_below : (n a : ℕ) → a ≤ n → bit_or a 0 ≡ a
or-zero_below zero a h = let e : a ≡ 0 = omega arith in rw e
or-zero_below (suc n) a h = omega (arith, or_digit a 0, or-zero_below n (a / 2) (omega arith))

pub or-zero : (a : ℕ) → bit_or a 0 ≡ a
or-zero a = or-zero_below a a (omega arith)

-- `|` works on the high parts and on the low parts apart.
pub or_parts :
    (k q r p s : ℕ)
    → r < 2 ^ k
    → s < 2 ^ k
    → bit_or (q * 2 ^ k + r) (p * 2 ^ k + s) ≡ bit_or q p * 2 ^ k + bit_or r s
or_parts zero q r p s hr hs =
    let er : r ≡ 0 = omega arith in
    let es : s ≡ 0 = omega arith in
    let eq : q * 2 ^ 0 + 0 ≡ q = omega arith in
    let ep : p * 2 ^ 0 + 0 ≡ p = omega arith in rw (er, es, eq, ep) (omega (arith, or-zero 0))
or_parts (suc k) q r p s hr hs =
    let ih =
      or_parts k q (r / 2) p (s / 2) (omega (arith, pow-suc 2 k)) (omega (arith, pow-suc 2 k)) in
    rw
      (
        or_digit (q * 2 ^ suc k + r) (p * 2 ^ suc k + s),
        half-parts q r k,
        half-parts p s k,
        parity-parts q r k,
        parity-parts p s k,
        ih,
      )
      (omega (arith, or_digit r s, double (bit_or q p) k))

-- Or with all of the low bits set sets them all.
pub or_mask : (k h : ℕ) → h < 2 ^ k → bit_or h (2 ^ k - 1) ≡ 2 ^ k - 1
or_mask zero h lt = let e : h ≡ 0 = omega arith in rw e (or-zero 0)
or_mask (suc k) h lt =
    let ih = or_mask k (h / 2) (omega (arith, pow-suc 2 k)) in
    let e : (2 ^ suc k - 1) / 2 ≡ 2 ^ k - 1 = omega (arith, pow-suc 2 k, one-le-pow k 2) in
    let z : (2 ^ suc k - 1) % 2 ≡ 1 = omega (arith, pow-suc 2 k, one-le-pow k 2) in
    rw (or_digit h (2 ^ suc k - 1), e, z, ih) (omega (arith, pow-suc 2 k, one-le-pow k 2))
