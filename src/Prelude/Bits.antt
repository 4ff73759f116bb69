-- ===== src/Prelude/Bits.antt =====
-- Laws of `&` and `^` at variables. The native operations stand for a recursion on binary digits
-- that counts down; here the count is dropped, and numbers are cut into a high and a low part.
use Prim.Native.Nat.{ℕ, zero, suc, ◌+◌, ◌-◌, ◌*◌, ◌/◌, ◌%◌, ◌^◌, ◌≤◌, ◌<◌, min}
use Prim.Native.Nat.{digits, differ, bit_and, bit_xor, bit_and-bitwise, bit_xor-bitwise}
use mathlib.Core.Path.{◌≡◌, refl, ap}
use native.Mathlib.Nat.{pow-suc, one-le-pow}
use native.Mathlib.Omega.{arith}

-- A count of at least the first number is as good as that number.
module _ (rest : ℕ → ℕ) (on_digits : ℕ → ℕ → ℕ) where
  pub spare :
      (a n m b : ℕ) → a ≤ n → n ≤ m → digits rest on_digits m a b ≡ digits rest on_digits n a b
  spare zero zero zero b low high = refl
  spare zero zero (suc m) b low high = refl
  spare zero (suc n) zero b low high = absurd (omega arith)
  spare zero (suc n) (suc m) b low high = refl
  spare (suc a) zero m b low high = absurd (omega arith)
  spare (suc a) (suc n) zero b low high = absurd (omega arith)
  spare (suc a) (suc n) (suc m) b low high =
      ap (λ (t : ℕ). t * 2 + on_digits (suc a % 2) (b % 2))
        (spare (suc a / 2) n m (b / 2) (omega arith) (omega arith))

pub xor-zero_left : (b : ℕ) → bit_xor 0 b ≡ b
xor-zero_left b = bit_xor-bitwise 0 b

pub and-zero_left : (b : ℕ) → bit_and 0 b ≡ 0
and-zero_left b = bit_and-bitwise 0 b

differ_self : (x : ℕ) → differ x x ≡ 0
differ_self zero = refl
differ_self (suc x) = differ_self x

differ-zero : (x : ℕ) → differ x 0 ≡ x
differ-zero zero = refl
differ-zero (suc x) = refl

-- One equation for the lowest digit.
pub xor_digit : (a b : ℕ) → bit_xor a b ≡ bit_xor (a / 2) (b / 2) * 2 + differ (a % 2) (b % 2)
xor_digit zero b = omega (arith, xor-zero_left b, xor-zero_left (b / 2))
xor_digit (suc a) b = omega (
  arith,
  bit_xor-bitwise (suc a) b,
  bit_xor-bitwise (suc a / 2) (b / 2),
  spare (λ c. c) differ (suc a / 2) (suc a / 2) a (b / 2) (omega arith) (omega arith),
)

pub and_digit : (a b : ℕ) → bit_and a b ≡ bit_and (a / 2) (b / 2) * 2 + min (a % 2) (b % 2)
and_digit zero b = omega (arith, and-zero_left b, and-zero_left (b / 2))
and_digit (suc a) b = omega (
  arith,
  bit_and-bitwise (suc a) b,
  bit_and-bitwise (suc a / 2) (b / 2),
  spare (λ c. zero) min (suc a / 2) (suc a / 2) a (b / 2) (omega arith) (omega arith),
)

xor_self_below : (n a : ℕ) → a ≤ n → bit_xor a a ≡ 0
xor_self_below zero a h = let e : a ≡ 0 = omega arith in rw e
xor_self_below (suc n) a h =
    omega (arith, xor_digit a a, differ_self (a % 2), xor_self_below n (a / 2) (omega arith))

pub xor_self : (a : ℕ) → bit_xor a a ≡ 0
xor_self a = xor_self_below a a (omega arith)

xor-zero_below : (n a : ℕ) → a ≤ n → bit_xor a 0 ≡ a
xor-zero_below zero a h = let e : a ≡ 0 = omega arith in rw e
xor-zero_below (suc n) a h =
    omega (arith, xor_digit a 0, differ-zero (a % 2), xor-zero_below n (a / 2) (omega arith))

pub xor-zero : (a : ℕ) → bit_xor a 0 ≡ a
xor-zero a = xor-zero_below a a (omega arith)

and-zero_below : (n a : ℕ) → a ≤ n → bit_and a 0 ≡ 0
and-zero_below zero a h = let e : a ≡ 0 = omega arith in rw e
and-zero_below (suc n) a h = omega (arith, and_digit a 0, and-zero_below n (a / 2) (omega arith))

pub and-zero : (a : ℕ) → bit_and a 0 ≡ 0
and-zero a = and-zero_below a a (omega arith)

pub double : (q k : ℕ) → q * 2 ^ suc k ≡ 2 * (q * 2 ^ k)
double q k = omega (arith, ap (λ (t : ℕ). q * t) (pow-suc 2 k))

pub half-parts : (q r k : ℕ) → (q * 2 ^ suc k + r) / 2 ≡ q * 2 ^ k + r / 2
half-parts q r k = omega (arith, double q k)

pub parity-parts : (q r k : ℕ) → (q * 2 ^ suc k + r) % 2 ≡ r % 2
parity-parts q r k = omega (arith, double q k)

-- `^` works on the high parts and on the low parts apart.
pub xor_parts :
    (k q r p s : ℕ)
    → r < 2 ^ k
    → s < 2 ^ k
    → bit_xor (q * 2 ^ k + r) (p * 2 ^ k + s) ≡ bit_xor q p * 2 ^ k + bit_xor r s
xor_parts zero q r p s hr hs =
    let er : r ≡ 0 = omega arith in
    let es : s ≡ 0 = omega arith in
    let eq : q * 2 ^ 0 + 0 ≡ q = omega arith in
    let ep : p * 2 ^ 0 + 0 ≡ p = omega arith in rw (er, es, eq, ep) (omega (arith, xor-zero 0))
xor_parts (suc k) q r p s hr hs =
    let ih =
      xor_parts k q (r / 2) p (s / 2) (omega (arith, pow-suc 2 k)) (omega (arith, pow-suc 2 k)) in
    rw
      (
        xor_digit (q * 2 ^ suc k + r) (p * 2 ^ suc k + s),
        half-parts q r k,
        half-parts p s k,
        parity-parts q r k,
        parity-parts p s k,
        ih,
      )
      (omega (arith, xor_digit r s, double (bit_xor q p) k))

pub differ-lt : (x y : ℕ) → x < 2 → y < 2 → differ x y < 2
differ-lt zero y hx hy = hy
differ-lt (suc x) zero hx hy = hx
differ-lt (suc x) (suc y) hx hy = let e : x ≡ 0 = omega arith in rw e (omega arith)

-- No bit is set that neither number has room for.
pub xor-lt : (k a b : ℕ) → a < 2 ^ k → b < 2 ^ k → bit_xor a b < 2 ^ k
xor-lt zero a b ha hb =
    let ea : a ≡ 0 = omega arith in
    let eb : b ≡ 0 = omega arith in rw (ea, eb) (omega (arith, xor-zero 0))
xor-lt (suc k) a b ha hb = omega (
  arith,
  pow-suc 2 k,
  xor_digit a b,
  differ-lt (a % 2) (b % 2) (omega arith) (omega arith),
  xor-lt k (a / 2) (b / 2) (omega (arith, pow-suc 2 k)) (omega (arith, pow-suc 2 k)),
)

-- `& (1 << k)` is the bit `k`, in its place.
pub and_bit_parts : (k q r : ℕ) → r < 2 ^ k → bit_and (q * 2 ^ k + r) (2 ^ k) ≡ q % 2 * 2 ^ k
and_bit_parts zero q r hr =
    let er : r ≡ 0 = omega arith in
    let eq : q * 2 ^ 0 + 0 ≡ q = omega arith in
    rw (er, eq) (omega (arith, and_digit q 1, and-zero (q / 2)))
and_bit_parts (suc k) q r hr =
    let ih = and_bit_parts k q (r / 2) (omega (arith, pow-suc 2 k)) in
    let e : 2 ^ suc k / 2 ≡ 2 ^ k = omega (arith, pow-suc 2 k) in
    let z : 2 ^ suc k % 2 ≡ 0 = omega (arith, pow-suc 2 k) in
    rw (and_digit (q * 2 ^ suc k + r) (2 ^ suc k), half-parts q r k, e, z, ih)
      (omega (arith, double (q % 2) k))

-- `& (2 ^ k - 1)` is the remainder by `2 ^ k`.
pub and_mask_parts : (k q r : ℕ) → r < 2 ^ k → bit_and (q * 2 ^ k + r) (2 ^ k - 1) ≡ r
and_mask_parts zero q r hr =
    let er : r ≡ 0 = omega arith in rw er (omega (arith, and-zero (q * 2 ^ 0 + 0)))
and_mask_parts (suc k) q r hr =
    let ih = and_mask_parts k q (r / 2) (omega (arith, pow-suc 2 k)) in
    let e : (2 ^ suc k - 1) / 2 ≡ 2 ^ k - 1 = omega (arith, pow-suc 2 k, one-le-pow k 2) in
    let z : (2 ^ suc k - 1) % 2 ≡ 1 = omega (arith, pow-suc 2 k, one-le-pow k 2) in
    rw
      (
        and_digit (q * 2 ^ suc k + r) (2 ^ suc k - 1),
        half-parts q r k,
        parity-parts q r k,
        e,
        z,
        ih,
      )
      (omega arith)
