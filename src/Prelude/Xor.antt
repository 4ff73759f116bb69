-- ===== src/Prelude/Xor.antt =====
-- `^` is commutative, associative and its own inverse.
use Prim.Native.Nat.{ℕ, zero, suc, ◌+◌, ◌/◌, ◌%◌, ◌≤◌, ◌<◌, differ, bit_xor}
use mathlib.Core.Path.{◌≡◌, refl, ap, sym, ◌∙◌}
use native.Mathlib.Omega.{arith}
use criscv_hw.Prelude.Bits.{xor_digit, xor_self, xor-zero, xor-zero_left, differ-lt}

differ_comm : (x y : ℕ) → differ x y ≡ differ y x
differ_comm zero zero = refl
differ_comm zero (suc y) = refl
differ_comm (suc x) zero = refl
differ_comm (suc x) (suc y) = differ_comm x y

-- At two digits: the sum without its carry.
differ_digits : (x y : ℕ) → x < 2 → y < 2 → differ x y ≡ (x + y) % 2
differ_digits zero zero hx hy = refl
differ_digits zero (suc y) hx hy = omega arith
differ_digits (suc x) zero hx hy = omega arith
differ_digits (suc x) (suc y) hx hy =
    let ex : x ≡ 0 = omega arith in let ey : y ≡ 0 = omega arith in rw (ex, ey)

pub low_digit : (a b : ℕ) → bit_xor a b % 2 ≡ (a % 2 + b % 2) % 2
low_digit a b =
    omega (arith, xor_digit a b, differ_digits (a % 2) (b % 2) (omega arith) (omega arith))

high_digits : (a b : ℕ) → bit_xor a b / 2 ≡ bit_xor (a / 2) (b / 2)
high_digits a b =
    omega (arith, xor_digit a b, differ-lt (a % 2) (b % 2) (omega arith) (omega arith))

-- Numbers with the same lowest digit and the same other digits are equal.
eq_of_digits : (a b : ℕ) → a / 2 ≡ b / 2 → a % 2 ≡ b % 2 → a ≡ b
eq_of_digits a b h l = omega arith

xor_comm_below : (n a b : ℕ) → a ≤ n → b ≤ n → bit_xor a b ≡ bit_xor b a
xor_comm_below zero a b ha hb =
    let ea : a ≡ 0 = omega arith in let eb : b ≡ 0 = omega arith in rw (ea, eb)
xor_comm_below (suc n) a b ha hb =
    eq_of_digits (bit_xor a b) (bit_xor b a)
      (rw (high_digits a b, high_digits b a)
        (xor_comm_below n (a / 2) (b / 2) (omega arith) (omega arith)))
      (omega (arith, low_digit a b, low_digit b a))

pub xor_comm : (a b : ℕ) → bit_xor a b ≡ bit_xor b a
xor_comm a b = xor_comm_below (a + b) a b (omega arith) (omega arith)

xor_assoc_below :
    (n a b c : ℕ) → a ≤ n → b ≤ n → c ≤ n → bit_xor (bit_xor a b) c ≡ bit_xor a (bit_xor b c)
xor_assoc_below zero a b c ha hb hc =
    let ea : a ≡ 0 = omega arith in
    let eb : b ≡ 0 = omega arith in let ec : c ≡ 0 = omega arith in rw (ea, eb, ec)
xor_assoc_below (suc n) a b c ha hb hc =
    eq_of_digits (bit_xor (bit_xor a b) c) (bit_xor a (bit_xor b c))
      (rw
        (high_digits (bit_xor a b) c, high_digits a b, high_digits a (bit_xor b c), high_digits b c)
        (xor_assoc_below n (a / 2) (b / 2) (c / 2) (omega arith) (omega arith) (omega arith)))
      (omega
        (arith, low_digit (bit_xor a b) c, low_digit a b, low_digit a (bit_xor b c), low_digit b c))

pub xor_assoc : (a b c : ℕ) → bit_xor (bit_xor a b) c ≡ bit_xor a (bit_xor b c)
xor_assoc a b c = xor_assoc_below (a + b + c) a b c (omega arith) (omega arith) (omega arith)

pub xor_left_comm : (a b c : ℕ) → bit_xor a (bit_xor b c) ≡ bit_xor b (bit_xor a c)
xor_left_comm a b c =
    sym (xor_assoc a b c) ∙ (ap (λ (t : ℕ). bit_xor t c) (xor_comm a b) ∙ xor_assoc b a c)

-- The same number twice falls away.
pub xor_cancel : (a b : ℕ) → bit_xor a (bit_xor a b) ≡ b
xor_cancel a b =
    sym (xor_assoc a a b) ∙ (ap (λ (t : ℕ). bit_xor t b) (xor_self a) ∙ xor-zero_left b)

pub eq_of_xor : (a b : ℕ) → bit_xor a b ≡ 0 → a ≡ b
eq_of_xor a b h = sym (xor-zero a) ∙ (ap (λ (t : ℕ). bit_xor a t) (sym h) ∙ xor_cancel a b)

-- Four terms, the inner two exchanged.
pub xor_swap :
    (a b c d : ℕ) → bit_xor (bit_xor a b) (bit_xor c d) ≡ bit_xor (bit_xor a c) (bit_xor b d)
xor_swap a b c d =
    xor_assoc a b (bit_xor c d)
    ∙ (ap (λ (t : ℕ). bit_xor a t) (xor_left_comm b c d) ∙ sym (xor_assoc a c (bit_xor b d)))

pub xor_right_comm : (a b c : ℕ) → bit_xor (bit_xor a b) c ≡ bit_xor (bit_xor a c) b
xor_right_comm a b c =
    xor_assoc a b c ∙ (ap (λ (t : ℕ). bit_xor a t) (xor_comm b c) ∙ sym (xor_assoc a c b))
