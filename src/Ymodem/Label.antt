-- ===== src/Ymodem/Label.antt =====
-- The name and the size that `ym_receive` of bootbin/ymodem.c reads from a sender's block 0.
use criscv_hw.Prelude.{
  ℕ, zero, suc, ◌+◌, ◌-◌, ◌*◌, ◌^◌, ◌≤◌, ◌<◌, ◌≡◌, refl, true, false, List, [], ◌∷◌, ◌++◌, length,
  length-append, get_or, arith, ◌==◌, All, Memory,
}
use criscv_hw.Ymodem.Header.{
  copy_name, skip_name, is_digit, add_digit, read_size, header_name, header_size,
}

-- Bytes at an address.
abbrev pub Holds : Memory → ℕ → List ℕ → Type 0
Holds mem p [] = Unit
Holds mem p (c ∷ cs) = (mem p ≡ c) × Holds mem (p + 1) cs

pub Holds-of_get_or :
    (mem : Memory) (p : ℕ) (bytes : List ℕ)
    → ((j : ℕ) → j < length bytes → mem (p + j) ≡ get_or bytes j 0)
    → Holds mem p bytes
Holds-of_get_or mem p [] h = tt
Holds-of_get_or mem p (c ∷ cs) h = (
  (let e : p ≡ p + 0 = omega arith in rw e (h 0 (omega arith))),
  Holds-of_get_or mem (p + 1) cs
      (λ j k. let e : p + 1 + j ≡ p + suc j = omega arith in rw e (h (suc j) (omega arith))),
)

Holds-append :
    (mem : Memory) (p : ℕ) (xs ys : List ℕ) → Holds mem p (xs ++ ys) → Holds mem (p + length xs) ys
Holds-append mem p [] ys h = let e : p + 0 ≡ p = omega arith in rw e h
Holds-append mem p (x ∷ xs) ys h =
    let e : p + suc (length xs) ≡ p + 1 + length xs = omega arith in
    rw e (Holds-append mem (p + 1) xs ys h.1)

-- The number that decimal digits spell behind `n`.
unfoldable pub decimal : ℕ → List ℕ → ℕ
decimal n [] = n
decimal n (c ∷ cs) = decimal (n * 10 + (c - b'0')) cs

decimal-le : (n : ℕ) (ds : List ℕ) → n ≤ decimal n ds
unfolding decimal
decimal-le n [] = omega arith
decimal-le n (c ∷ cs) = omega (arith, decimal-le (n * 10 + (c - b'0')) cs)

abbrev pub Digit : ℕ → Type 0
Digit c = (b'0' ≤ c) × (c ≤ b'9')

-- What a sender writes into block 0: a name of 1 to 19 bytes, and the size of the file in decimal
-- behind a NUL, with a byte behind it that is no digit.
pub record IsLabel (name digits tail : List ℕ) : Type 0 where
  pub name_some : 0 < length name
  pub name_short : length name ≤ 19
  pub name_plain : All (λ c. 0 < c) name
  pub digits_all : All Digit digits
  pub tail_some : 0 < length tail
  pub tail_stops : is_digit (get_or tail 0 0) ≡ false
  pub fits : decimal 0 digits < 2 ^ 32

abbrev pub label : List ℕ → List ℕ → List ℕ → List ℕ
label name digits tail = name ++ 0 ∷ (digits ++ tail)

copy_name-name :
    (left i : ℕ) (mem : Memory) (p : ℕ) (name rest : List ℕ)
    → length name ≤ left
    → All (λ c. 0 < c) name
    → Holds mem (p + i) (name ++ 0 ∷ rest)
    → copy_name left i mem p ≡ name
unfolding copy_name
copy_name-name zero i mem p [] rest h a b = refl
copy_name-name zero i mem p (c ∷ cs) rest h a b = absurd (omega arith)
copy_name-name (suc left) i mem p [] rest h a b = ground (arith, b.0)
copy_name-name (suc left) i mem p (c ∷ cs) rest h a b =
    let e : p + i + 1 ≡ p + (i + 1) = omega arith in
    let more = copy_name-name left (i + 1) mem p cs rest (omega arith) a.1 (rw e at b.1) in
    let f : (mem (p + i) == 0) ≡ false = ground (arith, b.0, a.0) in rw (f, more, b.0)

skip_name-here : (left i : ℕ) (mem : Memory) (p : ℕ) → mem (p + i) ≡ 0 → skip_name left i mem p ≡ i
unfolding skip_name
skip_name-here zero i mem p e = refl
skip_name-here (suc left) i mem p e = ground arith

Digit-is_digit : (c : ℕ) → Digit c → is_digit c ≡ true
unfolding is_digit
Digit-is_digit c d = ground arith

read_size-decimal :
    (left i size : ℕ) (mem : Memory) (p : ℕ) (ds tail : List ℕ)
    → length ds < left
    → All Digit ds
    → 0 < length tail
    → is_digit (get_or tail 0 0) ≡ false
    → decimal size ds < 2 ^ 32
    → Holds mem (p + i) (ds ++ tail)
    → read_size left i size mem p ≡ decimal size ds
unfolding read_size decimal
read_size-decimal zero i size mem p ds tail h a n s k b = absurd (omega arith)
read_size-decimal (suc left) i size mem p [] [] h a n s k b = absurd (omega arith)
read_size-decimal (suc left) i size mem p [] (t ∷ ts) h a n s k b =
    let f : is_digit (mem (p + i)) ≡ false = rw b.0 s in rw f
read_size-decimal (suc left) i size mem p (c ∷ cs) tail h a n s k b =
    let f : is_digit (mem (p + i)) ≡ true = rw b.0 (Digit-is_digit c a.0) in
    let e : p + i + 1 ≡ p + (i + 1) = omega arith in
    let added : add_digit size (mem (p + i)) ≡ size * 10 + (c - b'0') =
      added_lem size c (mem (p + i)) b.0
        (omega (arith, k, decimal-le (size * 10 + (c - b'0')) cs)) in
    rw (f, added)
      (read_size-decimal left (i + 1) (size * 10 + (c - b'0')) mem p cs tail (omega arith) a.1 n s k
        (rw e at b.1))
  where
    added_lem :
        (size c byte : ℕ)
        → byte ≡ c
        → size * 10 + (c - b'0') < 2 ^ 32
        → add_digit size byte ≡ size * 10 + (c - b'0')
    added_lem size c byte e h = unfold add_digit in rw e (omega arith)

-- The name is read back.
pub header_name-label :
    (mem : Memory) (p : ℕ) (name digits tail : List ℕ)
    → IsLabel name digits tail
    → Holds mem p (label name digits tail)
    → header_name mem p ≡ name
unfolding header_name
header_name-label mem p name digits tail l h =
    copy_name-name 19 0 mem p name (digits ++ tail) l.name_short l.name_plain
      (let e : p + 0 ≡ p = omega arith in rw e h)

-- The size is read back.
pub header_size-label :
    (len : ℕ) (mem : Memory) (p : ℕ) (name digits tail : List ℕ)
    → IsLabel name digits tail
    → length (label name digits tail) ≤ len
    → Holds mem p (label name digits tail)
    → header_size len mem p ≡ decimal 0 digits
unfolding header_size
header_size-label len mem p name digits tail l fits h =
    let zero_at = Holds-append mem p name (0 ∷ (digits ++ tail)) h in
    let place : p + length name + 1 ≡ p + (length name + 1) = omega arith in
    let long = length-append name (0 ∷ (digits ++ tail)) in
    let long' = length-append digits tail in
    rw
      (
        header_name-label mem p name digits tail l h,
        skip_name-here (len - length name) (length name) mem p zero_at.0,
      )
      (read_size-decimal (len - (length name + 1)) (length name + 1) 0 mem p digits tail
        (omega (arith, l.tail_some)) l.digits_all l.tail_some l.tail_stops l.fits
        (rw place at zero_at.1))
