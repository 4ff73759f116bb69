-- ===== src/Sddisk/Decimal.antt =====
-- What `uart_putdec` and `uart_puthex` of bootloader/sddisk.c print, read back.
use criscv_hw.Prelude.{
  ℕ, zero, suc, ◌+◌, ◌-◌, ◌*◌, ◌^◌, ◌≤◌, ◌<◌, ◌≡◌, refl, sym, ap, ◌∙◌, inl, inr, Bool, true, false,
  not, ◌||◌, List, [], ◌∷◌, ◌++◌, arith, leb, ◌==◌, if◌then◌else◌, Bool-cases,
}
use criscv_hw.Sddisk.Uart.{uart_putc, take_power, putdec_loop, uart_putdec}

-- The number that a decimal text spells behind `n`.
unfoldable pub read_dec : ℕ → List ℕ → ℕ
read_dec n [] = n
read_dec n (c ∷ cs) = read_dec (n * 10 + (c - b'0')) cs

-- What `while (v >= power)` leaves.
record Taken (power v d : ℕ) (r : ℕ × ℕ) : Type 0 where
  digit : ℕ
  eq : r.1 ≡ d + digit
  sum : digit * power + r.0 ≡ v
  lt : r.0 < power

take_power-more :
    (power v d : ℕ) (r : ℕ × ℕ) → power ≤ v → Taken power (v - power) (d + 1) r → Taken power v d r
take_power-more power v d r h t = record {
  digit = suc t.digit;
  eq = omega (arith, t.eq);
  sum =
      let step : suc t.digit * power ≡ t.digit * power + power = grind arith in
      omega (arith, t.sum, step);
  lt = t.lt;
}

take_power-Taken :
    (fuel power v d : ℕ)
    → 0 < power
    → v < fuel * power
    → Taken power v d (take_power fuel power v d)
unfolding take_power
take_power-Taken zero power v d p h = absurd (omega arith)
take_power-Taken (suc fuel) power v d p h = elim (Bool-cases (leb power v)) [
  | inl e ↦
      rw (take_power, e)
        (take_power-more power v d _ (ground arith)
          (take_power-Taken fuel power (v - power) (d + 1) p (below (ground arith))))
  | inr e ↦
      rw (take_power, e)
        (record { digit = 0; eq = omega arith; sum = omega arith; lt = ground arith })
]
  where
    below : power ≤ v → v - power < fuel * power
    below le =
        let step : suc fuel * power ≡ fuel * power + power = grind arith in omega (arith, step)

-- Each power is ten times the next, down to 1.
abbrev Falls : ℕ → List ℕ → Type 0
Falls power [] = power ≡ 1
Falls power (next ∷ powers) = (power ≡ next * 10) × Falls next powers

read_dec-append : (n : ℕ) (xs ys : List ℕ) → read_dec n (xs ++ ys) ≡ read_dec (read_dec n xs) ys
unfolding read_dec
read_dec-append n [] ys = refl
read_dec-append n (x ∷ xs) ys = read_dec-append (n * 10 + (x - b'0')) xs ys

read_dec-putc : (n q : ℕ) → q < 10 → read_dec n (uart_putc (b'0' + q)) ≡ n * 10 + q
unfolding read_dec uart_putc
read_dec-putc n q h = ground arith

Falls-pos : (power : ℕ) (powers : List ℕ) → Falls power powers → 0 < power
Falls-pos power [] f = omega arith
Falls-pos power (next ∷ powers) f = omega (arith, Falls-pos next powers f.1)

digit-lt : (digit power rest v : ℕ) → digit * power + rest ≡ v → v < 10 * power → digit < 10
digit-lt digit power rest v e h = grind arith

-- Whether the digit `d` is printed.
abbrev prints : ℕ → ℕ → Bool → Bool
prints d power started = not (d == b'0') || started || power == 1

putdec_loop-printed :
    (powers : List ℕ) (power v : ℕ) (started : Bool)
    → prints (take_power 10 power v b'0').1 power started ≡ true
    → putdec_loop (power ∷ powers) v started
      ≡ uart_putc (take_power 10 power v b'0').1
        ++ putdec_loop powers (take_power 10 power v b'0').0 (started || true)
unfolding putdec_loop
putdec_loop-printed powers power v started e = λ i.
    (if e i then uart_putc (take_power 10 power v b'0').1 else [])
    ++ putdec_loop powers (take_power 10 power v b'0').0 (started || e i)

putdec_loop-skipped :
    (powers : List ℕ) (power v : ℕ) (started : Bool)
    → prints (take_power 10 power v b'0').1 power started ≡ false
    → putdec_loop (power ∷ powers) v started
      ≡ putdec_loop powers (take_power 10 power v b'0').0 (started || false)
unfolding putdec_loop
putdec_loop-skipped powers power v started e = λ i.
    (if e i then uart_putc (take_power 10 power v b'0').1 else [])
    ++ putdec_loop powers (take_power 10 power v b'0').0 (started || e i)

putdec_loop-end : (v : ℕ) (started : Bool) → putdec_loop [] v started ≡ []
unfolding putdec_loop
putdec_loop-end v started = refl

or_true : (b : Bool) → b || true ≡ false → ⊥
or_true true e = cc
or_true false e = cc

-- What a round leaves: the digits printed so far stand for `number`, and `rest` is to be printed.
record Round (powers : List ℕ) (power v : ℕ) (started : Bool) (n : ℕ) : Type 0 where
  number : ℕ
  rest : ℕ
  begun : Bool
  printed :
      read_dec n (putdec_loop (power ∷ powers) v started)
      ≡ read_dec number (putdec_loop powers rest begun)
  lt : rest < power
  value : number * power + rest ≡ n * (power * 10) + v
  none_yet : begun ≡ false → number ≡ 0

printed_value :
    (n digit power rest v : ℕ)
    → digit * power + rest ≡ v
    → (n * 10 + digit) * power + rest ≡ n * (power * 10) + v
printed_value n digit power rest v e =
    let step : (n * 10 + digit) * power ≡ n * (power * 10) + digit * power = grind arith in
    omega (arith, step)

skipped_value :
    (d digit power rest v n : ℕ) (started : Bool)
    → d ≡ b'0' + digit
    → digit * power + rest ≡ v
    → (started ≡ false → n ≡ 0)
    → prints d power started ≡ false
    → (n ≡ 0) × (rest ≡ v) × (started ≡ false)
skipped_value d digit power rest v n started eq e z p =
    let off : (digit ≡ 0) × (started ≡ false) = ground arith in
    let zero_digit : digit * power ≡ 0 = rw off.0 (omega arith) in (z off.1, omega arith, off.1)

putdec_round :
    (powers : List ℕ) (power v : ℕ) (started : Bool) (n : ℕ)
    → 0 < power
    → v < 10 * power
    → (started ≡ false → n ≡ 0)
    → Round powers power v started n
putdec_round powers power v started n p h z =
    let r : ℕ × ℕ = take_power 10 power v b'0' in
    let t : Taken power v b'0' r = take_power-Taken 10 power v b'0' p h in
    elim (Bool-cases (prints r.1 power started)) [
      | inl e ↦ record {
        number = n * 10 + t.digit;
        rest = r.0;
        begun = started || true;
        printed =
            ap (read_dec n) (putdec_loop-printed powers power v started e)
            ∙ (read_dec-append n (uart_putc r.1) (putdec_loop powers r.0 (started || true))
                ∙ ap (λ m. read_dec m (putdec_loop powers r.0 (started || true)))
                    (ap (λ d. read_dec n (uart_putc d)) t.eq
                      ∙ read_dec-putc n t.digit (digit-lt t.digit power r.0 v t.sum h)));
        lt = t.lt;
        value = printed_value n t.digit power r.0 v t.sum;
        none_yet = λ f. absurd (or_true started f);
      }
      | inr e ↦
          let (zero_n, same, off) =
            skipped_value r.1 t.digit power r.0 v n started t.eq t.sum z e in
          record {
            number = n;
            rest = r.0;
            begun = started || false;
            printed = ap (read_dec n) (putdec_loop-skipped powers power v started e);
            lt = t.lt;
            value = rw zero_n (omega arith);
            none_yet = λ f. zero_n;
          }
    ]

read_dec-putdec_loop :
    (powers : List ℕ) (power v : ℕ) (started : Bool) (n : ℕ)
    → Falls power powers
    → v < 10 * power
    → (started ≡ false → n ≡ 0)
    → read_dec n (putdec_loop (power ∷ powers) v started) ≡ n * (power * 10) + v
unfolding read_dec
read_dec-putdec_loop [] power v started n f h z =
    let r = putdec_round [] power v started n (omega arith) h z in
    r.printed
    ∙ (ap (read_dec r.number) (putdec_loop-end r.rest r.begun) ∙ last r.number r.rest r.lt r.value)
  where
    last :
        (number rest : ℕ)
        → rest < power
        → number * power + rest ≡ n * (power * 10) + v
        → number ≡ n * (power * 10) + v
    last number rest lt e = let one : number * power ≡ number = rw f (omega arith) in omega arith
read_dec-putdec_loop (next ∷ powers) power v started n f h z =
    let r =
      putdec_round (next ∷ powers) power v started n (Falls-pos power (next ∷ powers) f) h z in
    let lt : r.rest < 10 * next = omega (arith, r.lt, f.0) in
    r.printed
    ∙ (read_dec-putdec_loop powers next r.rest r.begun r.number f.1 lt r.none_yet
        ∙ (rw (sym f.0) r.value))

-- What `uart_putdec` prints of a 32-bit number reads back as the number.
pub read_dec-uart_putdec : (v : ℕ) → v < 2 ^ 32 → read_dec 0 (uart_putdec v) ≡ v
unfolding uart_putdec
read_dec-uart_putdec v h =
    read_dec-putdec_loop
      (100000000 ∷ 10000000 ∷ 1000000 ∷ 100000 ∷ 10000 ∷ 1000 ∷ 100 ∷ 10 ∷ 1 ∷ []) 1000000000 v
      false 0 (omega arith) (omega arith) (λ e. refl)
    ∙ omega arith
