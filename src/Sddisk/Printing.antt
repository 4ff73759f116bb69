-- ===== src/Sddisk/Printing.antt =====
-- The ways to print of the two test programs, bootbin/sddisk.c and bootloader/sddisk.c, make text of
-- text, and text of every number.
use criscv_hw.Prelude.{
  ℕ, zero, suc, ◌+◌, ◌-◌, ◌*◌, ◌/◌, ◌%◌, ◌^◌, ◌≤◌, ◌≡◌, inl, inr, refl, Bool, true, false, not,
  ◌||◌, List, [], ◌∷◌, ◌++◌, ◌==◌, leb, arith, All, Bool-cases,
}
use criscv_hw.Prelude.Text.{codes}
use criscv_hw.Sddisk.Uart.{
  hex_digit, uart_putc, uart_puts, uart_puthex, take_power, putdec_loop, pow10, uart_putdec,
  report_r1,
}
use criscv_hw.Sddisk.Message.{
  Message, cmd0_failed, cmd8_bad_echo, acmd41_timeout, cmd16_failed, init_ok, cmd17_failed,
  bad_token, cmd24_failed, write_rejected, write_busy_timeout, write_status_error, printf_text,
  uart_text, hex2, newline,
}
use criscv_hw.Sddisk.Standalone.{Output, hex_text, printf_output, uart_output}
use criscv_hw.Sddisk.Plain.{IsText, all_text, all_text-IsText, append-IsText, hex_digit-IsText}

-- Nothing but text is printed.
pub record IsClean (out : Output) : Type 0 where
  pub char_text : (c : ℕ) → IsText c → All IsText (out.put_char c)
  pub text_text : (t : List ℕ) → All IsText t → All IsText (out.put_text t)
  pub hex_is_text : (v n : ℕ) → All IsText (out.put_hex v n)
  pub dec_text : (v : ℕ) → All IsText (out.put_dec v)
  pub report_text : (msg : Message) → All IsText (out.report msg)
  pub greeting_text : (v2 hc : Bool) → All IsText (out.greeting v2 hc)

uart_putc-IsText : (c : ℕ) → IsText c → All IsText (uart_putc c)
unfolding uart_putc
uart_putc-IsText c h = elim (Bool-cases (c == b'\n')) [
  | inl e ↦ rw (uart_putc, e) (refl, (h, tt))
  | inr e ↦ rw (uart_putc, e) (h, tt)
]

uart_puts-IsText : (t : List ℕ) → All IsText t → All IsText (uart_puts t)
unfolding uart_puts
uart_puts-IsText [] p = tt
uart_puts-IsText (c ∷ cs) (h, p) =
    append-IsText (uart_putc c) (uart_puts cs) (uart_putc-IsText c h) (uart_puts-IsText cs p)

uart_puthex-IsText : (v n : ℕ) → All IsText (uart_puthex v n)
unfolding uart_puthex
uart_puthex-IsText v zero = tt
uart_puthex-IsText v (suc n) =
    append-IsText (uart_putc (hex_digit (v / 2 ^ (n * 4) % 16))) (uart_puthex v n)
      (uart_putc-IsText (hex_digit (v / 2 ^ (n * 4) % 16)) (hex_digit-IsText (v / 2 ^ (n * 4))))
      (uart_puthex-IsText v n)

hex_text-IsText : (v n : ℕ) → All IsText (hex_text v n)
unfolding hex_text
hex_text-IsText v zero = tt
hex_text-IsText v (suc n) = (hex_digit-IsText (v / 2 ^ (n * 4)), hex_text-IsText v n)

-- The count of a digit grows with each round only.
take_power-digit :
    (fuel power v d : ℕ)
    → (d ≤ (take_power fuel power v d).1) × ((take_power fuel power v d).1 ≤ d + fuel)
unfolding take_power
take_power-digit zero power v d = (omega arith, omega arith)
take_power-digit (suc fuel) power v d = elim (Bool-cases (leb power v)) [
  | inl e ↦
      let (low, high) = take_power-digit fuel power (v - power) (d + 1) in
      rw (take_power, e) (omega (arith, low), omega (arith, high))
  | inr e ↦ rw (take_power, e) (omega arith, omega arith)
]

putdec_loop-IsText :
    (powers : List ℕ) (v : ℕ) (started : Bool) → All IsText (putdec_loop powers v started)
unfolding putdec_loop
putdec_loop-IsText [] v started = tt
putdec_loop-IsText (power ∷ powers) v started = elim (Bool-cases shows) [
  | inl e ↦
      rw (putdec_loop, e)
        (append-IsText (uart_putc taken.1) _ (uart_putc-IsText taken.1 digit)
          (putdec_loop-IsText powers taken.0 _))
  | inr e ↦ rw (putdec_loop, e) (putdec_loop-IsText powers taken.0 _)
]
  where
    taken : ℕ × ℕ
    taken = take_power 10 power v b'0'

    shows : Bool
    shows = not (taken.1 == b'0') || started || power == 1

    digit : IsText taken.1
    digit = let (low, high) = take_power-digit 10 power v b'0' in ground (arith, low, high)

uart_putdec-IsText : (v : ℕ) → All IsText (uart_putdec v)
unfolding uart_putdec
uart_putdec-IsText v = putdec_loop-IsText pow10 v false

-- A literal, then more.
literal-IsText : (a b : List ℕ) → all_text a ≡ true → All IsText b → All IsText (a ++ b)
literal-IsText a b e p = append-IsText a b (all_text-IsText a e) p

hex2-IsText : (v : ℕ) (b : List ℕ) → All IsText b → All IsText (hex2 v ++ b)
hex2-IsText v b p = (hex_digit-IsText (v / 16), (hex_digit-IsText v, p))

-- A literal and a number, then the end of the line.
line-IsText : (a : List ℕ) (v : ℕ) → all_text a ≡ true → All IsText (a ++ (hex2 v ++ newline))
line-IsText a v e = literal-IsText a (hex2 v ++ newline) e (hex2-IsText v newline (refl, tt))

printf_text-IsText : (msg : Message) → All IsText (printf_text msg)
unfolding printf_text all_text
printf_text-IsText (cmd0_failed r) = line-IsText (codes "CMD0 failed, R1=0x") r refl
printf_text-IsText (cmd8_bad_echo a b) =
    literal-IsText (codes "CMD8 bad echo ") (hex2 a ++ (codes " " ++ (hex2 b ++ newline))) refl
      (hex2-IsText a (codes " " ++ (hex2 b ++ newline)) (line-IsText (codes " ") b refl))
printf_text-IsText (acmd41_timeout r) = line-IsText (codes "ACMD41 timeout, R1=0x") r refl
printf_text-IsText (cmd16_failed r) = line-IsText (codes "CMD16 failed, R1=0x") r refl
printf_text-IsText (init_ok false hc) = all_text-IsText (codes "SD init OK: SD v1 card\n") refl
printf_text-IsText (init_ok true false) = all_text-IsText (codes "SD init OK: SDSC v2 card\n") refl
printf_text-IsText (init_ok true true) = all_text-IsText (codes "SD init OK: SDHC/SDXC card\n") refl
printf_text-IsText (cmd17_failed r) = line-IsText (codes "CMD17 failed, R1=0x") r refl
printf_text-IsText (bad_token t) = line-IsText (codes "Bad data token 0x") t refl
printf_text-IsText (cmd24_failed r) = line-IsText (codes "CMD24 failed, R1=0x") r refl
printf_text-IsText (write_rejected r) = line-IsText (codes "Write rejected, data resp=0x") r refl
printf_text-IsText write_busy_timeout = all_text-IsText (codes "Write busy timeout\n") refl
printf_text-IsText (write_status_error r t) =
    literal-IsText (codes "Write status error, R1=0x")
      (hex2 r ++ (codes " R2=0x" ++ (hex2 t ++ newline))) refl
      (hex2-IsText r (codes " R2=0x" ++ (hex2 t ++ newline)) (line-IsText (codes " R2=0x") t refl))

-- A number, then the end of the line.
puthex_line-IsText : (v : ℕ) → All IsText (uart_puthex v 2 ++ uart_putc b'\n')
puthex_line-IsText v =
    append-IsText (uart_puthex v 2) (uart_putc b'\n') (uart_puthex-IsText v 2)
      (uart_putc-IsText b'\n' refl)

report_r1-IsText : (msg : List ℕ) (r : ℕ) → all_text msg ≡ true → All IsText (report_r1 msg r)
unfolding report_r1 all_text
report_r1-IsText msg r e =
    append-IsText (uart_puts msg) (uart_puts (codes "0x") ++ (uart_puthex r 2 ++ uart_putc b'\n'))
      (uart_puts-IsText msg (all_text-IsText msg e))
      (append-IsText (uart_puts (codes "0x")) (uart_puthex r 2 ++ uart_putc b'\n')
        (uart_puts-IsText (codes "0x") (refl, (refl, tt))) (puthex_line-IsText r))

uart_text-IsText : (msg : Message) → All IsText (uart_text msg)
unfolding uart_text all_text
uart_text-IsText (cmd0_failed r) = report_r1-IsText (codes "CMD0 failed, R1=") r refl
uart_text-IsText (cmd8_bad_echo a b) =
    append-IsText (uart_puts (codes "CMD8 bad echo "))
      (uart_puthex a 2 ++ (uart_putc b' ' ++ (uart_puthex b 2 ++ uart_putc b'\n')))
      (uart_puts-IsText (codes "CMD8 bad echo ") (all_text-IsText (codes "CMD8 bad echo ") refl))
      (append-IsText (uart_puthex a 2) (uart_putc b' ' ++ (uart_puthex b 2 ++ uart_putc b'\n'))
        (uart_puthex-IsText a 2)
        (append-IsText (uart_putc b' ') (uart_puthex b 2 ++ uart_putc b'\n')
          (uart_putc-IsText b' ' refl) (puthex_line-IsText b)))
uart_text-IsText (acmd41_timeout r) = report_r1-IsText (codes "ACMD41 timeout, R1=") r refl
uart_text-IsText (cmd16_failed r) = report_r1-IsText (codes "CMD16 failed, R1=") r refl
uart_text-IsText (init_ok v2 hc) = tt
uart_text-IsText (cmd17_failed r) = report_r1-IsText (codes "CMD17 failed, R1=") r refl
uart_text-IsText (bad_token t) = report_r1-IsText (codes "Bad data token ") t refl
uart_text-IsText (cmd24_failed r) = tt
uart_text-IsText (write_rejected r) = tt
uart_text-IsText write_busy_timeout = tt
uart_text-IsText (write_status_error r t) = tt

pub printf_output-IsClean : IsClean printf_output
printf_output-IsClean = record {
  char_text = λ c h. (h, tt);
  text_text = λ t p. p;
  hex_is_text = hex_text-IsText;
  dec_text = uart_putdec-IsText;
  report_text = printf_text-IsText;
  greeting_text = λ v2 hc. printf_text-IsText (init_ok v2 hc);
}

pub uart_output-IsClean : IsClean uart_output
uart_output-IsClean = record {
  char_text = uart_putc-IsText;
  text_text = uart_puts-IsText;
  hex_is_text = uart_puthex-IsText;
  dec_text = uart_putdec-IsText;
  report_text = uart_text-IsText;
  greeting_text = λ v2 hc. tt;
}
