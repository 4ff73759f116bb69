-- ===== src/Sddisk/Uart.antt =====
-- bootloader/sddisk.c: the output routines of the first boot stage, as the bytes that they send.
use criscv_hw.Prelude.{
  ℕ, zero, suc, ◌+◌, ◌-◌, ◌*◌, ◌/◌, ◌%◌, ◌^◌, Bool, true, false, not, ◌||◌, List, [], ◌∷◌, ◌++◌,
  leb, ◌==◌, if◌then◌else◌, get_or,
}
use criscv_hw.Prelude.Text.{codes}

-- A line feed goes out behind a carriage return.
unfoldable pub uart_putc : ℕ → List ℕ
uart_putc c = if c == b'\n' then b'\r' ∷ c ∷ [] else c ∷ []

unfoldable pub uart_puts : List ℕ → List ℕ
uart_puts [] = []
uart_puts (c ∷ cs) = uart_putc c ++ uart_puts cs

-- hex[n]
abbrev pub hex_digit : ℕ → ℕ
hex_digit n = get_or (codes "0123456789ABCDEF") n 0

-- The `digits` low nibbles of `v`, the highest first.
unfoldable pub uart_puthex : ℕ → ℕ → List ℕ
uart_puthex v zero = []
uart_puthex v (suc digits) =
    uart_putc (hex_digit (v / 2 ^ (digits * 4) % 16)) ++ uart_puthex v digits

abbrev pub pow10 : List ℕ
pow10 = 1000000000 ∷ 100000000 ∷ 10000000 ∷ 1000000 ∷ 100000 ∷ 10000 ∷ 1000 ∷ 100 ∷ 10 ∷ 1 ∷ []

-- `while (v >= pow10[i]) { v -= pow10[i]; d++; }` on fuel: what is left of `v`, and `d`.
unfoldable pub take_power : ℕ → ℕ → ℕ → ℕ → ℕ × ℕ
take_power zero power v d = (v, d)
take_power (suc fuel) power v d = elim (leb power v) [
  | true ↦ take_power fuel power (v - power) (d + 1)
  | false ↦ (v, d)
]

-- The loop over the powers of ten. No digit takes more than nine rounds of the inner loop.
unfoldable pub putdec_loop : List ℕ → ℕ → Bool → List ℕ
putdec_loop [] v started = []
putdec_loop (power ∷ powers) v started =
    let (v', d) = take_power 10 power v b'0' in
    let print = not (d == b'0') || started || power == 1 in
    (if print then uart_putc d else []) ++ putdec_loop powers v' (started || print)

unfoldable pub uart_putdec : ℕ → List ℕ
uart_putdec v = putdec_loop pow10 v false

-- "<msg>0xNN\n"
unfoldable pub report_r1 : List ℕ → ℕ → List ℕ
report_r1 msg r = uart_puts msg ++ (uart_puts (codes "0x") ++ (uart_puthex r 2 ++ uart_putc b'\n'))
