-- ===== src/Sddisk/Standalone.antt =====
-- The test programs under SDDISK_STANDALONE_TEST of bootbin/sddisk.c and bootloader/sddisk.c, which
-- print the text that begins at sector 1 of the card. They differ in how they print.
use criscv_hw.Prelude.{
  ℕ, zero, suc, ◌+◌, ◌*◌, ◌/◌, ◌%◌, ◌^◌, Bool, true, false, not, ◌&&◌, ◌||◌, List, [], ◌∷◌, ◌++◌,
  ◌==◌, leb, ltb, if◌then◌else◌,
}
use criscv_hw.Prelude.Text.{codes}
use criscv_hw.Sddisk.Wire.{Card, Cmd, ◌>>=◌, ◌>>◌, pure, print}
use criscv_hw.Sddisk.Uart.{hex_digit, uart_putc, uart_puts, uart_puthex, uart_putdec}
use criscv_hw.Sddisk.Message.{printf_text, uart_text, init_ok}
use criscv_hw.Sddisk.Block.{Status, success, failure, Report, read_block}
use criscv_hw.Sddisk.Init.{Greeting, init}

abbrev pub boot_sector : ℕ
boot_sector = 1

abbrev pub boot_sectors : ℕ
boot_sectors = 8

-- How a program prints: a byte, a text, the low hexadecimal digits of a number, and a number in
-- decimal, and how the driver below it reports.
pub record Output : Type 0 where
  pub put_char : ℕ → List ℕ
  pub put_text : List ℕ → List ℕ
  pub put_hex : ℕ → ℕ → List ℕ
  pub put_dec : ℕ → List ℕ
  pub report : Report
  pub greeting : Greeting

-- `c >= 0x20 && c < 0x7F`
abbrev pub is_print : ℕ → Bool
is_print c = leb 0x20 c && ltb c 0x7F

-- `c == '\n' || c == '\r' || c == '\t' || (c >= 0x20 && c < 0x7F)`
abbrev pub is_text : ℕ → Bool
is_text c = c == b'\n' || c == b'\r' || c == b'\t' || is_print c

module _ (out : Output) (card : Card) (sector_buf : ℕ) where
  abbrev pub say : List ℕ → Cmd (Unit {0})
  say text = print (out.put_text text)

  -- The sixteen bytes from `i` on in hexadecimal, with `left` to go.
  unfoldable pub hex_cells : ℕ → ℕ → Cmd (Unit {0})
  hex_cells zero i s = (tt, s)
  hex_cells (suc left) i s =
      (do
        print (out.put_hex (s.mem (sector_buf + i)) 2 ++ out.put_char b' ')
        hex_cells left (i + 1))
        s

  -- The same bytes as characters.
  unfoldable pub char_cells : ℕ → ℕ → Cmd (Unit {0})
  char_cells zero i s = (tt, s)
  char_cells (suc left) i s =
      let c = s.mem (sector_buf + i) in
      (do print (out.put_char (if is_print c then c else b'.')); char_cells left (i + 1)) s

  -- The lines of the dump, with `left` to go.
  unfoldable pub dump_lines : ℕ → ℕ → Cmd (Unit {0})
  dump_lines zero i = pure tt
  dump_lines (suc left) i = do
    print (out.put_hex i 4)
    say (codes ": ")
    hex_cells 16 i
    print (out.put_char b' ')
    char_cells 16 i
    print (out.put_char b'\n')
    dump_lines left (i + 16)

  unfoldable pub hexdump : ℕ → Cmd (Unit {0})
  hexdump n = dump_lines ((n + 15) / 16) 0

  -- The text of a sector, with `left` bytes to go from `i` on: whether it has ended.
  unfoldable pub text_loop : ℕ → ℕ → Cmd Bool
  text_loop zero i s = (false, s)
  text_loop (suc left) i s =
      let c = s.mem (sector_buf + i) in
      elim (c == 0) [
        | true ↦ (true, s)
        | false ↦ text_loop left (i + 1) (print (out.put_char (if is_text c then c else b'.')) s).1
      ]

  -- What stands before the text of the first sector.
  unfoldable pub preview : ℕ → Cmd (Unit {0})
  preview n =
      if n == 0
      then (do
        say (codes "First 64 bytes of sector ")
        print (out.put_dec boot_sector)
        say (codes ":\n")
        hexdump 64
        say (codes "--- boot.bin contents ---\n"))
      else pure tt

  -- The rest of a round, by how the read of sector `boot_sector + n` went: whether the loop goes on.
  unfoldable pub after_read : ℕ → Status → Cmd Bool
  after_read n success = do preview n; done ← text_loop 512 0; pure (not done)
  after_read n failure = do
    say (codes "Read failed at sector ")
    print (out.put_dec (boot_sector + n))
    print (out.put_char b'\n')
    pure false

  -- `for (s = 0; s < BOOT_SECTORS && !done; s++)` with `left` rounds to go.
  unfoldable pub sector_loop : ℕ → ℕ → Cmd (Unit {0})
  sector_loop zero n s = (tt, s)
  sector_loop (suc left) n s =
      let (more, t) =
        (read_block out.report card (boot_sector + n) sector_buf >>= after_read n) s in
      elim more [ true ↦ sector_loop left (n + 1) t | false ↦ (tt, t) ]

  unfoldable pub after_init : Status → Cmd (Unit {0})
  after_init success = do sector_loop boot_sectors 0; say (codes "\n--- end ---\n")
  after_init failure = say (codes "SD init failed\n")

  -- Up to the endless loop that either branch ends in.
  unfoldable pub main : Cmd (Unit {0})
  main = do
    say (codes "SD boot.bin test\n")
    status ← init out.report out.greeting card
    after_init status

-- What `printf` makes of "%02X" and "%04X": `digits` digits, for a number that has no more.
unfoldable pub hex_text : ℕ → ℕ → List ℕ
hex_text v zero = []
hex_text v (suc digits) = hex_digit (v / 2 ^ (digits * 4) % 16) ∷ hex_text v digits

-- The C library, for the second stage. What it makes of "%u" are the digits of `uart_putdec`.
abbrev pub printf_output : Output
printf_output = record {
  put_char = λ c. c ∷ [];
  put_text = λ text. text;
  put_hex = hex_text;
  put_dec = uart_putdec;
  report = printf_text;
  greeting = λ v2 hc. printf_text (init_ok v2 hc);
}

-- The routines of bootloader/sddisk.c.
abbrev pub uart_output : Output
uart_output = record {
  put_char = uart_putc;
  put_text = uart_puts;
  put_hex = uart_puthex;
  put_dec = uart_putdec;
  report = uart_text;
  greeting = λ v2 hc. [];
}

-- `main` of bootbin/sddisk.c and of bootloader/sddisk.c.
unfoldable pub test_main : Card → ℕ → Cmd (Unit {0})
test_main card sector_buf = main printf_output card sector_buf

unfoldable pub loader_test_main : Card → ℕ → Cmd (Unit {0})
loader_test_main card sector_buf = main uart_output card sector_buf

-- `hexdump` of bootloader/sddisk.c.
unfoldable pub loader_hexdump : Card → ℕ → ℕ → Cmd (Unit {0})
loader_hexdump card p n = hexdump uart_output card p n
