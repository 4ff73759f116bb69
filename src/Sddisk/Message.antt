-- ===== src/Sddisk/Message.antt =====
-- The reports of the two drivers: by `printf` in bootbin/sddisk.c, straight to the UART in
-- bootloader/sddisk.c.
use criscv_hw.Prelude.{ℕ, ◌/◌, ◌%◌, Bool, List, [], ◌∷◌, ◌++◌, if◌then◌else◌}
use criscv_hw.Prelude.Text.{codes}
use criscv_hw.Sddisk.Uart.{uart_putc, uart_puts, uart_puthex, hex_digit, report_r1}

pub data Message : Type 0 where
  cmd0_failed : ℕ → Message
  cmd8_bad_echo : ℕ → ℕ → Message
  acmd41_timeout : ℕ → Message
  cmd16_failed : ℕ → Message
  init_ok : Bool → Bool → Message
  cmd17_failed : ℕ → Message
  bad_token : ℕ → Message
  cmd24_failed : ℕ → Message
  write_rejected : ℕ → Message
  write_busy_timeout : Message
  write_status_error : ℕ → ℕ → Message

-- What `printf` makes of "%02X" and a byte.
abbrev pub hex2 : ℕ → List ℕ
hex2 v = hex_digit (v / 16 % 16) ∷ hex_digit (v % 16) ∷ []

abbrev pub newline : List ℕ
newline = b'\n' ∷ []

-- `!v2 ? "SD v1" : (sd_hc ? "SDHC/SDXC" : "SDSC v2")`
abbrev pub card_kind : Bool → Bool → List ℕ
card_kind v2 hc = if v2 then (if hc then codes "SDHC/SDXC" else codes "SDSC v2") else codes "SD v1"

-- The text of a report in bootbin/sddisk.c.
unfoldable pub printf_text : Message → List ℕ
printf_text (cmd0_failed r) = codes "CMD0 failed, R1=0x" ++ (hex2 r ++ newline)
printf_text (cmd8_bad_echo a b) =
    codes "CMD8 bad echo " ++ (hex2 a ++ (codes " " ++ (hex2 b ++ newline)))
printf_text (acmd41_timeout r) = codes "ACMD41 timeout, R1=0x" ++ (hex2 r ++ newline)
printf_text (cmd16_failed r) = codes "CMD16 failed, R1=0x" ++ (hex2 r ++ newline)
printf_text (init_ok v2 hc) =
    codes "SD init OK: " ++ (card_kind v2 hc ++ (codes " card" ++ newline))
printf_text (cmd17_failed r) = codes "CMD17 failed, R1=0x" ++ (hex2 r ++ newline)
printf_text (bad_token t) = codes "Bad data token 0x" ++ (hex2 t ++ newline)
printf_text (cmd24_failed r) = codes "CMD24 failed, R1=0x" ++ (hex2 r ++ newline)
printf_text (write_rejected r) = codes "Write rejected, data resp=0x" ++ (hex2 r ++ newline)
printf_text write_busy_timeout = codes "Write busy timeout" ++ newline
printf_text (write_status_error r t) =
    codes "Write status error, R1=0x" ++ (hex2 r ++ (codes " R2=0x" ++ (hex2 t ++ newline)))

-- The text of a report in bootloader/sddisk.c, which has no writes and is silent on success.
unfoldable pub uart_text : Message → List ℕ
uart_text (cmd0_failed r) = report_r1 (codes "CMD0 failed, R1=") r
uart_text (cmd8_bad_echo a b) =
    uart_puts (codes "CMD8 bad echo ")
    ++ (uart_puthex a 2 ++ (uart_putc b' ' ++ (uart_puthex b 2 ++ uart_putc b'\n')))
uart_text (acmd41_timeout r) = report_r1 (codes "ACMD41 timeout, R1=") r
uart_text (cmd16_failed r) = report_r1 (codes "CMD16 failed, R1=") r
uart_text (cmd17_failed r) = report_r1 (codes "CMD17 failed, R1=") r
uart_text (bad_token t) = report_r1 (codes "Bad data token ") t
uart_text _ = []
