-- ===== src/Sddisk/Protocol.antt =====
-- bootbin/sddisk.c and bootloader/sddisk.c: the commands of the SD protocol in SPI mode.
use criscv_hw.Prelude.{ℕ, zero, suc, ◌/◌, ◌%◌, ◌^◌, true, false, ◌==◌, bit_and, bit_or}
use criscv_hw.Sddisk.Wire.{Card, Cmd, ◌>>◌, pure, spi_xfer, spi_cs}

abbrev pub ready_tries : ℕ
ready_tries = 50000

-- The loop of `sd_select`, with `left` tries to go.
unfoldable pub ready_loop : Card → ℕ → Cmd (Unit {0})
ready_loop card zero s = (tt, s)
ready_loop card (suc left) s =
    let (r, t) = spi_xfer card 0xFF s in
    elim (r == 0xFF) [ true ↦ (tt, t) | false ↦ ready_loop card left t ]

unfoldable pub sd_select : Card → Cmd (Unit {0})
sd_select card s = ready_loop card ready_tries (spi_cs 1 s)

unfoldable pub sd_deselect : Card → Cmd (Unit {0})
sd_deselect card s = (spi_xfer card 0xFF >> pure tt) (spi_cs 0 s)

-- The loop that waits for R1, whose bit 7 is clear; `r` is the last byte read.
unfoldable pub r1_loop : Card → ℕ → ℕ → Cmd ℕ
r1_loop card zero r s = (r, s)
r1_loop card (suc left) r s =
    let (r, t) = spi_xfer card 0xFF s in
    elim (bit_and r 0x80 == 0) [ true ↦ (r, t) | false ↦ r1_loop card left r t ]

-- The six bytes of a command.
unfoldable pub send_frame : Card → ℕ → ℕ → ℕ → Cmd (Unit {0})
send_frame card cmd arg crc = do
  spi_xfer card (bit_or 0x40 cmd % 2 ^ 8)
  spi_xfer card (arg / 2 ^ 24 % 2 ^ 8)
  spi_xfer card (arg / 2 ^ 16 % 2 ^ 8)
  spi_xfer card (arg / 2 ^ 8 % 2 ^ 8)
  spi_xfer card (arg % 2 ^ 8)
  spi_xfer card crc
  pure tt

unfoldable pub sd_cmd : Card → ℕ → ℕ → ℕ → Cmd ℕ
sd_cmd card cmd arg crc = do send_frame card cmd arg crc; r1_loop card 10 0xFF
