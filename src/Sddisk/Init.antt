-- ===== src/Sddisk/Init.antt =====
-- bootbin/sddisk.c: `sddisk_init`. bootloader/sddisk.c has the same, but for the report of success.
use criscv_hw.Prelude.{
  ℕ, zero, suc, Bool, true, false, not, ◌&&◌, ◌||◌, List, [], ◌==◌, if◌then◌else◌, bit_and,
}
use criscv_hw.Sddisk.Wire.{Card, Cmd, ◌>>=◌, ◌>>◌, pure, spi_xfer, spi_cs, spi_set_speed, print}
use criscv_hw.Sddisk.Message.{
  cmd0_failed, cmd8_bad_echo, acmd41_timeout, cmd16_failed, init_ok, printf_text, uart_text,
}
use criscv_hw.Sddisk.Protocol.{sd_select, sd_deselect, sd_cmd}
use criscv_hw.Sddisk.Block.{Status, success, failure, Report, fail}

abbrev pub acmd41_tries : ℕ
acmd41_tries = 20000

-- `for (i = 0; i < 10; i++) spi_xfer(0xFF);`
unfoldable pub clocks : Card → ℕ → Cmd (Unit {0})
clocks card zero = pure tt
clocks card (suc left) = do spi_xfer card 0xFF; clocks card left

-- A command between `sd_select` and `sd_deselect`.
unfoldable pub command : Card → ℕ → ℕ → ℕ → Cmd ℕ
command card cmd arg crc = do sd_select card; r ← sd_cmd card cmd arg crc; sd_deselect card; pure r

-- The four bytes `resp[0]` to `resp[3]`.
abbrev pub Response : Type 0
Response = ℕ × ℕ × ℕ × ℕ

unfoldable pub read_response : Card → Cmd Response
read_response card = do
  a ← spi_xfer card 0xFF
  b ← spi_xfer card 0xFF
  c ← spi_xfer card 0xFF
  d ← spi_xfer card 0xFF
  pure (a, b, c, d)

-- CMD55 and CMD41, which together are ACMD41. The HCS bit is set for version 2 cards.
unfoldable pub acmd41 : Card → Bool → Cmd ℕ
acmd41 card v2 = do
  sd_select card
  sd_cmd card 55 0 0x01
  r ← sd_cmd card 41 (if v2 then 0x40000000 else 0) 0x01
  sd_deselect card
  pure r

-- The tries of ACMD41; `r` is the last R1.
unfoldable pub acmd41_loop : Card → Bool → ℕ → ℕ → Cmd ℕ
acmd41_loop card v2 zero r s = (r, s)
acmd41_loop card v2 (suc left) r s =
    let (r, t) = acmd41 card v2 s in
    elim (r == 0x00) [ true ↦ (r, t) | false ↦ acmd41_loop card v2 left r t ]

abbrev pub set_hc : Bool → Cmd (Unit {0})
set_hc hc s = (tt, record s { sd_hc = hc })

-- CMD58: the block-addressing bit of the card's register.
unfoldable pub read_ocr : Card → Cmd (Unit {0})
read_ocr card = do
  sd_select card
  r ← sd_cmd card 58 0 0x01
  resp ← read_response card
  sd_deselect card
  if r == 0x00 && not (bit_and resp.0 0x40 == 0) then set_hc true else pure tt

abbrev pub get_hc : Cmd Bool
get_hc s = (s.sd_hc, s)

abbrev set_speed : ℕ → Cmd (Unit {0})
set_speed fast s = (tt, spi_set_speed fast s)

-- What the driver says of a card that is ready.
abbrev pub Greeting : Type 0
Greeting = Bool → Bool → List ℕ

module _ (report : Report) (greeting : Greeting) (card : Card) where
  unfoldable pub init_finish : Bool → Cmd Status
  init_finish v2 = do hc ← get_hc; set_speed 1; print (greeting v2 hc); pure success

  -- CMD16 makes the blocks of a byte-addressed card 512 bytes long.
  unfoldable pub init_block_size : Bool → Cmd Status
  init_block_size v2 = do
    hc ← get_hc
    if hc then init_finish v2 else do
      r ← command card 16 512 0x01
      if r == 0x00 then init_finish v2 else print (report (cmd16_failed r)) >> pure failure

  unfoldable pub init_addressing : Bool → Cmd Status
  init_addressing v2 = do set_hc false; (if v2 then read_ocr card else pure tt); init_block_size v2

  unfoldable pub init_acmd41 : Bool → Cmd Status
  init_acmd41 v2 = do
    r ← acmd41_loop card v2 acmd41_tries 0x01
    if r == 0x00 then init_addressing v2 else print (report (acmd41_timeout r)) >> pure failure

  -- The voltage and the pattern that a version 2 card sends back.
  unfoldable pub check_echo : Cmd Status
  check_echo = do
    resp ← read_response card
    if not (bit_and resp.2 0x0F == 0x01) || not (resp.3 == 0xAA)
        then fail report card (cmd8_bad_echo resp.2 resp.3)
        else sd_deselect card >> init_acmd41 true

  -- CMD8: a version 2 card echoes the voltage and the pattern.
  unfoldable pub init_cmd8 : Cmd Status
  init_cmd8 = do
    sd_select card
    r ← sd_cmd card 8 0x000001AA 0x87
    if r == 0x01 then check_echo else sd_deselect card >> init_acmd41 false

  unfoldable pub init : Cmd Status
  init s =
      (do
        clocks card 10
        r ← command card 0 0 0x95
        if r == 0x01 then init_cmd8 else print (report (cmd0_failed r)) >> pure failure)
        (spi_cs 0 (spi_set_speed 0 s))

-- `sddisk_init` of bootbin/sddisk.c.
unfoldable pub sddisk_init : Card → Cmd Status
sddisk_init card = init printf_text (λ v2 hc. printf_text (init_ok v2 hc)) card

-- `sddisk_init` of bootloader/sddisk.c.
unfoldable pub loader_sddisk_init : Card → Cmd Status
loader_sddisk_init card = init uart_text (λ v2 hc. []) card
