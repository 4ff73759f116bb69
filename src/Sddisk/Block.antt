-- ===== src/Sddisk/Block.antt =====
-- bootbin/sddisk.c: the read and the write of a block of 512 bytes. bootloader/sddisk.c has the same
-- read, and reports by `uart_text`.
use criscv_hw.Prelude.{
  ℕ, zero, suc, ◌+◌, ◌*◌, ◌%◌, ◌^◌, Bool, true, false, not, ◌||◌, List, ◌==◌, if◌then◌else◌, store,
  bit_and,
}
use criscv_hw.Sddisk.Wire.{Card, Cmd, ◌>>=◌, ◌>>◌, pure, spi_xfer, print}
use criscv_hw.Sddisk.Message.{
  Message, cmd17_failed, bad_token, cmd24_failed, write_rejected, write_busy_timeout,
  write_status_error, printf_text, uart_text,
}
use criscv_hw.Sddisk.Protocol.{sd_select, sd_deselect, sd_cmd}

-- The result of the driver's functions: 0 or -1.
pub data Status : Type 0 where
  success failure : Status

-- How a report goes to the console.
abbrev pub Report : Type 0
Report = Message → List ℕ

abbrev pub token_tries : ℕ
token_tries = 100000

abbrev pub write_busy_tries : ℕ
write_busy_tries = 1000000

-- `sd_hc ? lba : lba * 512u`
unfoldable pub block_address : Bool → ℕ → ℕ
block_address sd_hc lba = if sd_hc then lba else lba * 512 % 2 ^ 32

-- `sd_deselect(); printf(...); return -1;`
unfoldable pub fail : Report → Card → Message → Cmd Status
fail report card msg = do sd_deselect card; print (report msg); pure failure

-- The wait for a byte other than 0xFF; `token` is the last byte read.
unfoldable pub token_loop : Card → ℕ → ℕ → Cmd ℕ
token_loop card zero token s = (token, s)
token_loop card (suc left) token s =
    let (token, t) = spi_xfer card 0xFF s in
    elim (token == 0xFF) [ true ↦ token_loop card left token t | false ↦ (token, t) ]

abbrev pub set_byte : ℕ → ℕ → Cmd (Unit {0})
set_byte a v s = (tt, record s { mem = store s.mem a v })

-- `for (i = 0; i < 512; i++) buf[i] = spi_xfer(0xFF);` with `left` rounds to go.
unfoldable pub data_loop : Card → ℕ → ℕ → ℕ → Cmd (Unit {0})
data_loop card zero i buf = pure tt
data_loop card (suc left) i buf = do
  b ← spi_xfer card 0xFF
  set_byte (buf + i) b
  data_loop card left (i + 1) buf

-- The data of a block, its checksum and the end of the command.
unfoldable pub read_data : Card → ℕ → Cmd Status
read_data card buf = do
  data_loop card 512 0 buf
  spi_xfer card 0xFF
  spi_xfer card 0xFF
  sd_deselect card
  pure success

unfoldable pub read_token : Report → Card → ℕ → Cmd Status
read_token report card buf = do
  token ← token_loop card token_tries 0xFF
  if token == 0xFE then read_data card buf else fail report card (bad_token token)

-- `sddisk_read_block`, for either way to report.
unfoldable pub read_block : Report → Card → ℕ → ℕ → Cmd Status
read_block report card lba buf s =
    (do
      sd_select card
      r ← sd_cmd card 17 (block_address s.sd_hc lba) 0x01
      if r == 0 then read_token report card buf else fail report card (cmd17_failed r))
      s

-- `for (i = 0; i < 512; i++) spi_xfer(buf[i]);` with `left` rounds to go.
unfoldable pub send_loop : Card → ℕ → ℕ → ℕ → Cmd (Unit {0})
send_loop card zero i buf s = (tt, s)
send_loop card (suc left) i buf s =
    (do spi_xfer card (s.mem (buf + i)); send_loop card left (i + 1) buf) s

-- The wait for the data response; `resp` is the last byte read.
unfoldable pub response_loop : Card → ℕ → ℕ → Cmd ℕ
response_loop card zero resp s = (resp, s)
response_loop card (suc left) resp s =
    let (resp, t) = spi_xfer card 0xFF s in
    elim (bit_and resp 0x11 == 0x01) [ true ↦ (resp, t) | false ↦ response_loop card left resp t ]

-- The wait for the card to program the block: whether it ended in time.
unfoldable pub busy_loop : Card → ℕ → Cmd Bool
busy_loop card zero s = (false, s)
busy_loop card (suc left) s =
    let (r, t) = spi_xfer card 0xFF s in
    elim (r == 0x00) [ true ↦ busy_loop card left t | false ↦ (true, t) ]

-- CMD13: whether the block was programmed.
unfoldable pub confirm : Report → Card → Cmd Status
confirm report card = do
  sd_select card
  r ← sd_cmd card 13 0 0x01
  status ← spi_xfer card 0xFF
  sd_deselect card
  if not (r == 0x00) || not (status == 0x00)
      then print (report (write_status_error r status)) >> pure failure
      else pure success

unfoldable pub write_busy : Report → Card → Cmd Status
write_busy report card = do
  ended ← busy_loop card write_busy_tries
  if ended then sd_deselect card >> confirm report card else fail report card write_busy_timeout

-- The block behind its token, and the card's answer.
unfoldable pub write_data : Report → Card → ℕ → Cmd Status
write_data report card buf = do
  spi_xfer card 0xFF
  spi_xfer card 0xFE
  send_loop card 512 0 buf
  spi_xfer card 0xFF
  spi_xfer card 0xFF
  resp ← response_loop card 10 0xFF
  if bit_and resp 0x1F == 0x05
      then write_busy report card
      else fail report card (write_rejected resp)

unfoldable pub write_block : Report → Card → ℕ → ℕ → Cmd Status
write_block report card lba buf s =
    (do
      sd_select card
      r ← sd_cmd card 24 (block_address s.sd_hc lba) 0x01
      if r == 0 then write_data report card buf else fail report card (cmd24_failed r))
      s

-- `sddisk_read_block` of bootbin/sddisk.c.
unfoldable pub sddisk_read_block : Card → ℕ → ℕ → Cmd Status
sddisk_read_block card lba buf = read_block printf_text card lba buf

-- `sddisk_read_block` of bootloader/sddisk.c.
unfoldable pub loader_sddisk_read_block : Card → ℕ → ℕ → Cmd Status
loader_sddisk_read_block card lba buf = read_block uart_text card lba buf

unfoldable pub sddisk_write_block : Card → ℕ → ℕ → Cmd Status
sddisk_write_block card lba buf = write_block printf_text card lba buf
