-- ===== src/Sddisk/Tests.antt =====
-- A read from a card, a write, and a start.
use criscv_hw.Prelude.{◌≡◌, refl, true, [], length, ◌==◌, ◌||◌, if◌then◌else◌, arith, ltb, store}
use criscv_hw.Sddisk.Wire.{Card, Sd, spi_xfer, print}
use criscv_hw.Sddisk.Message.{printf_text}
use criscv_hw.Sddisk.Block.{
  success, write_block, send_loop, write_data, response_loop, write_busy, busy_loop, confirm,
  read_block, sddisk_read_block, read_token, token_loop, read_data, data_loop,
}
use criscv_hw.Sddisk.Protocol.{sd_cmd, r1_loop, send_frame, sd_select, ready_loop, sd_deselect}
use criscv_hw.Sddisk.Init.{
  clocks, command, read_response, acmd41, acmd41_loop, read_ocr, init_finish, init_block_size,
  init_addressing, init_acmd41, check_echo, init_cmd8, init, sddisk_init,
}
use criscv_hw.Sddisk.Uart.{uart_putdec}
use criscv_hw.Sddisk.Decimal.{read_dec, read_dec-uart_putdec}
use criscv_hw.Sddisk.Written.{WriteOutcome}
use criscv_hw.Sddisk.Writes.{write_block-WriteOutcome}

-- It is ready at once, answers 0 to the command, then sends its token and the numbers 12, 13, ...
abbrev pub counting : Card
counting sent =
    let n = length sent in
    if n == 8 then 0 else if n == 11 then 0xFE else if ltb n 11 then 0xFF else n

abbrev pub sd : Sd
sd = record { wire = []; sd_hc = true; mem = λ x. 0; console = [] }

-- The run takes the branch of a block that is read.
read_block_mem : (sddisk_read_block counting 5 64 sd).1.mem 66 ≡ 14
unfolding sddisk_read_block read_block sd_cmd r1_loop spi_xfer send_frame sd_select ready_loop
    read_token token_loop read_data data_loop sd_deselect store
read_block_mem = refl

-- It answers 0 to the command, accepts the block, and confirms it.
abbrev accepting : Card
accepting sent =
    let n = length sent in
    if n == 8
    then 0
    else if n == 525
    then 0xE5
    else if n == 535
    then 0
    else if n == 536
    then 0
    else 0xFF

accepting-success : (write_block printf_text accepting 5 64 sd).0 ≡ success
unfolding write_block sd_cmd r1_loop spi_xfer send_frame sd_select ready_loop write_data send_loop
    response_loop write_busy busy_loop confirm sd_deselect
accepting-success = refl

write_block-WriteOutcome_example :
    WriteOutcome accepting 5 64 sd (write_block printf_text accepting 5 64 sd)
write_block-WriteOutcome_example = write_block-WriteOutcome printf_text accepting 5 64 sd

read_dec-uart_putdec_example : read_dec 0 (uart_putdec 4294967295) ≡ 4294967295
read_dec-uart_putdec_example = read_dec-uart_putdec 4294967295 (omega arith)

-- It starts as a card of version 2 with block addresses: it echoes CMD8, is done at the first ACMD41,
-- and has the block bit in its register.
abbrev pub blocks_card : Card
blocks_card sent =
    let n = length sent in
    if n == 18 || n == 27 || n == 30
    then 1
    else if n == 31
    then 0xAA
    else if n == 40 || n == 47 || n == 56
    then 0
    else if n == 57
    then 0x40
    else 0xFF

blocks_card-success : (sddisk_init blocks_card sd).0 ≡ success
unfolding sddisk_init init clocks command read_response acmd41 acmd41_loop read_ocr init_finish
    init_block_size init_addressing init_acmd41 check_echo init_cmd8 sd_cmd r1_loop spi_xfer
    send_frame sd_select ready_loop sd_deselect print
blocks_card-success = refl
