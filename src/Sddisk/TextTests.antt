-- ===== src/Sddisk/TextTests.antt =====
-- The test program on a card whose first sector begins with a text.
use criscv_hw.Prelude.{
  ℕ, zero, suc, [], ◌∷◌, ◌≡◌, refl, List, length, ◌==◌, ◌||◌, if◌then◌else◌, store, reverse,
}
use criscv_hw.Prelude.Text.{codes}
use criscv_hw.Sddisk.Wire.{Card, Sd, spi_xfer, print}
use criscv_hw.Sddisk.Protocol.{sd_cmd, r1_loop, send_frame, sd_select, ready_loop, sd_deselect}
use criscv_hw.Sddisk.Block.{read_block, read_token, token_loop, read_data, data_loop}
use criscv_hw.Sddisk.Init.{
  clocks, command, read_response, acmd41, acmd41_loop, read_ocr, init_finish, init_block_size,
  init_addressing, init_acmd41, check_echo, init_cmd8, init,
}
use criscv_hw.Sddisk.Standalone.{
  hex_cells, char_cells, dump_lines, hexdump, text_loop, preview, after_read, sector_loop,
  after_init, main, hex_text, printf_output, test_main, loader_test_main,
}
use criscv_hw.Sddisk.Plain.{Prints}
use criscv_hw.Sddisk.Shown.{test_main-Prints}
use criscv_hw.Sddisk.Texts.{has_nul, until_nul, shown, bytes_at, says, text_loop-shown}
use criscv_hw.Sddisk.Tests.{sd, blocks_card}

-- It starts like `blocks_card`, and then sends a sector with "Hi" and a NUL.
abbrev text_card : Card
text_card sent =
    let n = length sent in
    if n == 69 || n == 73
    then 0
    else if n == 70
    then 0xFE
    else if n == 71
    then b'H'
    else if n == 72
    then b'i'
    else blocks_card sent

-- The last bytes on the console, newest first.
abbrev newest : ℕ → List ℕ → List ℕ
newest zero cs = []
newest (suc n) [] = []
newest (suc n) (c ∷ cs) = c ∷ newest n cs

prints_hi : newest 16 (test_main text_card 64 sd).1.console ≡ reverse (codes "\nHi\n--- end ---\n")
unfolding test_main main after_init sector_loop after_read preview hexdump dump_lines char_cells
    hex_cells text_loop hex_text init clocks command read_response acmd41 acmd41_loop read_ocr
    init_finish init_block_size init_addressing init_acmd41 check_echo init_cmd8 sd_cmd r1_loop
    spi_xfer send_frame sd_select ready_loop sd_deselect print read_block read_token token_loop
    read_data data_loop store
prints_hi = refl

test_main-Prints_example :
    Prints 64 sd (test_main text_card 64 sd).1 × Prints 64 sd (loader_test_main text_card 64 sd).1
test_main-Prints_example = test_main-Prints text_card 64 sd

-- A sector with 'H', a byte that is no text, a line feed and a NUL.
abbrev holding : Sd
holding = record sd {
  mem = λ x. if x == 64 then b'H' else if x == 65 then 0x80 else if x == 66 then b'\n' else 0;
}

holding-shown :
    shown printf_output (until_nul (bytes_at holding.mem 64 512)) ≡ b'H' ∷ b'.' ∷ b'\n' ∷ []
unfolding shown until_nul
holding-shown = refl

text_loop-shown_example :
    let bytes = bytes_at holding.mem 64 512 in
    text_loop printf_output text_card 64 512 0 holding
    ≡ (has_nul bytes, says (shown printf_output (until_nul bytes)) holding)
text_loop-shown_example = text_loop-shown printf_output text_card 64 512 0 holding
