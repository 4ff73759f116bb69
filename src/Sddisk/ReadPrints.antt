-- ===== src/Sddisk/ReadPrints.antt =====
-- What a read of a block prints, in bootbin/sddisk.c and bootloader/sddisk.c: nothing, or one report.
use criscv_hw.Prelude.{
  ℕ, zero, suc, ◌+◌, ◌≡◌, refl, ap, ◌∙◌, inl, inr, ◌++◌, List, ◌==◌, All, Bool-cases, reverse, [],
}
use criscv_hw.Sddisk.Wire.{Card, Sd, spi_xfer, print}
use criscv_hw.Sddisk.Message.{Message, cmd17_failed, bad_token}
use criscv_hw.Sddisk.Protocol.{sd_select, sd_deselect, sd_cmd}
use criscv_hw.Sddisk.Block.{
  fail, token_tries, token_loop, data_loop, read_data, read_token, block_address, read_block,
}
use criscv_hw.Sddisk.Polls.{token_loop-IsWait}
use criscv_hw.Sddisk.Device.{read_block-kept}
use criscv_hw.Sddisk.Quiet.{IsQuiet, select_cmd-IsQuiet}
use criscv_hw.Sddisk.Standalone.{Output}
use criscv_hw.Sddisk.Plain.{IsText, Prints, reverse-IsText}
use criscv_hw.Sddisk.Printing.{IsClean}

data_loop-console :
    (card : Card) (left i buf : ℕ) (s : Sd) → (data_loop card left i buf s).1.console ≡ s.console
unfolding data_loop spi_xfer
data_loop-console card zero i buf s = refl
data_loop-console card (suc left) i buf s = data_loop-console card left (i + 1) buf _

module _ (out : Output) (clean : IsClean out) (card : Card) (buf : ℕ) where
  -- What a read prints: nothing, or one report.
  abbrev Reports : Sd → Sd → Type 0
  Reports s t = (text : List ℕ) × All IsText text × (t.console ≡ text ++ s.console)

  fail-Reports :
      (msg : Message) (s t : Sd) → t.console ≡ s.console → Reports s (fail out.report card msg t).1
  unfolding fail sd_deselect spi_xfer print
  fail-Reports msg s t q = (
    reverse (out.report msg),
    reverse-IsText (out.report msg) (clean.report_text msg),
    ap (λ c. reverse (out.report msg) ++ c) q,
  )

  read_token-Reports :
      (s t : Sd) → t.console ≡ s.console → Reports s (read_token out.report card buf t).1
  unfolding read_token read_data sd_deselect spi_xfer
  read_token-Reports s t q = elim (Bool-cases (token.0 == 0xFE)) [
    | inl e ↦ rw (read_token, e) ([], tt, data_loop-console card 512 0 buf token.1 ∙ quiet)
    | inr e ↦ rw (read_token, e) (fail-Reports (bad_token token.0) s token.1 quiet)
  ]
    where
      token : ℕ × Sd
      token = token_loop card token_tries 0xFF t

      quiet : token.1.console ≡ s.console
      quiet = ap (λ (u : Sd). u.console) (token_loop-IsWait card token_tries 0xFF t).state ∙ q

  read_block-Reports : (lba : ℕ) (s : Sd) → Reports s (read_block out.report card lba buf s).1
  unfolding read_block
  read_block-Reports lba s = elim (Bool-cases (answered.0 == 0)) [
    | inl e ↦ rw (read_block, e) (read_token-Reports s answered.1 quiet.console_eq)
    | inr e ↦
        rw (read_block, e) (fail-Reports (cmd17_failed answered.0) s answered.1 quiet.console_eq)
  ]
    where
      answered : ℕ × Sd
      answered = sd_cmd card 17 (block_address s.sd_hc lba) 0x01 (sd_select card s).1

      quiet : IsQuiet s answered.1
      quiet = select_cmd-IsQuiet card 17 (block_address s.sd_hc lba) 0x01 s

  pub read_block-Prints : (lba : ℕ) (s : Sd) → Prints buf s (read_block out.report card lba buf s).1
  read_block-Prints lba s =
      let (text, p, e) = read_block-Reports lba s in
      record {
        said = text;
        said_text = p;
        console_eq = e;
        kept = read_block-kept out.report card lba buf s;
      }
