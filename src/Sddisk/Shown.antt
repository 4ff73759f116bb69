-- ===== src/Sddisk/Shown.antt =====
-- What the test programs of bootbin/sddisk.c and bootloader/sddisk.c do to a terminal and to the memory,
-- whatever the card sends.
use criscv_hw.Prelude.{
  ℕ, zero, suc, ◌+◌, ◌≡◌, refl, ap, inl, inr, Bool, true, false, ◌++◌, List, ◌==◌, if◌then◌else◌,
  arith, Bool-cases, reverse,
}
use criscv_hw.Prelude.Text.{codes}
use criscv_hw.Sddisk.Wire.{Card, Sd, print}
use criscv_hw.Sddisk.Block.{Status, success, failure, read_block}
use criscv_hw.Sddisk.Init.{init}
use criscv_hw.Sddisk.Ready.{Started, init-Started}
use criscv_hw.Sddisk.Standalone.{
  Output, boot_sector, is_print, is_text, hex_cells, char_cells, dump_lines, hexdump, text_loop,
  preview, after_read, sector_loop, after_init, main, test_main, loader_test_main, printf_output,
  uart_output,
}
use criscv_hw.Sddisk.Plain.{
  IsText, all_text, all_text-IsText, append-IsText, Prints, Prints-none, Prints-trans, Prints-text,
  reverse-IsText,
}
use criscv_hw.Sddisk.Printing.{IsClean, printf_output-IsClean, uart_output-IsClean}
use criscv_hw.Sddisk.ReadPrints.{read_block-Prints}

-- A byte of the buffer, or a point.
dotted-IsText : (test : Bool) (c : ℕ) → (test ≡ true → IsText c) → IsText (if test then c else b'.')
dotted-IsText true c h = h refl
dotted-IsText false c h = refl

module _ (out : Output) (clean : IsClean out) (card : Card) (buf : ℕ) where
  said :
      (text : List ℕ)
      → all_text text ≡ true
      → (s : Sd) → Prints buf s (print (out.put_text text) s).1
  unfolding print
  said text e s =
      Prints-text buf s.mem s.console (out.put_text text)
        (clean.text_text text (all_text-IsText text e))

  hex_cells-Prints : (left i : ℕ) (s : Sd) → Prints buf s (hex_cells out card buf left i s).1
  unfolding hex_cells print
  hex_cells-Prints zero i s = Prints-none buf s.mem s.console
  hex_cells-Prints (suc left) i s =
      let cell = out.put_hex (s.mem (buf + i)) 2 ++ out.put_char b' ' in
      Prints-trans
        (Prints-text buf s.mem s.console cell (
          append-IsText (out.put_hex (s.mem (buf + i)) 2) (out.put_char b' ')
            (clean.hex_is_text (s.mem (buf + i)) 2) (clean.char_text b' ' refl)))
        (hex_cells-Prints left (i + 1) (print cell s).1)

  char_cells-Prints : (left i : ℕ) (s : Sd) → Prints buf s (char_cells out card buf left i s).1
  unfolding char_cells print
  char_cells-Prints zero i s = Prints-none buf s.mem s.console
  char_cells-Prints (suc left) i s =
      let c = s.mem (buf + i) in
      let cell = out.put_char (if is_print c then c else b'.') in
      Prints-trans
        (Prints-text buf s.mem s.console cell (
          clean.char_text (if is_print c then c else b'.')
            (dotted-IsText (is_print c) c (λ h. ground (arith, h)))))
        (char_cells-Prints left (i + 1) (print cell s).1)

  text_loop-Prints : (left i : ℕ) (s : Sd) → Prints buf s (text_loop out card buf left i s).1
  unfolding text_loop print
  text_loop-Prints zero i s = Prints-none buf s.mem s.console
  text_loop-Prints (suc left) i s = elim (Bool-cases (s.mem (buf + i) == 0)) [
    | inl e ↦ rw (text_loop, e) (Prints-none buf s.mem s.console)
    | inr e ↦
        rw (text_loop, e)
          (Prints-trans
            (Prints-text buf s.mem s.console cell (
              clean.char_text (if is_text c then c else b'.')
                (dotted-IsText (is_text c) c (λ h. ground (arith, h)))))
            (text_loop-Prints left (i + 1) (print cell s).1))
  ]
    where
      c : ℕ
      c = s.mem (buf + i)

      cell : List ℕ
      cell = out.put_char (if is_text c then c else b'.')

  dump_lines-Prints : (left i : ℕ) (s : Sd) → Prints buf s (dump_lines out card buf left i s).1
  unfolding dump_lines print all_text
  dump_lines-Prints zero i s = Prints-none buf s.mem s.console
  dump_lines-Prints (suc left) i s =
      let s1 : Sd = (print (out.put_hex i 4) s).1 in
      let s2 : Sd = (print (out.put_text (codes ": ")) s1).1 in
      let s3 : Sd = (hex_cells out card buf 16 i s2).1 in
      let s4 : Sd = (print (out.put_char b' ') s3).1 in
      let s5 : Sd = (char_cells out card buf 16 i s4).1 in
      let s6 : Sd = (print (out.put_char b'\n') s5).1 in
      Prints-trans (Prints-text buf s.mem s.console (out.put_hex i 4) (clean.hex_is_text i 4)) (
        Prints-trans (said (codes ": ") refl s1) (
          Prints-trans (hex_cells-Prints 16 i s2) (
            Prints-trans
              (Prints-text buf s3.mem s3.console (out.put_char b' ') (clean.char_text b' ' refl))
              (Prints-trans (char_cells-Prints 16 i s4) (
                Prints-trans
                  (Prints-text buf s5.mem s5.console (out.put_char b'\n')
                    (clean.char_text b'\n' refl))
                  (dump_lines-Prints left (i + 16) s6))))))

  preview-Prints : (n : ℕ) (s : Sd) → Prints buf s (preview out card buf n s).1
  unfolding preview hexdump print all_text
  preview-Prints n s = elim (Bool-cases (n == 0)) [
    | inl e ↦
        rw (preview, e)
          (Prints-trans (said (codes "First 64 bytes of sector ") refl s) (
            Prints-trans
              (Prints-text buf s1.mem s1.console (out.put_dec boot_sector)
                (clean.dec_text boot_sector))
              (Prints-trans (said (codes ":\n") refl s2) (
                Prints-trans (dump_lines-Prints 4 0 s3)
                  (said (codes "--- boot.bin contents ---\n") refl s4)))))
    | inr e ↦ rw (preview, e) (Prints-none buf s.mem s.console)
  ]
    where
      s1 : Sd
      s1 = (print (out.put_text (codes "First 64 bytes of sector ")) s).1

      s2 : Sd
      s2 = (print (out.put_dec boot_sector) s1).1

      s3 : Sd
      s3 = (print (out.put_text (codes ":\n")) s2).1

      s4 : Sd
      s4 = (dump_lines out card buf 4 0 s3).1

  after_read-Prints :
      (n : ℕ) (status : Status) (s : Sd) → Prints buf s (after_read out card buf n status s).1
  unfolding after_read print all_text
  after_read-Prints n success s =
      Prints-trans (preview-Prints n s) (text_loop-Prints 512 0 (preview out card buf n s).1)
  after_read-Prints n failure s =
      let s1 : Sd = (print (out.put_text (codes "Read failed at sector ")) s).1 in
      let s2 : Sd = (print (out.put_dec (boot_sector + n)) s1).1 in
      Prints-trans (said (codes "Read failed at sector ") refl s) (
        Prints-trans
          (Prints-text buf s1.mem s1.console (out.put_dec (boot_sector + n))
            (clean.dec_text (boot_sector + n)))
          (Prints-text buf s2.mem s2.console (out.put_char b'\n') (clean.char_text b'\n' refl)))

  sector_loop-Prints : (left n : ℕ) (s : Sd) → Prints buf s (sector_loop out card buf left n s).1
  unfolding sector_loop
  sector_loop-Prints zero n s = Prints-none buf s.mem s.console
  sector_loop-Prints (suc left) n s = elim (Bool-cases after.0) [
    | inl e ↦ rw (sector_loop, e) (Prints-trans here (sector_loop-Prints left (n + 1) after.1))
    | inr e ↦ rw (sector_loop, e) here
  ]
    where
      read : Status × Sd
      read = read_block out.report card (boot_sector + n) buf s

      after : Bool × Sd
      after = after_read out card buf n read.0 read.1

      here : Prints buf s after.1
      here =
          Prints-trans (read_block-Prints out clean card buf (boot_sector + n) s)
            (after_read-Prints n read.0 read.1)

  Started-Prints :
      (s : Sd) (r : Status × Sd) → Started out.report out.greeting card s r → Prints buf s r.1
  Started-Prints s (success, t) (m, (v2, k, a, e)) = record {
    said = reverse (out.greeting v2 t.sd_hc);
    said_text = reverse-IsText (out.greeting v2 t.sd_hc) (clean.greeting_text v2 t.sd_hc);
    console_eq = e;
    kept = λ x o. ap (λ f. f x) m;
  }
  Started-Prints s (failure, t) (m, (msg, e)) = record {
    said = reverse (out.report msg);
    said_text = reverse-IsText (out.report msg) (clean.report_text msg);
    console_eq = e;
    kept = λ x o. ap (λ f. f x) m;
  }

  after_init-Prints : (status : Status) (s : Sd) → Prints buf s (after_init out card buf status s).1
  unfolding after_init print all_text
  after_init-Prints success s =
      Prints-trans (sector_loop-Prints 8 0 s)
        (said (codes "\n--- end ---\n") refl (sector_loop out card buf 8 0 s).1)
  after_init-Prints failure s = said (codes "SD init failed\n") refl s

  main-Prints : (s : Sd) → Prints buf s (main out card buf s).1
  unfolding main print all_text
  main-Prints s =
      let s1 : Sd = (print (out.put_text (codes "SD boot.bin test\n")) s).1 in
      let started = init out.report out.greeting card s1 in
      Prints-trans (said (codes "SD boot.bin test\n") refl s) (
        Prints-trans (Started-Prints s1 started (init-Started out.report out.greeting card s1))
          (after_init-Prints started.0 started.1))

-- Whatever the card sends, both test programs print nothing but printable bytes, tabs and ends of
-- lines, and change no byte of the memory but the 512 of their buffer.
pub test_main-Prints :
    (card : Card) (sector_buf : ℕ) (s : Sd)
    → Prints sector_buf s (test_main card sector_buf s).1
      × Prints sector_buf s (loader_test_main card sector_buf s).1
unfolding test_main loader_test_main
test_main-Prints card sector_buf s = (
  main-Prints printf_output printf_output-IsClean card sector_buf s,
  main-Prints uart_output uart_output-IsClean card sector_buf s,
)
