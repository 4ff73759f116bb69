-- ===== src/Ymodem/Tests.antt =====
-- Runs of `ym_receive` and of its checksum.
use criscv_hw.Prelude.{
  ℕ, zero, suc, ◌≡◌, ◌↔◌, refl, inr, Bool, true, false, Option, none, some, List, [], ◌∷◌, ◌++◌,
  map, ◌+◌, ◌*◌, arith, ◌%◌, ◌^◌, replicate, Memory, store,
}
use criscv_hw.Prelude.Int.{negsuc}
use criscv_hw.Ymodem.Session.{
  Args, Session, Line, Code, ym_ok, ym_err_cancel, ym_err_timeout, ym_err_toobig, ym_err_proto,
  putc, getc,
}
use criscv_hw.Ymodem.Receive.{
  ym_receive, rounds, start, run, step, on_byte, receive_block, on_block, on_data, place, file_type,
  is_elf, copy_bytes, accept, on_eot,
}
use criscv_hw.Ymodem.Block.{take_block, body, body_loop, put_byte, block_dest, number_ok, is_good}
use criscv_hw.Ymodem.Header.{
  on_header, header_name, header_size, copy_name, skip_name, read_size, is_digit, add_digit,
}
use criscv_hw.Ymodem.Crc.{crc_bytes, crc_byte, crc_bits, crc_bit}
use criscv_hw.Ymodem.Register.{crc16}
use criscv_hw.Ymodem.Checksum.{crc_bytes-check}
use criscv_hw.Ymodem.Progress.{ym_receive-returns}
use criscv_hw.Ymodem.Safety.{HasRoom, ym_receive-mem}

abbrev pub args : Args
args = record {
  prog_base = 4096;
  prog_max = 8192;
  data_base = 16384;
  data_max = 2048;
  force_type = negsuc 0;
}

pub args-HasRoom : HasRoom args
args-HasRoom = record { data_room = omega arith; data_word = omega arith; prog_word = omega arith }

abbrev pub blank : Memory
blank = λ x. 0

-- A block of 128 bytes with the number `n`: its first bytes, and its checksum.
abbrev block : ℕ → List ℕ → ℕ → ℕ → ℕ → List ℕ
block n head rest hi lo = 1 ∷ n ∷ n' n ∷ head ++ (replicate rest 0 ++ hi ∷ lo ∷ [])
  where
    n' : ℕ → ℕ
    n' zero = 255
    n' (suc k) = 254

-- A file "a" of four bytes in one block, and the empty header that ends the session.
abbrev sender : Line
sender = map some (
    block 0 (b'a' ∷ 0 ∷ b'4' ∷ []) 125 235 149
    ++ (block 1 (1 ∷ 2 ∷ 3 ∷ 4 ∷ []) 124 201 1 ++ (4 ∷ 4 ∷ block 0 [] 128 0 0)))

abbrev after_sender : Option (Code × Session)
after_sender = ym_receive args sender blank

abbrev session_of : Option (Code × Session) → Session
session_of none = start args [] blank
session_of (some (code, t)) = t

abbrev received_file : Session
received_file = session_of after_sender

abbrev ended_ok : Option (Code × Session) → Bool
ended_ok (some (ym_ok, t)) = true
ended_ok _ = false

ended_ok-some : (r : Option (Code × Session)) → ended_ok r ≡ true → r ≡ some (ym_ok, session_of r)
ended_ok-some (some (ym_ok, t)) e = refl
ended_ok-some none e = cc
ended_ok-some (some (ym_err_cancel, t)) e = cc
ended_ok-some (some (ym_err_timeout, t)) e = cc
ended_ok-some (some (ym_err_toobig, t)) e = cc
ended_ok-some (some (ym_err_proto, t)) e = cc

sender-ended_ok : ended_ok (ym_receive args sender blank) ≡ true
unfolding ym_receive rounds start run step on_byte receive_block take_block body body_loop put_byte
    block_dest number_ok crc_byte crc_bits crc_bit is_good on_block on_header on_data place
    file_type is_elf copy_bytes accept on_eot putc getc header_name header_size copy_name skip_name
    read_size is_digit add_digit store
sender-ended_ok = refl

received_file-ok : ym_receive args sender blank ≡ some (ym_ok, received_file)
received_file-ok = ended_ok-some (ym_receive args sender blank) sender-ended_ok

ym_receive-mem_example : received_file.mem 20000 ≡ 0
ym_receive-mem_example =
    ym_receive-mem args sender blank 20000 args-HasRoom (inr (omega arith)) (inr (omega arith))
      received_file-ok

ym_receive-returns_example :
    (code : Code) × (t : Session) × (ym_receive args sender blank ≡ some (code, t))
ym_receive-returns_example = ym_receive-returns args sender blank

crc_bytes-check_example :
    (crc_bytes 0 (b'a' ∷ 0x7C ∷ 0x87 ∷ []) % 2 ^ 16 ≡ 0) ↔ (crc16 0 (b'a' ∷ []) ≡ 0x7C * 256 + 0x87)
crc_bytes-check_example =
    crc_bytes-check (b'a' ∷ []) 0x7C 0x87 (omega arith, tt) (omega arith) (omega arith)
