-- ===== src/Ymodem/SenderTests.antt =====
-- The session of a sender whose file has four bytes, with an empty poll before each byte.
use criscv_hw.Prelude.{ℕ, ◌≡◌, refl, inl, List, [], ◌∷◌, map, arith, replicate, some, All}
use criscv_hw.Ymodem.Session.{Session, ym_ok}
use criscv_hw.Ymodem.Header.{is_digit}
use criscv_hw.Ymodem.Receive.{ym_receive, file_type}
use criscv_hw.Ymodem.Register.{crc16, crc16_bits, crc16_step}
use criscv_hw.Ymodem.Feeds.{InTime, spaced}
use criscv_hw.Ymodem.Label.{label, decimal}
use criscv_hw.Ymodem.Arrival.{AreApart, type_of}
use criscv_hw.Ymodem.Delivery.{IsSession, IsDelivered, session_wire, ym_receive-IsDelivered}
use criscv_hw.Ymodem.Tests.{args, args-HasRoom, blank}

abbrev pub tail : List ℕ
tail = replicate 125 0

abbrev pub first : List ℕ
first = 1 ∷ 2 ∷ 3 ∷ 4 ∷ replicate 124 0

abbrev pub sent : List ℕ
sent = session_wire (label (b'a' ∷ []) (b'4' ∷ []) tail) first [] (replicate 128 0)

abbrev pub polls : List (ℕ × ℕ)
polls = map (λ b. (1, b)) sent

args-AreApart : AreApart args
args-AreApart = record { room = args-HasRoom; prog_room = omega arith; apart = inl (omega arith) }

pub sent-IsSession :
    IsSession
      (b'a' ∷ [])
      (b'4' ∷ [])
      tail
      first
      []
      (replicate 128 0)
      (1 ∷ 2 ∷ 3 ∷ 4 ∷ [])
      (replicate 124 0)
unfolding decimal is_digit
sent-IsSession = record {
  labelled = record {
    name_some = omega arith;
    name_short = omega arith;
    name_plain = (omega arith, tt);
    digits_all = ((omega arith, omega arith), tt);
    tail_some = omega arith;
    tail_stops = refl;
    fits = omega arith;
  };
  label_block = record { len = inl refl; bytes = omega arith };
  first_block = record { len = inl refl; bytes = omega arith };
  more_blocks = tt;
  closing_block = record { len = inl refl; bytes = omega arith };
  closing_empty = refl;
  holds = refl;
  some_file = omega arith;
  size = refl;
}

pub polls-InTime : All InTime polls
unfolding crc16 crc16_bits crc16_step
polls-InTime = omega arith

type_of_first : type_of args first ≡ 1
unfolding file_type
type_of_first = refl

ym_receive-IsDelivered_example :
    (t : Session) × (ym_receive args (spaced polls []) blank ≡ some (ym_ok, t))
    × IsDelivered args (b'a' ∷ []) (1 ∷ 2 ∷ 3 ∷ 4 ∷ []) (type_of args first) [] t
unfolding file_type
ym_receive-IsDelivered_example =
    ym_receive-IsDelivered args (b'a' ∷ []) (b'4' ∷ []) tail first [] (replicate 128 0)
      (1 ∷ 2 ∷ 3 ∷ 4 ∷ []) (replicate 124 0) polls [] blank args-AreApart sent-IsSession
      (omega arith) polls-InTime refl
