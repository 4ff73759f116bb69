-- ===== src/Shell/RbTests.antt =====
-- `rb` with a sender of a file of four bytes on the line.
use criscv_hw.Prelude.{ℕ, ◌≡◌, refl, none, [], ◌∷◌, replicate, arith}
use criscv_hw.Ymodem.Receive.{file_type}
use criscv_hw.Ymodem.Feeds.{spaced}
use criscv_hw.Ymodem.Arrival.{type_of, base_of}
use criscv_hw.Ymodem.SenderTests.{tail, first, polls, sent-IsSession, polls-InTime}
use criscv_hw.Shell.World.{World}
use criscv_hw.Shell.Program.{after_load}
use criscv_hw.Shell.Rb.{force_of, rb_args, rb_cmd}
use criscv_hw.Shell.RbDelivers.{HoldsFile, rb_cmd-HoldsFile}
use criscv_hw.Shell.CardTests.{env, world}

abbrev sending : World ℕ Unit
sending = record world { line = spaced polls [] }

rb_cmd-HoldsFile_example :
    let a = rb_args (force_of none sending.mem) in
    (s : World ℕ Unit) × (rb_cmd env none sending ≡ after_load env [] s)
    × HoldsFile env
        (b'a' ∷ [])
        (1 ∷ 2 ∷ 3 ∷ 4 ∷ [])
        (type_of a first)
        (base_of a (type_of a first))
        []
        s
unfolding file_type force_of
rb_cmd-HoldsFile_example =
    rb_cmd-HoldsFile env none sending (b'a' ∷ []) (b'4' ∷ []) tail first [] (replicate 128 0)
      (1 ∷ 2 ∷ 3 ∷ 4 ∷ []) (replicate 124 0) polls [] (omega arith) sent-IsSession (omega arith)
      polls-InTime refl refl
