-- ===== src/Shell/Rb.antt =====
-- bootbin/boot.c: `rb_cmd` and `upload_loop`, which take a file from the serial line and go on with
-- `after_load`.
use criscv_hw.Prelude.{
  ℕ, ◌%◌, ◌^◌, Option, none, some, List, [], ◌∷◌, ◌++◌, ◌==◌, if◌then◌else◌, Memory, store,
}
use criscv_hw.Prelude.Words.{store_dword}
use criscv_hw.Prelude.Int.{ℤ, pos, negsuc, to_int}
use criscv_hw.Prelude.Text.{codes}
use criscv_hw.Ymodem.Session.{
  Args, Session, Code, ym_ok, ym_err_cancel, ym_err_timeout, ym_err_toobig, ym_err_proto,
  ym_type_prog, ym_type_data,
}
use criscv_hw.Ymodem.Receive.{ym_receive}
use criscv_hw.Shell.World.{
  World, Env, Next, resume, never, sendstring, setled, itoa, strcpy, type_at, name_at, length_at,
  prog_base, prog_max, data_base, data_max,
}
use criscv_hw.Shell.Upload.{load}
use criscv_hw.Shell.Program.{after_load}

-- `force`, by the first letter of the argument.
unfoldable pub force_of : Option ℕ → Memory → ℤ
force_of none mem = negsuc 0
force_of (some p) mem =
    if mem p == b'd' then pos ym_type_data else if mem p == b'p' then pos ym_type_prog else negsuc 0

abbrev pub rb_args : ℤ → Args
rb_args force = record {
  prog_base = prog_base;
  prog_max = prog_max;
  data_base = data_base;
  data_max = data_max;
  force_type = force;
}

-- The complaint about a code that is not YM_OK.
unfoldable pub rb_error : Code → List ℕ
rb_error ym_ok = []
rb_error ym_err_cancel = codes "rb: cancelled\n"
rb_error ym_err_timeout = codes "rb: timed out waiting for sender\n"
rb_error ym_err_toobig = codes "rb: file too big\n"
rb_error ym_err_proto = codes "rb: too many errors\n"

-- `fileHeader` for a file received: its name with the NUL, its type and its length.
unfoldable pub rb_header : ℕ → Session → Memory → Memory
rb_header header t mem =
    store_dword (length_at header) t.length
      (store (strcpy (name_at header) t.name mem) (type_at header) (t.type % 2 ^ 8))

module _ {Fil Dir Volume : Type 0} (env : Env Fil Dir Volume) where
  -- The world once the transfer is over.
  unfoldable pub after_receive : Session → World Fil Volume → World Fil Volume
  after_receive t w =
      sendstring (b'\n' ∷ [])
        (setled (record w { mem = t.mem; line = t.line; out = t.sent ++ w.out; led_state = 4 }))

  unfoldable pub rb_received : Option (Code × Session) → World Fil Volume → Next (World Fil Volume)
  rb_received none w = never
  rb_received (some (ym_ok, t)) w =
      let w' = after_receive t w in
      after_load env [] (
        sendstring (codes "Load complete, " ++ (itoa (to_int t.length) ++ codes " bytes\n"))
          (record w' { mem = rb_header env.file_header t w'.mem }))
  rb_received (some (code, t)) w = resume (sendstring (rb_error code) (after_receive t w))

  unfoldable pub rb_cmd : Option ℕ → World Fil Volume → Next (World Fil Volume)
  rb_cmd arg w =
      let w1 = sendstring (codes "rb: start YMODEM send now\n") w in
      rb_received (ym_receive (rb_args (force_of arg w1.mem)) w1.line w1.mem) w1

  unfoldable pub upload_loop : World Fil Volume → Next (World Fil Volume)
  upload_loop w = elim (load env.file_header (sendstring (codes "Waiting....\n") w)) [
    | none ↦ never
    | some w' ↦ after_load env [] (sendstring (codes "Load complete\n") w')
  ]
