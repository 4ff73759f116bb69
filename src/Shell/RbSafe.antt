-- ===== src/Shell/RbSafe.antt =====
-- What `rb_cmd` of bootbin/boot.c leaves of the world, whatever comes over the line.
use criscv_hw.Prelude.{
  ℕ, ◌+◌, ◌%◌, ◌^◌, ◌≤◌, ◌≡◌, ◌≢◌, ◌⊎◌, refl, ap, ◌∙◌, inl, inr, Option, some, List, [], ◌∷◌, ◌++◌,
  length, length-append, arith, Memory, store, Outside,
}
use criscv_hw.Prelude.Words.{store_dword, store_word, word_at, word_at-store_dword}
use criscv_hw.Prelude.Int.{ℤ}
use criscv_hw.Prelude.Text.{codes}
use criscv_hw.Ymodem.Session.{
  Session, Code, ym_ok, ym_err_cancel, ym_err_timeout, ym_err_toobig, ym_err_proto,
}
use criscv_hw.Ymodem.Receive.{ym_receive}
use criscv_hw.Ymodem.Progress.{ym_receive-returns}
use criscv_hw.Ymodem.Safety.{HasRoom, IsPlaced, ym_receive-mem, ym_receive-IsPlaced}
use criscv_hw.Shell.World.{
  World, Env, Next, resume, sendstring, setled, strcpy, store_text, type_at, name_at, length_at,
  prog_base, prog_max, data_base, data_max,
}
use criscv_hw.Shell.Program.{after_load}
use criscv_hw.Shell.Rb.{force_of, rb_args, rb_error, rb_header, after_receive, rb_received, rb_cmd}

pub store_text-kept :
    (text : List ℕ) (p : ℕ) (mem : Memory) (x : ℕ)
    → Outside p (length text) x
    → store_text text p mem x ≡ mem x
unfolding store_text store
store_text-kept [] p mem x o = refl
store_text-kept (c ∷ cs) p mem x o =
    store_text-kept cs (p + 1) (store mem p c) x (omega arith) ∙ ground arith

pub rb_header-kept :
    (header : ℕ) (t : Session) (mem : Memory) (x : ℕ)
    → length t.name ≤ 19
    → Outside header 28 x
    → rb_header header t mem x ≡ mem x
unfolding rb_header strcpy store_dword store_word store
rb_header-kept header t mem x short o =
    let len = length-append t.name (0 ∷ []) in
    ground (arith, store_text-kept (t.name ++ 0 ∷ []) (name_at header) mem x (omega arith))

pub rb_header-type :
    (header : ℕ) (t : Session) (mem : Memory)
    → rb_header header t mem (type_at header) ≡ t.type % 2 ^ 8
unfolding rb_header store_dword store_word store
rb_header-type header t mem = ground arith

pub rb_args-HasRoom : (force : ℤ) → HasRoom (rb_args force)
rb_args-HasRoom force = record {
  data_room = omega arith;
  data_word = omega arith;
  prog_word = omega arith;
}

module _ {Fil Dir Volume : Type 0} (env : Env Fil Dir Volume) where
  -- No byte outside the two regions and `fileHeader` has changed, nor has what belongs to the card.
  pub record Spared (w s : World Fil Volume) : Type 0 where
    pub mem_kept :
        (x : ℕ)
        → Outside prog_base prog_max x
        → Outside data_base data_max x
        → Outside env.file_header 28 x
        → s.mem x ≡ w.mem x
    pub slots_eq : s.slots ≡ w.slots
    pub volume_eq : s.volume ≡ w.volume
    pub mounted_eq : s.sd_mounted ≡ w.sd_mounted

  -- What `after_load` finds of the receiver's answer: `fileHeader` tells its type and its length, and
  -- all other memory is as the receiver left it.
  pub record Announces (force : ℤ) (file : Session) (s : World Fil Volume) : Type 0 where
    pub placed : IsPlaced (rb_args force) file
    pub type_eq : s.mem (type_at env.file_header) ≡ file.type % 2 ^ 8
    pub length_eq : word_at s.mem (length_at env.file_header) ≡ file.length % 2 ^ 32
    pub mem_eq : (x : ℕ) → Outside env.file_header 28 x → s.mem x ≡ file.mem x

  -- What follows the receiver's answer: its file is handed on after YM_OK, and else the shell goes on.
  abbrev pub Follows : ℤ → Code → Session → World Fil Volume → Next (World Fil Volume) → Type 0
  Follows force code t s n =
      ((code ≡ ym_ok) × Announces force t s × (n ≡ after_load env [] s))
      ⊎ ((code ≢ ym_ok) × (n ≡ resume s))

  abbrev pub Handed : ℤ → World Fil Volume → Next (World Fil Volume) → Type 0
  Handed force w n =
      (code : Code) × (t : Session) × (s : World Fil Volume) × (ym_receive (rb_args force) w.line
          w.mem
        ≡ some (code, t))
      × Spared w s
      × Follows force code t s n

  -- The memory of the receiver.
  abbrev Receives : Session → World Fil Volume → Type 0
  Receives t w =
      (x : ℕ) → Outside prog_base prog_max x → Outside data_base data_max x → t.mem x ≡ w.mem x

  -- The same, the receiver's answer being known.
  abbrev After : ℤ → Code → Session → World Fil Volume → Next (World Fil Volume) → Type 0
  After force code t w n = (s : World Fil Volume) × Spared w s × Follows force code t s n

  complains :
      (force : ℤ) (code : Code) (t : Session) (w : World Fil Volume) (said text : List ℕ)
      → code ≢ ym_ok
      → Receives t w
      → After force code t w (resume (sendstring text (after_receive env t (sendstring said w))))
  unfolding sendstring after_receive setled
  complains force code t w said text bad k = (
    sendstring text (after_receive env t (sendstring said w)),
    record { mem_kept = λ x p d h. k x p d; slots_eq = refl; volume_eq = refl; mounted_eq = refl },
    inr (bad, refl),
  )

  rb_received-Handed :
      (force : ℤ) (code : Code) (t : Session) (w : World Fil Volume) (said : List ℕ)
      → Receives t w
      → (code ≡ ym_ok → IsPlaced (rb_args force) t)
      → After force code t w (rb_received env (some (code, t)) (sendstring said w))
  unfolding rb_received sendstring after_receive setled rb_header
  rb_received-Handed force ym_ok t w said k placed =
      let file = placed refl in
      (
        _,
        record {
          mem_kept =
              λ x p d h. rb_header-kept env.file_header t t.mem x file.name_short h ∙ k x p d;
          slots_eq = refl;
          volume_eq = refl;
          mounted_eq = refl;
        },
        inl (
          refl,
          record {
            placed = file;
            type_eq = rb_header-type env.file_header t t.mem;
            length_eq = word_at-store_dword (length_at env.file_header) t.length _;
            mem_eq = λ x o. rb_header-kept env.file_header t t.mem x file.name_short o;
          },
          refl,
        ),
      )
  rb_received-Handed force ym_err_cancel t w said k placed =
      complains force ym_err_cancel t w said (rb_error ym_err_cancel) (λ e. cc) k
  rb_received-Handed force ym_err_timeout t w said k placed =
      complains force ym_err_timeout t w said (rb_error ym_err_timeout) (λ e. cc) k
  rb_received-Handed force ym_err_toobig t w said k placed =
      complains force ym_err_toobig t w said (rb_error ym_err_toobig) (λ e. cc) k
  rb_received-Handed force ym_err_proto t w said k placed =
      complains force ym_err_proto t w said (rb_error ym_err_proto) (λ e. cc) k

  -- Whatever comes over the line, the receiver answers `rb`, which then has written nowhere but into
  -- the two regions and `fileHeader`, and has not touched the card. After YM_OK, and only then,
  -- `after_load` runs: `fileHeader` tells the type and the length of the receiver's answer, the rest
  -- of the memory is as the receiver left it, and the file's place and length in the answer lie in
  -- one region. After any other answer the shell goes on.
  pub rb_cmd-Handed :
      (arg : Option ℕ) (w : World Fil Volume) → Handed (force_of arg w.mem) w (rb_cmd env arg w)
  unfolding rb_cmd sendstring
  rb_cmd-Handed arg w =
      let a = rb_args (force_of arg w.mem) in
      let (code, t, e) = ym_receive-returns a w.line w.mem in
      let room = rb_args-HasRoom (force_of arg w.mem) in
      let (s, spared, follows) =
        rb_received-Handed (force_of arg w.mem) code t w (codes "rb: start YMODEM send now\n")
          (λ x p d. ym_receive-mem a w.line w.mem x room p d e)
          (λ ok. ym_receive-IsPlaced a w.line w.mem room (e ∙ ap (λ c. some (c, t)) ok)) in
      (code, t, s, e, spared, rw (rb_cmd, e) follows)
