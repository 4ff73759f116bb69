-- ===== src/Shell/RbDelivers.antt =====
-- `rb_cmd` of bootbin/boot.c with a sender at the other end of the line: the file reaches `after_load`.
use criscv_hw.Prelude.{
  ℕ, suc, ◌+◌, ◌%◌, ◌^◌, ◌≤◌, ◌<◌, ◌≡◌, refl, sym, ap, ◌∙◌, inl, inr, Option, some, List, [], ◌∷◌,
  ◌++◌, length, length-append, get_or, arith, All, Memory, store, Outside,
}
use mathlib.Core.Path.{subst}
use criscv_hw.Prelude.Words.{store_dword-kept, word_at, word_at-store_dword}
use criscv_hw.Prelude.Text.{codes}
use criscv_hw.Prelude.Int.{ℤ}
use criscv_hw.Ymodem.Session.{Line, Session, ym_ok}
use criscv_hw.Ymodem.Receive.{ym_receive}
use criscv_hw.Ymodem.Feeds.{spaced, InTime, bytes_in}
use criscv_hw.Ymodem.Label.{label}
use criscv_hw.Ymodem.Arrival.{AreApart, type_of, base_of, room_of}
use criscv_hw.Ymodem.Delivery.{IsSession, IsDelivered, session_wire, ym_receive-IsDelivered}
use criscv_hw.Shell.World.{
  World, Env, sendstring, setled, strcpy, store_text, type_at, name_at, length_at, prog_base,
  prog_max, data_base,
}
use criscv_hw.Shell.Program.{after_load}
use criscv_hw.Shell.Texts.{TextAt, TextAt-same, store_away}
use criscv_hw.Shell.Rb.{force_of, rb_args, rb_header, after_receive, rb_received, rb_cmd}
use criscv_hw.Shell.RbSafe.{rb_args-HasRoom, rb_header-kept, rb_header-type, store_text-kept}

rb_args-AreApart : (force : ℤ) → AreApart (rb_args force)
rb_args-AreApart force = record {
  room = rb_args-HasRoom force;
  prog_room = omega arith;
  apart = inl (omega arith);
}

-- A text without a NUL, once it is stored with its NUL.
store_text-TextAt :
    (text : List ℕ) (p : ℕ) (mem : Memory)
    → All (λ c. 0 < c) text
    → TextAt (store_text (text ++ 0 ∷ []) p mem) p text
unfolding store_text store
store_text-TextAt [] p mem h = record { bytes = tt; ended = ground arith }
store_text-TextAt (c ∷ cs) p mem h =
    let t = store_text-TextAt cs (p + 1) (store mem p c) h.1 in
    record {
      bytes = (
        store_text-kept (cs ++ 0 ∷ []) (p + 1) (store mem p c) p (inl (omega arith)) ∙ ground arith,
        h.0,
        t.bytes,
      );
      ended = let e : p + suc (length cs) ≡ p + 1 + length cs = omega arith in rw e t.ended;
    }

rb_header-TextAt :
    (header : ℕ) (t : Session) (mem : Memory)
    → All (λ c. 0 < c) t.name
    → length t.name ≤ 19
    → TextAt (rb_header header t mem) (name_at header) t.name
unfolding rb_header strcpy
rb_header-TextAt header t mem plain short =
    let named : Memory = store_text (t.name ++ 0 ∷ []) (name_at header) mem in
    TextAt-same named _ (name_at header) t.name
      (λ x lo hi.
        store_dword-kept (length_at header) t.length _ x (inl (omega arith))
        ∙ store_away named (type_at header) x (t.type % 2 ^ 8) (inr (omega arith)))
      (store_text-TextAt t.name (name_at header) mem plain)

module _ {Fil Dir Volume : Type 0} (env : Env Fil Dir Volume) where
  -- The world that `after_load` gets: the file in its region, and what `fileHeader` tells of it.
  pub record HoldsFile (name file : List ℕ) (type base : ℕ) (rest : Line) (s : World Fil Volume)
      : Type 0 where
    pub name_at_header : TextAt s.mem (name_at env.file_header) name
    pub type_eq : s.mem (type_at env.file_header) ≡ type % 2 ^ 8
    pub length_eq : word_at s.mem (length_at env.file_header) ≡ length file
    pub bytes : (j : ℕ) → j < length file → s.mem (base + j) ≡ get_or file j 0
    pub line_eq : s.line ≡ rest

  -- `fileHeader` stands with the second stage between the two regions.
  abbrev pub BetweenRegions : Type 0
  BetweenRegions = (prog_base + prog_max ≤ env.file_header) × (env.file_header + 28 ≤ data_base)

  rb_received-HoldsFile :
      (force : ℤ) (t : Session) (w : World Fil Volume) (said name file : List ℕ) (type : ℕ)
      (rest : Line)
      → BetweenRegions
      → IsDelivered (rb_args force) name file type rest t
      → All (λ c. 0 < c) name
      → length name ≤ 19
      → length file ≤ room_of (rb_args force) type
      → (s : World Fil Volume) × (rb_received env (some (ym_ok, t)) (sendstring said w)
          ≡ after_load env [] s)
        × HoldsFile name file type (base_of (rb_args force) type) rest s
  unfolding rb_received sendstring after_receive setled rb_header
  rb_received-HoldsFile force t w said name file type rest between d plain short fits = (
    _,
    refl,
    record {
      name_at_header =
          subst (λ n. TextAt (rb_header env.file_header t t.mem) (name_at env.file_header) n)
            d.name_eq
            (rb_header-TextAt env.file_header t t.mem
              (subst (All (λ c. 0 < c)) (sym d.name_eq) plain) (rw d.name_eq short));
      type_eq = rb_header-type env.file_header t t.mem ∙ ap (λ k. k % 2 ^ 8) d.type_eq;
      length_eq =
          word_at-store_dword (length_at env.file_header) t.length _
          ∙ omega (arith, d.length_eq, below);
      bytes = λ j k.
          rb_header-kept env.file_header t t.mem (base_of (rb_args force) type + j)
            (rw d.name_eq short) (away j k)
          ∙ d.bytes j k;
      line_eq = d.line_eq;
    },
  )
    where
      below : length file < 2 ^ 32
      below = ground arith

      away :
          (j : ℕ) → j < length file → Outside env.file_header 28 (base_of (rb_args force) type + j)
      away j k = ground arith

  -- A sender's session on the line brings its file to `after_load`: in the region of its type, and
  -- told by `fileHeader` with its name, its type and its length. The padded file and the empty label
  -- behind it have room in the region, and no gap on the line is a timeout.
  pub rb_cmd-HoldsFile :
      (arg : Option ℕ) (w : World Fil Volume) (name digits tail first : List ℕ)
      (more : List (List ℕ)) (closing file pad : List ℕ) (bytes : List (ℕ × ℕ)) (rest : Line)
      → BetweenRegions
      → IsSession name digits tail first more closing file pad
      → length (file ++ pad) + length closing
        ≤ room_of (rb_args (force_of arg w.mem)) (type_of (rb_args (force_of arg w.mem)) first)
      → All InTime bytes
      → bytes_in bytes ≡ session_wire (label name digits tail) first more closing
      → w.line ≡ spaced bytes rest
      → let a = rb_args (force_of arg w.mem) in
        (s : World Fil Volume) × (rb_cmd env arg w ≡ after_load env [] s)
        × HoldsFile name file (type_of a first) (base_of a (type_of a first)) rest s
  unfolding rb_cmd sendstring
  rb_cmd-HoldsFile arg w name digits tail first more closing file pad bytes rest between x room
        timely same e =
      let force = force_of arg w.mem in
      let a = rb_args force in
      let (t, run, d) =
        ym_receive-IsDelivered a name digits tail first more closing file pad bytes rest w.mem
          (rb_args-AreApart force) x room timely same in
      let got : ym_receive a w.line w.mem ≡ some (ym_ok, t) =
        ap (λ l. ym_receive a l w.mem) e ∙ run in
      let l = length-append file pad in
      rw (rb_cmd, got)
        (rb_received-HoldsFile force t w (codes "rb: start YMODEM send now\n") name file
          (type_of a first) rest between d x.labelled.name_plain x.labelled.name_short
          (omega arith))
