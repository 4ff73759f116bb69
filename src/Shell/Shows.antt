-- ===== src/Shell/Shows.antt =====
-- What `cat_cmd` of bootbin/boot.c sends of a file.
use criscv_hw.Prelude.{
  ℕ, zero, suc, ◌+◌, ◌*◌, ◌^◌, ◌<◌, ◌≡◌, ◌⊎◌, refl, sym, ap, ◌∙◌, inl, inr, true, false, some, List,
  [], ◌∷◌, ◌++◌, ◌==◌, ==_iff, if◌then◌else◌, length, length-append, get_or, reverse, arith,
  Bool-cases, Memory,
}
use mathlib.Core.List.{append_assoc, append-nil, reverse-append, reverse-cons}
use criscv_hw.Prelude.Text.{codes}
use criscv_hw.Stdfn.FatFs.{fr_ok, Moved}
use criscv_hw.Stdfn.Files.{fa_read, send_bytes}
use criscv_hw.Shell.World.{World, Env, sendstring}
use criscv_hw.Shell.Card.{cat_fuel, cat_size, sd_ready, cat_end, cat_loop, cat_opened, cat_cmd}

-- The bytes of a buffer go out in their order.
send_bytes-stored :
    (bs : List ℕ) (buf : ℕ) (mem : Memory) (out : List ℕ)
    → ((j : ℕ) → j < length bs → mem (buf + j) ≡ get_or bs j 0)
    → send_bytes (length bs) buf mem out ≡ reverse bs ++ out
unfolding send_bytes
send_bytes-stored [] buf mem out h = refl
send_bytes-stored (b ∷ bs) buf mem out h =
    let here : mem buf ≡ b = ap mem (omega arith) ∙ h 0 (omega arith) in
    send_bytes-stored bs (buf + 1) mem (mem buf ∷ out)
      (λ j l. ap mem (omega arith) ∙ h (suc j) (omega arith))
    ∙ (ap (λ c. reverse bs ++ (c ∷ out)) here
        ∙ (sym (append_assoc (reverse bs) (b ∷ []) out)
            ∙ ap (λ t. t ++ out) (sym (reverse-cons b bs))))

module _ {Fil Dir Volume : Type 0} (env : Env Fil Dir Volume) where
  cat_cmd-ready :
      (fname : ℕ) (w : World Fil Volume)
      → w.sd_mounted ≡ true
      → cat_cmd env fname w ≡ cat_opened env fname w
  unfolding cat_cmd sd_ready
  cat_cmd-ready fname w e =
      let told : World Fil Volume = sendstring (codes "No SD card mounted (try 'mount')\n") w in
      ap
        (λ b.
          if b then cat_opened env fname (if b then w else told) else some (if b then w else told))
        e

  module _ (rest : Fil → Volume → List ℕ) where
    -- A read of `n` bytes: what it has given of the bytes that were left.
    pub record Given (buf n : ℕ) (left : List ℕ) (m : Moved Fil Volume) : Type 0 where
      pub bytes : List ℕ
      pub left_eq : left ≡ bytes ++ rest m.fil m.volume
      pub result_eq : m.result ≡ fr_ok
      pub count_eq : m.count ≡ length bytes
      pub stored : (j : ℕ) → j < length bytes → m.mem (buf + j) ≡ get_or bytes j 0
      pub full : (length bytes ≡ n) ⊎ ((length bytes < n) × (rest m.fil m.volume ≡ []))

    -- What ff.h says of `f_read` where the card does not fail: it gives as many bytes as it is asked
    -- for, or all that are left of the file. `rest` are the bytes that are left.
    abbrev pub ReadsOn : Type 0
    ReadsOn =
        (buf n : ℕ) (mem : Memory) (f : Fil) (v : Volume)
        → Given buf n (rest f v) (env.fs.f_read buf n mem f v)

    cat_loop-sends :
        (fuel : ℕ) (f : Fil) (w : World Fil Volume)
        → ReadsOn
        → length (rest f w.volume) < 64 * fuel
        → (w' : World Fil Volume) × (cat_loop env fuel f w ≡ some w')
          × (w'.out ≡ b'\n' ∷ (reverse (rest f w.volume) ++ w.out))
    unfolding cat_loop cat_end sendstring
    cat_loop-sends zero f w reads h = absurd (omega arith)
    cat_loop-sends (suc fuel) f w reads h = elim (Bool-cases (m.count == cat_size)) [
      | inl e ↦
          let n : m.count ≡ 64 = (==_iff m.count cat_size).0 e in
          let (w', run, out) =
            cat_loop-sends fuel m.fil sent reads (omega (arith, n, lengths, g.count_eq)) in
          (
            w',
            rw (cat_loop, g.result_eq, e) run,
            out
                ∙ (ap (λ t. b'\n' ∷ (reverse (rest m.fil m.volume) ++ t)) out_eq
                    ∙ ap (λ t. b'\n' ∷ t)
                        (sym (append_assoc (reverse (rest m.fil m.volume)) (reverse g.bytes) w.out)
                          ∙ ap (λ t. t ++ w.out)
                              (sym (reverse-append g.bytes (rest m.fil m.volume))
                                ∙ ap reverse (sym g.left_eq)))),
          )
      | inr e ↦
          let all : rest f w.volume ≡ g.bytes =
            g.left_eq ∙ (ap (λ t. g.bytes ++ t) (over e g.full) ∙ append-nil g.bytes) in
          (
            sendstring (b'\n' ∷ [])
                (record sent { volume = (env.fs.f_close m.fil sent.volume).volume }),
            rw (cat_loop, g.result_eq, e) (ap (λ fr. some (cat_end env fr m.fil sent)) g.result_eq),
            ap (λ t. b'\n' ∷ t) (out_eq ∙ ap (λ t. reverse t ++ w.out) (sym all)),
          )
    ]
      where
        m : Moved Fil Volume
        m = env.fs.f_read env.cat_buf cat_size w.mem f w.volume

        g : Given env.cat_buf cat_size (rest f w.volume) m
        g = reads env.cat_buf cat_size w.mem f w.volume

        sent : World Fil Volume
        sent = record w {
          mem = m.mem;
          volume = m.volume;
          out = send_bytes m.count env.cat_buf m.mem w.out;
        }

        out_eq : sent.out ≡ reverse g.bytes ++ w.out
        out_eq =
            ap (λ n. send_bytes n env.cat_buf m.mem w.out) g.count_eq
            ∙ send_bytes-stored g.bytes env.cat_buf m.mem w.out g.stored

        lengths : length (rest f w.volume) ≡ length g.bytes + length (rest m.fil m.volume)
        lengths = ap length g.left_eq ∙ length-append g.bytes (rest m.fil m.volume)

        over :
            (m.count == cat_size) ≡ false
            → (length g.bytes ≡ cat_size)
              ⊎ ((length g.bytes < cat_size) × (rest m.fil m.volume ≡ []))
            → rest m.fil m.volume ≡ []
        over e (inl n) = absurd (ground (arith, e, n, g.count_eq))
        over e (inr (l, n)) = n

    -- `cat` of a file that FatFs opens and reads sends the bytes of the file in their order, whatever
    -- they are, and a line feed behind them: the loop ends, for any file below 4 GB.
    pub cat_cmd-sends :
        (fname : ℕ) (w : World Fil Volume)
        → ReadsOn
        → w.sd_mounted ≡ true
        → let d = env.fs.f_open fname fa_read w.mem env.any_fil w.volume in
          d.result ≡ fr_ok
          → length (rest d.fil d.volume) < 2 ^ 32
          → (w' : World Fil Volume) × (cat_cmd env fname w ≡ some w')
            × (w'.out ≡ b'\n' ∷ (reverse (rest d.fil d.volume) ++ w.out))
    unfolding cat_opened
    cat_cmd-sends fname w reads ready ok size =
        let d = env.fs.f_open fname fa_read w.mem env.any_fil w.volume in
        let (w', run, out) =
          cat_loop-sends cat_fuel d.fil (record w { volume = d.volume }) reads
            (omega (arith, size)) in
        (w', cat_cmd-ready fname w ready ∙ rw (cat_opened, ok) run, out)
