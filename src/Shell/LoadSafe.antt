-- ===== src/Shell/LoadSafe.antt =====
-- `sd_load` writes only into the region that it is given and into `fileHeader`.
use criscv_hw.Prelude.{
  ℕ, zero, suc, ◌+◌, ◌-◌, ◌%◌, ◌^◌, ◌≤◌, ◌<◌, ◌≡◌, ◌⊎◌, refl, ◌∙◌, inl, inr, Bool, true, false, not,
  ◌&&◌, arith, ltb, ◌==◌, if◌then◌else◌, Bool-cases, Memory, store, Outside,
}
use criscv_hw.Prelude.Words.{store_dword, store_word}
use criscv_hw.Prelude.Text.{codes}
use criscv_hw.Stdfn.FatFs.{Fresult, Moved}
use criscv_hw.Stdfn.Files.{fa_read}
use criscv_hw.Stdfn.Calls.{is_ok}
use criscv_hw.Shell.World.{World, Env, sendchar, sendstring, strncpy, name_at}
use criscv_hw.Shell.Card.{send_fr, sd_ready}
use criscv_hw.Shell.SdLoad.{
  chunk_max, chunk_of, Chunks, set_header, chunk_loop, close_file, chunks_done, load_opened,
  load_mounted, sd_load, chunk_fuel,
}

pub chunk_of-le : (size done : ℕ) → chunk_of size done ≤ size - done
unfolding chunk_of
chunk_of-le size done = ground arith

pub chunk_of_lem :
    (size done : ℕ) → (chunk_of size done ≡ chunk_max) ⊎ (chunk_of size done ≡ size - done)
unfolding chunk_of
chunk_of_lem size done = ground arith

strncpy-kept :
    (left to : ℕ) (ended : Bool) (from : ℕ) (mem : Memory) (x : ℕ)
    → Outside to left x
    → strncpy left to ended from mem x ≡ mem x
unfolding strncpy store
strncpy-kept zero to ended from mem x h = refl
strncpy-kept (suc left) to ended from mem x h =
    strncpy-kept left (to + 1) _ (from + 1) _ x (omega arith) ∙ ground arith

set_header-kept :
    (header fname type size : ℕ) (mem : Memory) (x : ℕ)
    → Outside header 28 x
    → set_header header fname type size mem x ≡ mem x
unfolding set_header store_dword store_word store
set_header-kept header fname type size mem x h =
    ground (arith, strncpy-kept 19 (name_at header) false fname mem x (omega arith))

module _ {Fil Dir Volume : Type 0} (env : Env Fil Dir Volume) where
  -- What ff.h says of `f_read`: it stores nothing outside its buffer.
  abbrev pub ReadsInside : Type 0
  ReadsInside =
      (buf n : ℕ) (mem : Memory) (f : Fil) (v : Volume) (x : ℕ)
      → Outside buf n x
      → (env.fs.f_read buf n mem f v).mem x ≡ mem x

  chunk_loop-kept :
      (fuel base size done : ℕ) (fr : Fresult) (f : Fil) (w : World Fil Volume) (x : ℕ)
      → ReadsInside
      → Outside base size x
      → (chunk_loop env fuel base size done fr f w).world.mem x ≡ w.mem x
  unfolding chunk_loop sendchar
  chunk_loop-kept zero base size done fr f w x inside h = refl
  chunk_loop-kept (suc fuel) base size done fr f w x inside h = elim (Bool-cases (ltb done size)) [
    | inr e ↦ rw (chunk_loop, e)
    | inl e ↦ elim (Bool-cases (is_ok m.result && (m.count == chunk_of size done))) [
      | inr g ↦ rw (chunk_loop, e, g) (read_kept e)
      | inl g ↦
          rw (chunk_loop, e, g)
            (chunk_loop-kept fuel base size (done + chunk_of size done) m.result m.fil _ x inside h
              ∙ read_kept e)
    ]
  ]
    where
      m : Moved Fil Volume
      m = env.fs.f_read (base + done) (chunk_of size done) w.mem f w.volume

      read_kept : ltb done size ≡ true → m.mem x ≡ w.mem x
      read_kept e =
          let le = chunk_of-le size done in
          let lt : done < size = ground arith in
          inside (base + done) (chunk_of size done) w.mem f w.volume x (omega arith)

  -- What `sd_load` leaves of the memory, by its answer: on success a byte outside the region and the
  -- header is as before, on failure one outside the region.
  abbrev pub Loads : ℕ → ℕ → Memory → Bool × World Fil Volume → Type 0
  Loads base max mem (true, w') =
      (x : ℕ) → Outside base max x → Outside env.file_header 28 x → w'.mem x ≡ mem x
  Loads base max mem (false, w') = (x : ℕ) → Outside base max x → w'.mem x ≡ mem x

  chunks_done-Loads :
      (fname size type base max : ℕ) (w : World Fil Volume) (c : Chunks Fil Volume)
      → ((x : ℕ) → Outside base max x → c.world.mem x ≡ w.mem x)
      → Loads base max w.mem (chunks_done env fname size type c)
  unfolding chunks_done sendstring close_file send_fr
  chunks_done-Loads fname size type base max w c kept = elim (Bool-cases (not (c.done == size))) [
    | inl e ↦ rw (chunks_done, e) kept
    | inr e ↦
        rw (chunks_done, e)
          (λ x out out'.
            set_header-kept env.file_header fname type size c.world.mem x out' ∙ kept x out)
  ]

  load_opened-Loads :
      (fname base max type : ℕ) (fr : Fresult) (f : Fil) (w : World Fil Volume)
      → ReadsInside
      → Loads base max w.mem (load_opened env fname base max type fr f w)
  unfolding load_opened sendstring close_file
  load_opened-Loads fname base max type fr f w inside =
      let size : ℕ = env.fs.f_size f % 2 ^ 32 in
      elim (Bool-cases (ltb max size)) [
        | inl e ↦ rw (load_opened, e) (λ x out. refl)
        | inr e ↦
            rw (load_opened, e)
              (chunks_done-Loads fname size type base max w
                (chunk_loop env chunk_fuel base size 0 fr f w)
                (λ x out.
                  chunk_loop-kept chunk_fuel base size 0 fr f w x inside
                    (let le : size ≤ max = ground arith in omega arith)))
      ]

  load_mounted-Loads :
      (fname base max type : ℕ) (w : World Fil Volume)
      → ReadsInside
      → Loads base max w.mem (load_mounted env fname base max type w)
  unfolding load_mounted send_fr sendstring
  load_mounted-Loads fname base max type w inside =
      let d = env.fs.f_open fname fa_read w.mem env.any_fil w.volume in
      elim (Bool-cases (is_ok d.result)) [
        | inr g ↦ rw (load_mounted, g) (λ x out. refl)
        | inl g ↦
            rw (load_mounted, g)
              (load_opened-Loads fname base max type d.result d.fil (record w { volume = d.volume })
                inside)
      ]

  -- If `f_read` stores nothing outside its buffer, `sd_load` changes no byte outside the region and
  -- `fileHeader`, whatever else FatFs does; when it fails, it leaves `fileHeader` alone too.
  pub sd_load-Loads :
      (fname base max type : ℕ) (w : World Fil Volume)
      → ReadsInside
      → Loads base max w.mem (sd_load env fname base max type w)
  unfolding sd_load sd_ready sendstring
  sd_load-Loads fname base max type w inside = mounted w.sd_mounted
    where
      complained : World Fil Volume
      complained = sendstring (codes "No SD card mounted (try 'mount')\n") w

      mounted :
          (ready : Bool)
          → Loads base max w.mem (
              if ready
              then load_mounted env fname base max type (if ready then w else complained)
              else (false, (if ready then w else complained)))
      mounted true = load_mounted-Loads fname base max type w inside
      mounted false = λ x out. refl
