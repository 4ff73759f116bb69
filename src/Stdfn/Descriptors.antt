-- ===== src/Stdfn/Descriptors.antt =====
-- Descriptors: what `_open` hands out, what `_close` and `stdfn_close_all` take back.
use criscv_hw.Prelude.{
  ℕ, zero, suc, ◌+◌, ◌-◌, ◌≤◌, ◌<◌, ◌≡◌, ◌⊎◌, refl, sym, ◌∙◌, inl, inr, Bool, true, false, none,
  some, arith, ltb, ◌==◌, if◌then◌else◌, Bool-cases, ==_iff,
}
use criscv_hw.Prelude.Int.{ℤ, pos, negsuc}
use criscv_hw.Stdfn.FatFs.{FatFs, Done}
use criscv_hw.Stdfn.Files.{
  fd_first, fd_max, ebadf, emfile, Os, put_slot, fd_to_slot, first_free, open_mode, update,
  set_used, close_slot, close_loop, stdfn_close_all,
}
use criscv_hw.Stdfn.Calls.{
  is_ok, open_truncate, open_append, open_slot, open_file, close_file, close, read, read_file,
  lseek, lseek_slot, fstat, fstat_slot, zero_stat,
}
use criscv_hw.Stdfn.Slots.{used, first_free-le, first_free-free, true-ne-false, fr_to_err-negsuc}

module _ {Fil Volume : Type 0} (fs : FatFs Fil Volume) where
  set_used-used :
      (i j : ℕ) (u : Bool) (s : Os Fil Volume)
      → used j (set_used fs i u s) ≡ (if j == i then u else used j s)
  unfolding put_slot
  set_used-used i j u s = ground arith

  update-used :
      (i j : ℕ) (d : Done Fil Volume) (s : Os Fil Volume) → used j (update fs i d s) ≡ used j s
  unfolding update put_slot
  update-used i j d s = ground arith

  open_truncate-used :
      (i flags j : ℕ) (s : Os Fil Volume) → used j (open_truncate fs i flags s) ≡ used j s
  unfolding open_truncate
  open_truncate-used i flags j s =
      ground (arith, update-used i j (fs.f_truncate (s.slots i).fil s.volume) s)

  open_append-used :
      (i flags j : ℕ) (s : Os Fil Volume) → used j (open_append fs i flags s) ≡ used j s
  unfolding open_append
  open_append-used i flags j s =
      ground
        (arith, update-used i j (fs.f_lseek (fs.f_size (s.slots i).fil) (s.slots i).fil s.volume) s)

  -- What `_open` leaves, by its answer: the descriptor of a slot that was free and is taken now, no
  -- other slot's use changed; or an error, no slot's use changed.
  abbrev pub Opened : Os Fil Volume → ℤ × Os Fil Volume → Type 0
  Opened s (pos fd, t) =
      (fd_first ≤ fd)
      × (fd < fd_first + fd_max)
      × (used (fd - fd_first) s ≡ false)
      × ((j : ℕ) → used j t ≡ (if j == fd - fd_first then true else used j s))
  Opened s (negsuc n, t) = (j : ℕ) → used j t ≡ used j s

  open_slot-Opened :
      (i name flags : ℕ) (s : Os Fil Volume)
      → i < fd_max
      → used i s ≡ false
      → Opened s (open_slot fs i name flags s)
  unfolding open_slot
  open_slot-Opened i name flags s h free = elim (Bool-cases (is_ok d.result)) [
    | inl e ↦
        rw (open_slot, e)
          (
            omega arith,
            omega arith,
            rw slot free,
            λ j. rw slot (
                ground (
                  arith,
                  set_used-used i j true
                      (open_append fs i flags (open_truncate fs i flags (update fs i d s))),
                  open_append-used i flags j (open_truncate fs i flags (update fs i d s)),
                  open_truncate-used i flags j (update fs i d s),
                  update-used i j d s,
                )),
          )
    | inr e ↦ rw (open_slot, e) (rw (fr_to_err-negsuc d.result).1 (λ j. update-used i j d s))
  ]
    where
      d : Done Fil Volume
      d = fs.f_open name (open_mode flags) s.mem (s.slots i).fil s.volume

      slot : i + fd_first - fd_first ≡ i
      slot = omega arith

  -- `_open` hands out a descriptor of the table only for a slot that was free, and takes that slot
  -- and no other; when it fails no slot's use changes.
  pub open_file-Opened : (name flags : ℕ) (s : Os Fil Volume) → Opened s (open_file fs name flags s)
  unfolding open_file
  open_file-Opened name flags s = elim (Bool-cases (first_free fd_max 0 s.slots == fd_max)) [
    | inl e ↦ rw (open_file, e) (λ j. refl)
    | inr e ↦
        let le = first_free-le fd_max 0 s.slots in
        let lt : first_free fd_max 0 s.slots < fd_max = ground arith in
        rw (open_file, e)
          (open_slot-Opened (first_free fd_max 0 s.slots) name flags s lt
            (first_free-free fd_max 0 s.slots (omega arith)))
  ]

  -- With all four slots in use `_open` fails with EMFILE and changes nothing.
  pub open_file-emfile :
      (name flags : ℕ) (s : Os Fil Volume)
      → ((j : ℕ) → j < fd_max → used j s ≡ true)
      → open_file fs name flags s ≡ (emfile, s)
  unfolding open_file
  open_file-emfile name flags s all = elim (Bool-cases (first_free fd_max 0 s.slots == fd_max)) [
    | inl e ↦ rw (open_file, e)
    | inr e ↦
        let le = first_free-le fd_max 0 s.slots in
        let lt : first_free fd_max 0 s.slots < fd_max = ground arith in
        absurd (
          true-ne-false (
            sym (all (first_free fd_max 0 s.slots) lt)
            ∙ first_free-free fd_max 0 s.slots (omega arith)))
  ]

  -- A descriptor of the table whose slot is in use.
  abbrev pub IsOpen : ℕ → Os Fil Volume → Type 0
  IsOpen fd s = (fd_first ≤ fd) × (fd < fd_first + fd_max) × (used (fd - fd_first) s ≡ true)

  pub fd_to_slot-open :
      (fd : ℕ) (s : Os Fil Volume)
      → IsOpen fd s
      → fd_to_slot (pos fd) s.slots ≡ some (fd - fd_first)
  unfolding fd_to_slot
  fd_to_slot-open fd s h = ground arith

  fd_to_slot-free :
      (fd : ℕ) (s : Os Fil Volume)
      → used (fd - fd_first) s ≡ false
      → fd_to_slot (pos fd) s.slots ≡ none
  unfolding fd_to_slot
  fd_to_slot-free fd s h = ground arith

  -- What every call on a closed descriptor of the table answers.
  abbrev pub Refuses : ℕ → Os Fil Volume → Type 0
  Refuses fd t =
      ((buf : ℕ) (count : ℤ) → read fs (pos fd) buf count t ≡ some (ebadf, t))
      × ((offset whence : ℕ) → lseek fs (pos fd) offset whence t ≡ (ebadf, t))
      × (fstat fs (pos fd) t ≡ (ebadf, zero_stat))
      × (close fs (pos fd) t ≡ (ebadf, t))

  refuses :
      (fd : ℕ) (t : Os Fil Volume) → fd_first ≤ fd → used (fd - fd_first) t ≡ false → Refuses fd t
  unfolding read read_file lseek lseek_slot fstat fstat_slot close close_file
  refuses fd t h free =
      let file : ltb fd fd_first ≡ false = ground arith in
      let no_slot = fd_to_slot-free fd t free in
      (
        λ buf count. rw (file, no_slot),
        λ offset whence. rw (no_slot, file),
        rw (file, no_slot),
        rw (no_slot, file),
      )

  -- `_close` of an open descriptor frees its slot and no other, whatever FatFs answers; from then on
  -- `_read`, `_lseek`, `_fstat` and `_close` refuse it with EBADF. `_fstat` answers a cleared structure
  -- with it; the others change nothing.
  pub close-frees :
      (fd : ℕ) (s : Os Fil Volume)
      → IsOpen fd s
      → let t = (close fs (pos fd) s).1 in
        ((j : ℕ) → used j t ≡ (if j == fd - fd_first then false else used j s)) × Refuses fd t
  unfolding close close_file
  close-frees fd s h =
      rw (close, fd_to_slot-open fd s h) (frees, refuses fd _ h.0 (frees i ∙ ground arith))
    where
      i : ℕ
      i = fd - fd_first

      d : Done Fil Volume
      d = fs.f_close (s.slots i).fil s.volume

      frees :
          (j : ℕ)
          → used j (set_used fs i false (update fs i d s)) ≡ (if j == i then false else used j s)
      frees j = ground (arith, set_used-used i j false (update fs i d s), update-used i j d s)

  close_slot-used :
      (i j : ℕ) (s : Os Fil Volume)
      → used j (close_slot fs i s) ≡ (if j == i then false else used j s)
  unfolding close_slot
  close_slot-used i j s = elim (Bool-cases (s.slots i).used) [
    | inl e ↦
        let d = fs.f_close (s.slots i).fil s.volume in
        rw (close_slot, e)
          (ground (arith, set_used-used i j false (update fs i d s), update-used i j d s))
    | inr e ↦ rw (close_slot, e) (same (j == i) ((==_iff j i).0) e)
  ]
    where
      same :
          (b : Bool)
          → (b ≡ true → j ≡ i)
          → used i s ≡ false
          → used j s ≡ (if b then false else used j s)
      same true eq free = rw (eq refl) free
      same false eq free = refl

  close_loop-used :
      (left i j : ℕ) (s : Os Fil Volume)
      → (used j s ≡ false) ⊎ ((i ≤ j) × (j < i + left))
      → used j (close_loop fs left i s) ≡ false
  unfolding close_loop
  close_loop-used zero i j s h = ground arith
  close_loop-used (suc left) i j s h =
      close_loop-used left (i + 1) j (close_slot fs i s) (ground (arith, close_slot-used i j s))

  -- After `stdfn_close_all` every slot is free.
  pub stdfn_close_all-free :
      (s : Os Fil Volume) (j : ℕ) → j < fd_max → used j (stdfn_close_all fs s) ≡ false
  unfolding stdfn_close_all
  stdfn_close_all-free s j h = close_loop-used fd_max 0 j s (inr (omega arith, omega arith))
