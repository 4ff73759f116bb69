-- ===== src/Ymodem/Safety.antt =====
-- `ym_receive` writes only into its two regions, and the file that it reports lies in one of them.
use criscv_hw.Prelude.{
  ℕ, zero, suc, ◌+◌, ◌^◌, ◌≤◌, ◌<◌, ◌≡◌, ◌≢◌, ◌⊎◌, refl, ◌∙◌, inl, inr, true, false, not, ◌&&◌,
  Option, none, some, arith, Memory, Outside, Option-cases, Bool-cases, ltb, ◌==◌, if◌then◌else◌,
  length,
}
use criscv_hw.Ymodem.Session.{
  Args, Session, Line, Round, Code, continue, return, received, ym_timeout_loops, ym_type_data,
  ym_ok, ym_err_toobig, give_up, putc, purge, cancel,
}
use criscv_hw.Ymodem.Block.{
  block_len, block_dest, block_blk, block_nblk, number_ok, after_numbers, take_block,
}
use criscv_hw.Ymodem.Header.{on_header}
use criscv_hw.Ymodem.Receive.{
  count_error, on_timeout, ask_again, on_eot, on_can, on_noise, file_type, is_elf, place, accept,
  on_data, on_block, block_number, after_block, receive_block, on_byte, after_byte, step,
  step-timeout, step-byte, Round-cases, run, rounds, start, ym_receive,
}
use criscv_hw.Ymodem.Stores.{Spares, body-kept, copy_bytes-kept, length-header_name}

-- The data region holds a block, and both leave room below 2 ^ 32 for the sum `pos + len`.
pub record HasRoom (a : Args) : Type 0 where
  pub data_room : 1024 ≤ a.data_max
  pub data_word : a.data_max + 1024 < 2 ^ 32
  pub prog_word : a.prog_max + 1024 < 2 ^ 32

-- The length that the end of the file reports: the header's, if it gives one below what has come.
abbrev pub reported : Session → ℕ
reported s = if not (s.size == 0) && ltb s.size s.pos then s.size else s.pos

module _ (a : Args) (room : HasRoom a) (m : Memory) (x : ℕ)
    (not_prog : Outside a.prog_base a.prog_max x)
    (not_data : Outside a.data_base a.data_max x) where
  -- Where the file goes is settled with the first block.
  abbrev InProg : Session → Type 0
  InProg s = (s.dest ≡ a.prog_base) × (s.max ≡ a.prog_max) × ((s.pos ≡ 0) ⊎ (s.type ≢ ym_type_data))

  abbrev InData : Session → Type 0
  InData s = (s.dest ≡ a.data_base) × (s.max ≡ a.data_max) × (s.type ≡ ym_type_data) × (0 < s.pos)

  record Safe (s : Session) : Type 0 where
    region : InProg s ⊎ InData s
    pos_le : s.pos ≤ s.max
    length_le : s.length ≤ s.pos
    finished : s.done ≡ true → s.length ≡ reported s
    kept : s.mem x ≡ m x
    name_short : length s.name ≤ 19

  -- What a round leaves: the invariant, or a return that has kept the byte at `x` and that reports a
  -- file only under the invariant.
  abbrev Leaves : Round → Type 0
  Leaves (continue t) = Safe t
  Leaves (return code t) = (t.mem x ≡ m x) × (code ≡ ym_ok → Safe t × (t.done ≡ true))

  take_block-Spares :
      (c : ℕ) (s : Session) → Safe s → Spares (block_dest s (block_len c)) (block_len c) x
  unfolding block_dest
  take_block-Spares c s h = ground arith

  take_block-kept : (c : ℕ) (s : Session) → Safe s → (take_block c s).mem x ≡ s.mem x
  unfolding take_block
  take_block-kept c s h =
      body-kept (number_ok (block_blk s) (block_nblk s)) (block_len c) (block_dest s (block_len c))
        (after_numbers s) s.mem x (take_block-Spares c s h)

  after_block-Safe : (c : ℕ) (s : Session) → Safe s → Safe (after_block c s)
  after_block-Safe c s h = record {
    region = h.region;
    pos_le = h.pos_le;
    length_le = h.length_le;
    finished = h.finished;
    kept = take_block-kept c s h ∙ h.kept;
    name_short = h.name_short;
  }

  count_error-Safe : (s : Session) → Safe s → Leaves (count_error ask_again s)
  unfolding count_error ask_again purge putc cancel
  count_error-Safe s h = ground arith

  on_timeout-Safe : (s : Session) → Safe s → Leaves (on_timeout s)
  unfolding on_timeout count_error putc cancel
  on_timeout-Safe s h = ground arith

  on_eot-Safe : (s : Session) → Safe s → Leaves (on_eot s)
  unfolding on_eot putc
  on_eot-Safe s h = ground arith

  on_can-Safe : (s : Session) → Safe s → Leaves (on_can s)
  unfolding on_can
  on_can-Safe s h = ground arith

  on_noise-Safe : (s : Session) → Safe s → Leaves (on_noise s)
  unfolding on_noise
  on_noise-Safe s h = ground (arith, count_error-Safe s h)

  on_header-Safe : (len : ℕ) (p : Option ℕ) (s : Session) → Safe s → Leaves (on_header len p s)
  unfolding on_header putc cancel
  on_header-Safe len none s h = ground arith
  on_header-Safe len (some p) s h = ground (arith, length-header_name s.mem p)

  -- The data of a block that fits behind what has come so far.
  abbrev Fits : ℕ → Option ℕ → Session → Type 0
  Fits len none s = (0 < len) × (len ≤ 1024)
  Fits len (some p) s = (0 < len) × (len ≤ 1024) × (s.pos + len ≤ s.max)

  block_dest-Fits :
      (c : ℕ) (s : Session) → Safe s → Fits (block_len c) (block_dest s (block_len c)) s
  unfolding block_dest
  block_dest-Fits c s h = ground arith

  accept-Safe :
      (len : ℕ) (s : Session)
      → Safe s
      → s.done ≡ false
      → 0 < s.pos
      → s.pos + len ≤ s.max
      → Leaves (accept len s)
  unfolding accept putc
  accept-Safe len s h more some_pos fits = ground arith

  on_first-Safe :
      (len p : ℕ) (s : Session)
      → Safe s
      → Fits len (some p) s
      → s.done ≡ false
      → s.pos ≡ 0
      → Leaves (
          let t = place a p len s in
          if ltb t.max t.size then give_up ym_err_toobig t else accept len t)
  unfolding place accept putc cancel
  on_first-Safe len p s h fits more z =
      elim (Bool-cases (file_type a.force_type (is_elf s.mem p) == ym_type_data)) [
        | inl e ↦ rw e (ground (arith, copy_bytes-kept len 0 a.data_base a.prog_base s.mem x))
        | inr e ↦ rw e (ground arith)
      ]

  on_data-Safe :
      (len : ℕ) (p : Option ℕ) (s : Session)
      → Safe s
      → s.done ≡ false
      → Fits len p s
      → Leaves (on_data a len p s)
  unfolding on_data cancel putc
  on_data-Safe len none s h more fits = ground arith
  on_data-Safe len (some p) s h more fits =
      ground (arith, on_first-Safe len p s h fits, accept-Safe len s h)

  on_block-Safe :
      (blk len : ℕ) (p : Option ℕ) (s : Session)
      → Safe s
      → Fits len p s
      → Leaves (on_block a blk len p s)
  unfolding on_block cancel putc
  on_block-Safe blk len p s h fits =
      ground
        (arith, on_header-Safe len p s h, λ (e : s.done ≡ false). on_data-Safe len p s h e fits)

  receive_block-Safe : (c : ℕ) (s : Session) → Safe s → Leaves (receive_block a c s)
  unfolding receive_block
  receive_block-Safe c s h = ground (
    arith,
    count_error-Safe (after_block c s) (after_block-Safe c s h),
    on_block-Safe (block_number (block_blk s)) (block_len c) (block_dest s (block_len c))
        (record (after_block c s) { errors = 0 }),
    after_block-Safe c s h,
    block_dest-Fits c s h,
  )

  on_byte-Safe : (c : ℕ) (s : Session) → Safe s → Leaves (on_byte a c s)
  unfolding on_byte
  on_byte-Safe c s h =
      ground (arith, on_eot-Safe s h, on_can-Safe s h, on_noise-Safe s h, receive_block-Safe c s h)

  after_byte-Safe : (s : Session) → Safe s → Safe (after_byte s)
  after_byte-Safe s h = ground arith

  step-Safe : (s : Session) → Safe s → Leaves (step a s)
  step-Safe s h = elim (Option-cases (received ym_timeout_loops s.line)) [
    | inl e ↦ rw (step-timeout a s e) (on_timeout-Safe (after_byte s) (after_byte-Safe s h))
    | inr (c, e) ↦ rw (step-byte a c s e) (on_byte-Safe c (after_byte s) (after_byte-Safe s h))
  ]

  abbrev Ends : Option (Code × Session) → Type 0
  Ends none = Unit
  Ends (some (code, t)) = Leaves (return code t)

  run-Safe : (fuel : ℕ) (s : Session) → Safe s → Ends (run fuel a s)
  unfolding run
  run-Safe zero s h = tt
  run-Safe (suc fuel) s h = elim (Round-cases (step a s)) [
    | inl (u, e) ↦ let left : Safe u = rw e at (step-Safe s h) in rw (run, e) (run-Safe fuel u left)
    | inr (code, u, e) ↦
        let left : Leaves (return code u) = rw e at (step-Safe s h) in rw (run, e) left
  ]

  start-Safe : (line : Line) → Safe (start a line m)
  unfolding start putc
  start-Safe line = ground arith

  ym_receive-Ends : (line : Line) → Ends (ym_receive a line m)
  unfolding ym_receive rounds
  ym_receive-Ends line = run-Safe (rounds line) (start a line m) (start-Safe line)

-- If the data region holds at least 1024 bytes and both regions are more than 1024 bytes shorter
-- than 2 ^ 32, `ym_receive` writes nowhere but into its two regions: a byte outside both is as
-- before, whatever comes over the line and however the transfer ends.
pub ym_receive-mem :
    (a : Args) (line : Line) (m : Memory) {code : Code} {t : Session} (x : ℕ)
    → HasRoom a
    → Outside a.prog_base a.prog_max x
    → Outside a.data_base a.data_max x
    → ym_receive a line m ≡ some (code, t)
    → t.mem x ≡ m x
ym_receive-mem a line m {code} {t} x room not_prog not_data e =
    let left : Leaves a room m x not_prog not_data (return code t) =
      rw e at (ym_receive-Ends a room m x not_prog not_data line) in
    left.0

-- The file of a session lies in the region that its type calls for, and `length` is the length that
-- its header gave, or all that came if that is none or too much.
pub record IsPlaced (a : Args) (t : Session) : Type 0 where
  pub region :
      ((t.dest ≡ a.prog_base) × (t.length ≤ a.prog_max) × ((t.pos ≡ 0) ⊎ (t.type ≢ ym_type_data)))
      ⊎ ((t.dest ≡ a.data_base) × (t.length ≤ a.data_max) × (t.type ≡ ym_type_data))
  pub length_eq : t.length ≡ reported t
  pub name_short : length t.name ≤ 19

-- For a data region of at least 1024 bytes, and both regions more than 1024 bytes shorter than
-- 2 ^ 32, a transfer that ends well leaves its file within one region, the data region exactly for data
-- (an empty file has no type of its own), with the length of the header if that is given and does
-- not exceed what came, else the length of what came, and gives it a name of at most 19 bytes.
pub ym_receive-IsPlaced :
    (a : Args) (line : Line) (m : Memory) {t : Session}
    → HasRoom a
    → ym_receive a line m ≡ some (ym_ok, t)
    → IsPlaced a t
ym_receive-IsPlaced a line m {t} room e =
    let x : ℕ = a.prog_base + a.prog_max + (a.data_base + a.data_max) in
    let not_prog : Outside a.prog_base a.prog_max x = omega arith in
    let not_data : Outside a.data_base a.data_max x = omega arith in
    let left : Leaves a room m x not_prog not_data (return ym_ok t) =
      rw e at (ym_receive-Ends a room m x not_prog not_data line) in
    let safe : Safe a room m x not_prog not_data t × (t.done ≡ true) = left.1 refl in
    record {
      region = ground arith;
      length_eq = safe.0.finished safe.1;
      name_short = safe.0.name_short;
    }
