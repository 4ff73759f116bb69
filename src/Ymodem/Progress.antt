-- ===== src/Ymodem/Progress.antt =====
-- Every round of `ym_receive` takes a poll off the line, or counts a try or an error.
use criscv_hw.Prelude.{
  ℕ, zero, suc, ◌+◌, ◌-◌, ◌*◌, ◌≤◌, ◌<◌, ◌≡◌, refl, sym, ◌∙◌, Bool, true, false, Option, none, some,
  [], ◌∷◌, arith, length, Memory, Option-cases, inl, inr,
}
use criscv_hw.Ymodem.Session.{
  Args, Code, Session, Line, continue, getc, received, remaining, purge_loops, ym_timeout_loops,
  putc, purge_loop, purge,
}
use criscv_hw.Ymodem.Block.{
  block_len, block_dest, number_ok, body_loop, body, block_blk, block_nblk, after_numbers,
  take_block,
}
use criscv_hw.Ymodem.Header.{on_header}
use criscv_hw.Ymodem.Receive.{
  count_error, on_timeout, ask_again, on_eot, on_can, on_noise, place, accept, on_data, on_block,
  block_number, after_block, receive_block, on_byte, after_byte, step, step-timeout, step-byte,
  Round-cases, run, rounds, start, ym_receive,
}

pub remaining-le : (t : ℕ) (line : Line) → length (remaining t line) ≤ length line
unfolding getc
remaining-le t [] = omega arith
remaining-le t (none ∷ polls) = ground (arith, remaining-le (t - 1) polls)
remaining-le t (some b ∷ polls) = omega arith

pub remaining-lt :
    (t : ℕ) (line : Line) {c : ℕ}
    → received t line ≡ some c
    → length (remaining t line) < length line
unfolding getc
remaining-lt t [] h = cc
remaining-lt t (none ∷ polls) {c} h = ground (arith, remaining-lt (t - 1) polls {c = c})
remaining-lt t (some b ∷ polls) h = omega arith

pub received-lt : (t : ℕ) (line : Line) {c : ℕ} → received t line ≡ some c → c < 256
unfolding getc
received-lt t [] h = cc
received-lt t (none ∷ polls) {c} h = ground (arith, received-lt (t - 1) polls {c = c})
received-lt t (some b ∷ polls) h = ground arith

pub purge_loop-le : (fuel : ℕ) (line : Line) → length (purge_loop fuel line) ≤ length line
unfolding purge_loop
purge_loop-le zero line = omega arith
purge_loop-le (suc fuel) line =
    ground (arith, remaining-le purge_loops line, purge_loop-le fuel (remaining purge_loops line))

-- Fuel beyond the polls to come changes nothing: the loop ends by its own test.
pub purge_loop-enough :
    (fuel : ℕ) (line : Line)
    → length line < fuel
    → purge_loop (suc fuel) line ≡ purge_loop fuel line
unfolding purge_loop
purge_loop-enough zero line h = absurd (omega arith)
purge_loop-enough (suc fuel) line h = elim (Option-cases (received purge_loops line)) [
  | inl e ↦ rw (purge_loop, e)
  | inr (c, e) ↦
      rw (purge_loop, e)
        (purge_loop-enough fuel (remaining purge_loops line)
          (omega (arith, remaining-lt purge_loops line e)))
]

pub body_loop-le :
    (left i len : ℕ) (p : Option ℕ) (crc : ℕ) (line : Line) (mem : Memory)
    → length (body_loop left i len p crc line mem).line ≤ length line
unfolding body_loop
body_loop-le zero i len p crc line mem = omega arith
body_loop-le (suc left) i len p crc line mem =
    elim (Option-cases (received ym_timeout_loops line)) [
      | inl e ↦ rw (length, e) (remaining-le ym_timeout_loops line)
      | inr (c, e) ↦
          rw (length, e)
            (omega (
              arith,
              remaining-le ym_timeout_loops line,
              body_loop-le left (i + 1) len p _ (remaining ym_timeout_loops line) _,
            ))
    ]

pub body-le :
    (good : Bool) (len : ℕ) (p : Option ℕ) (line : Line) (mem : Memory)
    → length (body good len p line mem).line ≤ length line
unfolding body
body-le true len p line mem = body_loop-le (len + 2) 0 len p 0 line mem
body-le false len p line mem = omega arith

-- The tries and errors still allowed.
abbrev pub budget : Session → ℕ
budget s = 61 - s.tries + (11 - s.errors)

-- Nothing comes back on the line, and no try is given back.
pub record Keeps (s t : Session) : Type 0 where
  pub line_le : length t.line ≤ length s.line
  pub tries_eq : t.tries ≡ s.tries

ask_again-Keeps : (s : Session) → Keeps s (ask_again s)
unfolding ask_again purge putc
ask_again-Keeps s = record { line_le = purge_loop-le (suc (length s.line)) s.line; tries_eq = refl }

on_timeout-spends :
    (s : Session) {t : Session}
    → on_timeout s ≡ continue t
    → (length t.line ≤ length s.line) × (budget t < budget s)
unfolding on_timeout count_error putc
on_timeout-spends s h = ground arith

count_error-Keeps : (s : Session) {t : Session} → count_error ask_again s ≡ continue t → Keeps s t
unfolding count_error
count_error-Keeps s h = ground (arith, ask_again-Keeps (record s { errors = s.errors + 1 }))

on_eot-Keeps : (s : Session) {t : Session} → on_eot s ≡ continue t → Keeps s t
unfolding on_eot putc
on_eot-Keeps s h = ground (arith, remaining-le ym_timeout_loops s.line)

on_can-Keeps : (s : Session) {t : Session} → on_can s ≡ continue t → Keeps s t
unfolding on_can
on_can-Keeps s h = ground (arith, remaining-le ym_timeout_loops s.line)

on_noise-Keeps : (s : Session) {t : Session} → on_noise s ≡ continue t → Keeps s t
unfolding on_noise
on_noise-Keeps s {t = t} h = ground (arith, count_error-Keeps s {t = t})

on_header-Keeps :
    (len : ℕ) (p : Option ℕ) (s : Session) {t : Session}
    → on_header len p s ≡ continue t
    → Keeps s t
unfolding on_header putc
on_header-Keeps len none s h = ground arith
on_header-Keeps len (some p) s h = ground arith

on_data-Keeps :
    (a : Args) (len : ℕ) (p : Option ℕ) (s : Session) {t : Session}
    → on_data a len p s ≡ continue t
    → Keeps s t
unfolding on_data place accept putc
on_data-Keeps a len none s h = ground arith
on_data-Keeps a len (some p) s h = ground arith

on_block-Keeps :
    (a : Args) (blk len : ℕ) (p : Option ℕ) (s : Session) {t : Session}
    → on_block a blk len p s ≡ continue t
    → Keeps s t
unfolding on_block putc
on_block-Keeps a blk len p s {t = t} h =
    ground (arith, on_header-Keeps len p s {t = t}, on_data-Keeps a len p s {t = t})

pub take_block-le : (c : ℕ) (s : Session) → length (take_block c s).line ≤ length s.line
unfolding take_block
take_block-le c s = omega (
  arith,
  remaining-le ym_timeout_loops s.line,
  remaining-le ym_timeout_loops (remaining ym_timeout_loops s.line),
  body-le (number_ok (block_blk s) (block_nblk s)) (block_len c) (block_dest s (block_len c))
      (after_numbers s) s.mem,
)

receive_block-Keeps :
    (a : Args) (c : ℕ) (s : Session) {t : Session} → receive_block a c s ≡ continue t → Keeps s t
unfolding receive_block
receive_block-Keeps a c s {t} h = ground (
  arith,
  take_block-le c s,
  count_error-Keeps (after_block c s) {t = t},
  on_block-Keeps a (block_number (block_blk s)) (block_len c) (block_dest s (block_len c))
      (record (after_block c s) { errors = 0 }) {t = t},
)

on_byte-Keeps :
    (a : Args) (c : ℕ) (s : Session) {t : Session} → on_byte a c s ≡ continue t → Keeps s t
unfolding on_byte
on_byte-Keeps a c s {t} h = ground (
  arith,
  on_eot-Keeps s {t = t},
  on_can-Keeps s {t = t},
  on_noise-Keeps s {t = t},
  receive_block-Keeps a c s {t = t},
)

abbrev pub measure : Session → ℕ
measure s = 12 * length s.line + budget s

-- A round that goes on leaves less to do.
pub step-measure :
    (a : Args) (s : Session) {t : Session} → step a s ≡ continue t → measure t < measure s
step-measure a s h = elim (Option-cases (received ym_timeout_loops s.line)) [
  | inl e ↦ omega (
    arith,
    remaining-le ym_timeout_loops s.line,
    on_timeout-spends (after_byte s) (sym (step-timeout a s e) ∙ h),
  )
  | inr (c, e) ↦ omega (
    arith,
    remaining-lt ym_timeout_loops s.line e,
    on_byte-Keeps a c (after_byte s) (sym (step-byte a c s e) ∙ h),
  )
]

-- With a round of fuel for each unit of the measure the loop returns.
pub run-returns :
    (fuel : ℕ) (a : Args) (s : Session)
    → measure s < fuel
    → (code : Code) × (t : Session) × (run fuel a s ≡ some (code, t))
unfolding run
run-returns zero a s h = absurd (omega arith)
run-returns (suc fuel) a s h = elim (Round-cases (step a s)) [
  | inl (t, e) ↦ rw (run, e) (run-returns fuel a t (omega (arith, step-measure a s e)))
  | inr (code, t, e) ↦ (code, t, rw (run, e))
]

-- Whatever comes over the line, and then nothing, `ym_receive` returns: the fuel of the model is
-- enough.
pub ym_receive-returns :
    (a : Args) (line : Line) (mem : Memory)
    → (code : Code) × (t : Session) × (ym_receive a line mem ≡ some (code, t))
unfolding ym_receive rounds start putc
ym_receive-returns a line mem = run-returns (rounds line) a (start a line mem) (omega arith)
