-- ===== src/Ymodem/Stores.antt =====
-- The stores of bootbin/ymodem.c's `ym_receive` keep to their destination, and the name of a file to its
-- field.
use criscv_hw.Prelude.{
  ℕ, zero, suc, ◌+◌, ◌≤◌, ◌<◌, ◌≡◌, ◌⊎◌, refl, ◌∙◌, inl, inr, Bool, true, false, Option, none, some,
  arith, Memory, store, Outside, Option-cases, length,
}
use criscv_hw.Ymodem.Session.{Line, received, ym_timeout_loops}
use criscv_hw.Ymodem.Block.{put_byte, body_loop, body}
use criscv_hw.Ymodem.Header.{copy_name, header_name}
use criscv_hw.Ymodem.Receive.{copy_bytes}

-- The address `x` is not among the `len` bytes behind `p`.
abbrev pub Spares : Option ℕ → ℕ → ℕ → Type 0
Spares none len x = Unit
Spares (some p) len x = Outside p len x

pub put_byte-kept :
    (p : Option ℕ) (len i c : ℕ) (mem : Memory) (x : ℕ)
    → Spares p len x
    → put_byte p len i c mem x ≡ mem x
unfolding put_byte store
put_byte-kept none len i c mem x h = refl
put_byte-kept (some p) len i c mem x h = ground arith

pub body_loop-kept :
    (left i len : ℕ) (p : Option ℕ) (crc : ℕ) (line : Line) (mem : Memory) (x : ℕ)
    → Spares p len x
    → (body_loop left i len p crc line mem).mem x ≡ mem x
unfolding body_loop
body_loop-kept zero i len p crc line mem x h = refl
body_loop-kept (suc left) i len p crc line mem x h =
    elim (Option-cases (received ym_timeout_loops line)) [
      | inl e ↦ rw (body_loop, e)
      | inr (c, e) ↦
          rw (body_loop, e)
            (body_loop-kept left (i + 1) len p _ _ (put_byte p len i c mem) x h
              ∙ put_byte-kept p len i c mem x h)
    ]

pub body-kept :
    (good : Bool) (len : ℕ) (p : Option ℕ) (line : Line) (mem : Memory) (x : ℕ)
    → Spares p len x
    → (body good len p line mem).mem x ≡ mem x
unfolding body
body-kept true len p line mem x h = body_loop-kept (len + 2) 0 len p 0 line mem x h
body-kept false len p line mem x h = refl

pub copy_bytes-kept :
    (left i to from : ℕ) (mem : Memory) (x : ℕ)
    → (x < to + i) ⊎ (to + i + left ≤ x)
    → copy_bytes left i to from mem x ≡ mem x
unfolding copy_bytes store
copy_bytes-kept zero i to from mem x h = refl
copy_bytes-kept (suc left) i to from mem x h =
    copy_bytes-kept left (i + 1) to from (store mem (to + i) (mem (from + i))) x (omega arith)
    ∙ ground arith

length-copy_name : (left i : ℕ) (mem : Memory) (p : ℕ) → length (copy_name left i mem p) ≤ left
unfolding copy_name
length-copy_name zero i mem p = omega arith
length-copy_name (suc left) i mem p = let rest = length-copy_name left (i + 1) mem p in ground arith

pub length-header_name : (mem : Memory) (p : ℕ) → length (header_name mem p) ≤ 19
unfolding header_name
length-header_name mem p = length-copy_name 19 0 mem p
