-- ===== src/Ymodem/Wire.antt =====
-- What a YMODEM sender puts on the line, and what it makes of the loop over a block of bootbin/ymodem.c.
use criscv_hw.Prelude.{
  ℕ, zero, suc, ◌+◌, ◌-◌, ◌/◌, ◌%◌, ◌^◌, ◌≤◌, ◌<◌, ◌≡◌, ◌⊎◌, refl, ap, ◌∙◌, inl, inr, Bool, true,
  ◌&&◌, Option, some, List, [], ◌∷◌, ◌++◌, length, length-append, get_or, arith, ◌==◌,
  if◌then◌else◌, All, Memory, store, bit_xor,
}
use criscv_hw.Ymodem.Session.{Line, Session, soh, stx, remaining, ym_timeout_loops}
use criscv_hw.Ymodem.Crc.{crc_byte, crc_bytes}
use criscv_hw.Ymodem.Register.{crc16}
use criscv_hw.Ymodem.Checksum.{crc_bytes-check, crc16-lt}
use criscv_hw.Ymodem.Block.{block_len, block_dest, number_ok, put_byte, body_loop, body, take_block}
use criscv_hw.Ymodem.Feeds.{Feeds}

-- The byte that begins a block of this length, and the block behind it: its number, the number's
-- complement, the data and its CRC-16/XMODEM, the high byte first.
abbrev pub opener : List ℕ → ℕ
opener d = if length d == 1024 then stx else soh

abbrev pub crc_hi : List ℕ → ℕ
crc_hi d = crc16 0 d / 256

abbrev pub crc_lo : List ℕ → ℕ
crc_lo d = crc16 0 d % 256

abbrev pub block_tail : ℕ → List ℕ → List ℕ
block_tail n d = n ∷ (255 - n) ∷ (d ++ crc_hi d ∷ crc_lo d ∷ [])

abbrev pub block_wire : ℕ → List ℕ → List ℕ
block_wire n d = opener d ∷ block_tail n d

-- Data of a block's length, in bytes.
pub record IsBlock (d : List ℕ) : Type 0 where
  pub len : (length d ≡ 128) ⊎ (length d ≡ 1024)
  pub bytes : All (λ c. c < 256) d

-- The memory with the bytes from index `i` on of a block of length `len` at `p`.
unfoldable pub put_bytes : Option ℕ → ℕ → ℕ → List ℕ → Memory → Memory
put_bytes p len i [] mem = mem
put_bytes p len i (c ∷ cs) mem = put_bytes p len (i + 1) cs (put_byte p len i c mem)

pub body_loop-Feeds :
    (bytes : List ℕ) (i len : ℕ) (p : Option ℕ) (crc : ℕ) (line rest : Line) (mem : Memory)
    → Feeds bytes line rest
    → body_loop (length bytes) i len p crc line mem ≡ record {
      ok = true;
      crc = crc_bytes crc bytes;
      line = rest;
      mem = put_bytes p len i bytes mem;
    }
unfolding body_loop crc_bytes put_bytes
body_loop-Feeds [] i len p crc line rest mem h =
    ap (λ (l : Line). record { ok = true; crc = crc; line = l; mem = mem }) h
body_loop-Feeds (c ∷ cs) i len p crc line rest mem h =
    rw (body_loop, h.0)
      (body_loop-Feeds cs (i + 1) len p (crc_byte crc c) (remaining ym_timeout_loops line) rest
        (put_byte p len i c mem) h.1)

pub put_bytes-kept :
    (p len i : ℕ) (bytes : List ℕ) (mem : Memory) (x : ℕ)
    → (x < p + i) ⊎ (p + len ≤ x)
    → put_bytes (some p) len i bytes mem x ≡ mem x
unfolding put_bytes put_byte store
put_bytes-kept p len i [] mem x h = refl
put_bytes-kept p len i (c ∷ cs) mem x h =
    put_bytes-kept p len (i + 1) cs (put_byte (some p) len i c mem) x (omega arith) ∙ ground arith

pub put_bytes-at :
    (p len i : ℕ) (bytes : List ℕ) (mem : Memory) (j : ℕ)
    → j < length bytes
    → i + j < len
    → put_bytes (some p) len i bytes mem (p + (i + j)) ≡ get_or bytes j 0
unfolding put_bytes put_byte store
put_bytes-at p len i [] mem j h k = absurd (omega arith)
put_bytes-at p len i (c ∷ cs) mem zero h k =
    put_bytes-kept p len (i + 1) cs (put_byte (some p) len i c mem) (p + (i + 0)) (omega arith)
    ∙ ground arith
put_bytes-at p len i (c ∷ cs) mem (suc j) h k =
    let e : i + suc j ≡ i + 1 + j = omega arith in
    rw e
      (put_bytes-at p len (i + 1) cs (put_byte (some p) len i c mem) j (omega arith) (omega arith))

all_below : ℕ → (ℕ → Bool) → Bool
all_below zero p = true
all_below (suc n) p = p n && all_below n p

all_below-at : (n : ℕ) (p : ℕ → Bool) (x : ℕ) → all_below n p ≡ true → x < n → p x ≡ true
unfolding all_below
all_below-at zero p x h lt = absurd (omega arith)
all_below-at (suc n) p x h lt = ground (arith, all_below-at n p x)

number_table : all_below 256 (λ n. bit_xor n (255 - n) == 0xFF) ≡ true
unfolding all_below
number_table = refl

-- The memory once the data of a block is stored.
abbrev pub stored : Session → List ℕ → Memory
stored s d = put_bytes (block_dest s (length d)) (length d) 0 (d ++ crc_hi d ∷ crc_lo d ∷ []) s.mem

pub opener-block_len : (d : List ℕ) → IsBlock d → block_len (opener d) ≡ length d
opener-block_len d b = elim b.len [ inl e ↦ rw e refl | inr e ↦ rw e refl ]

-- The block of a sender is taken whole and found good.
pub take_block-wire :
    (s : Session) (n : ℕ) (d : List ℕ) (rest : Line)
    → IsBlock d
    → n < 256
    → Feeds (block_tail n d) s.line rest
    → take_block (opener d) s ≡ record {
      ok = true;
      crc = crc_bytes 0 (d ++ crc_hi d ∷ crc_lo d ∷ []);
      line = rest;
      mem = stored s d;
    }
unfolding take_block body number_ok
take_block-wire s n d rest b h f =
    let l = length-append d (crc_hi d ∷ crc_lo d ∷ []) in
    let e : length d + 2 ≡ length (d ++ crc_hi d ∷ crc_lo d ∷ []) = omega arith in
    let good : (bit_xor n (255 - n) == 0xFF) ≡ true =
      all_below-at 256 (λ k. bit_xor k (255 - k) == 0xFF) n number_table h in
    rw (opener-block_len d b, f.0, f.1.0, good, e)
      (body_loop-Feeds (d ++ crc_hi d ∷ crc_lo d ∷ []) 0 (length d) (block_dest s (length d)) 0 _
        rest s.mem f.1.1)

pub crc_bytes-wire :
    (d : List ℕ) → IsBlock d → crc_bytes 0 (d ++ crc_hi d ∷ crc_lo d ∷ []) % 2 ^ 16 ≡ 0
crc_bytes-wire d b =
    let lt = crc16-lt 0 d (omega arith) in
    (crc_bytes-check d (crc_hi d) (crc_lo d) b.bytes (omega arith) (omega arith)).1 (omega arith)
