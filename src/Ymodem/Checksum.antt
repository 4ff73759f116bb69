-- ===== src/Ymodem/Checksum.antt =====
-- The checksum of ymodem.c against CRC-16/XMODEM.
use criscv_hw.Prelude.{
  ℕ, zero, suc, ◌+◌, ◌*◌, ◌%◌, ◌^◌, ◌<◌, ◌≡◌, ◌↔◌, refl, sym, ap, ◌∙◌, List, [], ◌∷◌, ◌++◌, bit_xor,
  arith, All,
}
use criscv_hw.Prelude.Bits.{xor-lt, xor_self, xor-zero}
use criscv_hw.Prelude.Xor.{eq_of_xor}
use criscv_hw.Ymodem.Crc.{crc_byte, crc_bytes}
use criscv_hw.Ymodem.Register.{
  crc16_step, crc16_bits, byte_bits, crc16, crc16_step-lt, xor-low, idle, crc_bits-low, shifted,
  top_bits, feed_bits, top_bits-byte, shifted-byte,
}

crc_byte-low :
    (crc c : ℕ) → c < 256 → crc_byte crc c % 2 ^ 16 ≡ crc16_bits (crc % 2 ^ 16) (byte_bits c)
unfolding crc_byte
crc_byte-low crc c h =
    crc_bits-low 8 (bit_xor crc (c * 2 ^ 8))
    ∙ (ap (idle 8) (xor-low crc (c * 2 ^ 8) (omega arith))
        ∙ rw (feed_bits 8 (crc % 2 ^ 16) (c * 2 ^ 8), top_bits-byte c h, shifted-byte c, xor-zero))

-- The unmasked checksum of ymodem.c is CRC-16/XMODEM in its low 16 bits, from any start and over
-- any bytes.
pub crc_bytes-crc16 :
    (crc : ℕ) (cs : List ℕ)
    → All (λ c. c < 256) cs
    → crc_bytes crc cs % 2 ^ 16 ≡ crc16 (crc % 2 ^ 16) cs
unfolding crc_bytes crc16
crc_bytes-crc16 crc [] h = refl
crc_bytes-crc16 crc (c ∷ cs) h =
    crc_bytes-crc16 (crc_byte crc c) cs h.1 ∙ ap (λ r. crc16 r cs) (crc_byte-low crc c h.0)

-- A register that becomes 0 on a zero bit was 0, since the generator is odd.
crc16_step-eq_zero : (r : ℕ) → r < 2 ^ 16 → crc16_step r 0 ≡ 0 → r ≡ 0
unfolding crc16_step
crc16_step-eq_zero r h e = ground (arith, eq_of_xor (2 * r % 2 ^ 16) 0x1021)

idle-eq_zero : (n r : ℕ) → r < 2 ^ 16 → idle n r ≡ 0 → r ≡ 0
unfolding idle
idle-eq_zero zero r h e = e
idle-eq_zero (suc n) r h e =
    crc16_step-eq_zero r h (idle-eq_zero n (crc16_step r 0) (crc16_step-lt r 0) e)

idle-zero : (n : ℕ) → idle n 0 ≡ 0
unfolding idle crc16_step
idle-zero zero = refl
idle-zero (suc n) = idle-zero n

crc16_bits-append :
    (r : ℕ) (bs ds : List ℕ) → crc16_bits r (bs ++ ds) ≡ crc16_bits (crc16_bits r bs) ds
unfolding crc16_bits
crc16_bits-append r [] ds = refl
crc16_bits-append r (b ∷ bs) ds = crc16_bits-append (crc16_step r b) bs ds

two_bytes :
    (hi lo : ℕ) → hi < 256 → lo < 256 → top_bits 16 (hi * 256 + lo) ≡ byte_bits hi ++ byte_bits lo
two_bytes hi lo h l = ground arith

shifted-word : (w : ℕ) → shifted 16 w ≡ 0
shifted-word w = omega arith

-- Two more bytes take the register to what it makes of its difference from them.
crc16-two_bytes :
    (r hi lo : ℕ)
    → hi < 256
    → lo < 256
    → crc16 r (hi ∷ lo ∷ []) ≡ idle 16 (bit_xor r (hi * 256 + lo))
unfolding crc16
crc16-two_bytes r hi lo h l =
    let w : ℕ = hi * 256 + lo in
    sym (crc16_bits-append r (byte_bits hi) (byte_bits lo))
    ∙ (ap (crc16_bits r) (sym (two_bytes hi lo h l))
        ∙ rw (feed_bits 16 r w, shifted-word w, xor-zero))

crc16-append : (r : ℕ) (cs ds : List ℕ) → crc16 r (cs ++ ds) ≡ crc16 (crc16 r cs) ds
unfolding crc16
crc16-append r [] ds = refl
crc16-append r (c ∷ cs) ds = crc16-append (crc16_bits r (byte_bits c)) cs ds

crc16_bits-lt : (r : ℕ) (bs : List ℕ) → r < 2 ^ 16 → crc16_bits r bs < 2 ^ 16
unfolding crc16_bits
crc16_bits-lt r [] h = h
crc16_bits-lt r (b ∷ bs) h = crc16_bits-lt (crc16_step r b) bs (crc16_step-lt r b)

pub crc16-lt : (r : ℕ) (cs : List ℕ) → r < 2 ^ 16 → crc16 r cs < 2 ^ 16
unfolding crc16
crc16-lt r [] h = h
crc16-lt r (c ∷ cs) h = crc16-lt (crc16_bits r (byte_bits c)) cs (crc16_bits-lt r (byte_bits c) h)

All-append_two :
    (cs : List ℕ) {hi lo : ℕ}
    → All (λ c. c < 256) cs
    → hi < 256
    → lo < 256
    → All (λ c. c < 256) (cs ++ hi ∷ lo ∷ [])
All-append_two [] h p q = (p, (q, tt))
All-append_two (c ∷ cs) h p q = (h.0, All-append_two cs h.1 p q)

-- The test at the end of a block passes exactly when the two bytes behind its data are the
-- CRC-16/XMODEM of the data, the high byte first.
pub crc_bytes-check :
    (cs : List ℕ) (hi lo : ℕ)
    → All (λ c. c < 256) cs
    → hi < 256
    → lo < 256
    → (crc_bytes 0 (cs ++ hi ∷ lo ∷ []) % 2 ^ 16 ≡ 0) ↔ (crc16 0 cs ≡ hi * 256 + lo)
crc_bytes-check cs hi lo h p q = (forth, back)
  where
    r : ℕ
    r = crc16 0 cs

    left : crc_bytes 0 (cs ++ hi ∷ lo ∷ []) % 2 ^ 16 ≡ idle 16 (bit_xor r (hi * 256 + lo))
    left =
        crc_bytes-crc16 0 (cs ++ hi ∷ lo ∷ []) (All-append_two cs h p q)
        ∙ (crc16-append 0 cs (hi ∷ lo ∷ []) ∙ crc16-two_bytes r hi lo p q)

    forth : crc_bytes 0 (cs ++ hi ∷ lo ∷ []) % 2 ^ 16 ≡ 0 → crc16 0 cs ≡ hi * 256 + lo
    forth e = eq_of_xor r (hi * 256 + lo) (
        idle-eq_zero 16 (bit_xor r (hi * 256 + lo))
          (xor-lt 16 r (hi * 256 + lo) (crc16-lt 0 cs (omega arith)) (omega arith)) (sym left ∙ e))

    back : crc16 0 cs ≡ hi * 256 + lo → crc_bytes 0 (cs ++ hi ∷ lo ∷ []) % 2 ^ 16 ≡ 0
    back e = left ∙ rw (e, xor_self, idle-zero)
