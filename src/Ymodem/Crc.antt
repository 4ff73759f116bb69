-- ===== src/Ymodem/Crc.antt =====
-- bootbin/ymodem.c: the checksum that `ym_receive` runs over the bytes of a block, in an
-- `unsigned int` that is not cut to 16 bits.
use criscv_hw.Prelude.{
  ℕ, zero, suc, ◌*◌, ◌%◌, ◌^◌, List, [], ◌∷◌, ◌==◌, if◌then◌else◌, bit_and, bit_xor,
}

-- crc = (crc & 0x8000) ? (crc << 1) ^ 0x1021 : (crc << 1)
unfoldable pub crc_bit : ℕ → ℕ
crc_bit crc =
    if bit_and crc 0x8000 == 0 then crc * 2 % 2 ^ 32 else bit_xor (crc * 2 % 2 ^ 32) 0x1021

unfoldable pub crc_bits : ℕ → ℕ → ℕ
crc_bits zero crc = crc
crc_bits (suc left) crc = crc_bits left (crc_bit crc)

-- crc ^= (unsigned int)c << 8, then the eight bits
unfoldable pub crc_byte : ℕ → ℕ → ℕ
crc_byte crc c = crc_bits 8 (bit_xor crc (c * 2 ^ 8))

unfoldable pub crc_bytes : ℕ → List ℕ → ℕ
crc_bytes crc [] = crc
crc_bytes crc (c ∷ cs) = crc_bytes (crc_byte crc c) cs
