-- ===== src/OldCalls/Tests.antt =====
-- The calls of bootloader/stdfn.c on a small state.
use criscv_hw.Prelude.{◌+◌, ◌-◌, ◌*◌, ◌/◌, ◌%◌, ◌^◌, ◌≤◌, ◌<◌, ◌≡◌, inl, none, [], ◌∷◌, arith}
use criscv_hw.Prelude.Int.{pos}
use criscv_hw.OldCalls.Defs.{Loader, read, neg_of, gettimeofday}
use criscv_hw.OldCalls.Reads.{read-none, gettimeofday-neg_of}

abbrev loader : Loader
loader = record {
  file_dp = 0;
  fdp_offset = 0;
  mem = λ x. 0;
  uart_in = b'a' ∷ b'\r' ∷ [];
  uart_out = [];
  led = 0;
  pid = 0;
}

read-none_example : read (pos 0) 64 (pos 1) loader ≡ none
read-none_example = read-none 0 64 1 loader (inl (omega arith)) (omega arith)

gettimeofday-neg_of_example :
    (3 < 2 ^ 31
      → 2 ^ 32 - 100 < 2 ^ 31
      → gettimeofday 3 (2 ^ 32 - 100) ≡ (
        pos ((3 * 2 ^ 32 + (2 ^ 32 - 100)) / 50 / 1000000),
        pos ((3 * 2 ^ 32 + (2 ^ 32 - 100)) / 50 % 1000000),
      ))
    × (2 ^ 31 ≤ 2 ^ 32 - 100
        → gettimeofday 3 (2 ^ 32 - 100) ≡ (
          neg_of ((2 ^ 32 - (2 ^ 32 - 100)) / 50 / 1000000),
          neg_of ((2 ^ 32 - (2 ^ 32 - 100)) / 50 % 1000000),
        ))
gettimeofday-neg_of_example = gettimeofday-neg_of 3 (2 ^ 32 - 100) (omega arith) (omega arith)
