-- ===== src/Prelude/Store.antt =====
-- The byte-addressed memory of the core: a byte at each address.
use Prim.Native.Nat.{ℕ, ◌+◌, ◌≤◌, ◌<◌}
use mathlib.Core.Logic.{◌⊎◌}
use criscv_hw.Prelude.Tests.{◌==◌, if◌then◌else◌}

abbrev pub Memory : Type 0
Memory = ℕ → ℕ

-- `*(uint8_t *)a = v`
unfoldable pub store : Memory → ℕ → ℕ → Memory
store m a v = λ x. if x == a then v else m x

-- The address lies outside the `n` bytes at `base`.
abbrev pub Outside : ℕ → ℕ → ℕ → Type 0
Outside base n x = (x < base) ⊎ (base + n ≤ x)
