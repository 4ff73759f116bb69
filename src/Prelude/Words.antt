-- ===== src/Prelude/Words.antt =====
-- Words in the memory, as the core's loads and stores and the compiled C code have them: the low byte
-- first.
use Prim.Native.Nat.{ℕ, ◌+◌, ◌*◌, ◌/◌, ◌%◌, ◌^◌, ◌≤◌, ◌<◌}
use mathlib.Core.Path.{◌≡◌}
use native.Mathlib.Omega.{arith}
use criscv_hw.Prelude.Store.{Memory, Outside, store}

unfoldable pub half_at : Memory → ℕ → ℕ
half_at mem p = mem p % 2 ^ 8 + mem (p + 1) % 2 ^ 8 * 2 ^ 8

unfoldable pub word_at : Memory → ℕ → ℕ
word_at mem p = half_at mem p + half_at mem (p + 2) * 2 ^ 16

-- `*(WORD *)buff = v` and `*(DWORD *)buff = v`.
unfoldable pub store_word : ℕ → ℕ → Memory → Memory
store_word buff v mem = store (store mem buff (v % 2 ^ 8)) (buff + 1) (v / 2 ^ 8 % 2 ^ 8)

unfoldable pub store_dword : ℕ → ℕ → Memory → Memory
store_dword buff v mem = store_word (buff + 2) (v / 2 ^ 16) (store_word buff (v % 2 ^ 16) mem)

pub word_at-store_dword : (p v : ℕ) (mem : Memory) → word_at (store_dword p v mem) p ≡ v % 2 ^ 32
unfolding word_at half_at store_dword store_word store
word_at-store_dword p v mem = ground arith

pub store_dword-kept :
    (a v : ℕ) (mem : Memory) (x : ℕ) → Outside a 4 x → store_dword a v mem x ≡ mem x
unfolding store_dword store_word store
store_dword-kept a v mem x h = ground arith

-- A word is made of its four bytes.
pub word_at-same :
    (m m' : Memory) (p : ℕ)
    → ((x : ℕ) → p ≤ x → x < p + 4 → m x ≡ m' x)
    → word_at m p ≡ word_at m' p
unfolding word_at half_at
word_at-same m m' p h = rw (
  h p (omega arith) (omega arith),
  h (p + 1) (omega arith) (omega arith),
  h (p + 2) (omega arith) (omega arith),
  h (p + 2 + 1) (omega arith) (omega arith),
)
