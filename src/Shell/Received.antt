-- ===== src/Shell/Received.antt =====
-- Where `load` puts the bytes that it takes.
use criscv_hw.Prelude.{
  ℕ, ◌+◌, ◌≤◌, ◌<◌, ◌≡◌, Bool, Option, none, some, List, if◌then◌else◌, Memory, Outside, length,
  drop, get_or,
}
use criscv_hw.Shell.World.{World, sendchar, length_at}
use criscv_hw.Shell.Upload.{debug_add1}

-- The word with the length lies outside the `len` bytes at `base`.
abbrev pub Apart : ℕ → ℕ → ℕ → Type 0
Apart header base len =
    (x : ℕ) → length_at header ≤ x → x < length_at header + 4 → Outside base len x

module _ {Fil Volume : Type 0} where
  -- The bytes of a file of `len` bytes are at `base`, and all others as before.
  pub record IsStored (base len : ℕ) (input : List ℕ) (mem : Memory) (w : World Fil Volume)
      : Type 0 where
    pub stored : (j : ℕ) → j < len → w.mem (base + j) ≡ get_or input j 0
    pub kept : (x : ℕ) → Outside base len x → w.mem x ≡ mem x

  -- What the loop leaves: it waits for ever exactly if there are too few bytes.
  abbrev pub Received : ℕ → ℕ → List ℕ → Memory → Option (List ℕ × World Fil Volume) → Type 0
  Received base len input mem none = length input < len
  Received base len input mem (some (rest, w)) =
      (len ≤ length input) × (rest ≡ drop len input) × IsStored base len input mem w

  -- A mark goes out and changes no memory.
  abbrev marked : Bool → World Fil Volume → World Fil Volume
  marked b w = if b then sendchar b'X' w else w

  -- What `load_file` leaves of a file of `len` bytes for `base`.
  abbrev pub FileReceived : ℕ → ℕ → List ℕ → Memory → Option (World Fil Volume) → Type 0
  FileReceived base len input mem none = length input < len
  FileReceived base len input mem (some w) =
      (len ≤ length input)
      × ((j : ℕ) → j < len → w.mem (base + j) ≡ get_or input j 0)
      × ((x : ℕ) → Outside base len x → Outside debug_add1 4 x → w.mem x ≡ mem x)
