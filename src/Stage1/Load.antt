-- ===== src/Stage1/Load.antt =====
-- What bootloader/boot.c has done when it jumps.
use criscv_hw.Prelude.{
  ℕ, zero, suc, ◌+◌, ◌*◌, ◌%◌, ◌^◌, ◌≤◌, ◌<◌, ◌≡◌, ◌⊎◌, refl, sym, ap, ◌∙◌, inl, inr, true, Option,
  none, some, arith, ltb, Bool-cases,
}
use mathlib.Core.Path.{ap₂}
use criscv_hw.Sddisk.Block.{Status, success, failure}
use criscv_hw.BlockDevice.{BlockDevice}
use criscv_hw.BlockDevice.Blocks.{Reads, none_left, one_more, Status-cases}
use criscv_hw.Stage1.Defs.{boot_base, boot_lba, load_loop}

module _ {S : Type 0} (dev : BlockDevice S) where
  Reads-cast :
      {from from' to to' n : ℕ} {s t : S}
      → from ≡ from'
      → to ≡ to'
      → Reads dev from to n s t
      → Reads dev from' to' n s t
  Reads-cast e f reads = rw (sym e, sym f) reads

  -- Every sector that holds bytes of the file up to `end` was read, from `i` on.
  pub record IsLoaded (i end : ℕ) (s t : S) : Type 0 where
    pub count : ℕ
    pub reads : Reads dev (boot_lba + i) (boot_base + i * 512) count s t
    pub all : end ≤ (i + count) * 512
    pub no_more : (count ≡ 0) ⊎ ((i + count) * 512 < end + 512)

  -- What the loop returns: all loaded, or a sector could not be read.
  abbrev pub Loaded : ℕ → ℕ → S → Option (Status × S) → Type 0
  Loaded i end s (some (success, t)) = IsLoaded i end s t
  Loaded i end s (some (failure, t)) = Unit
  Loaded i end s none = ⊥

  Loaded-more :
      (i end : ℕ) (s t : S) (r : Option (Status × S))
      → i * 512 < end
      → dev.read_block (boot_lba + i) (boot_base + i * 512) s ≡ (success, t)
      → Loaded (i + 1) end t r
      → Loaded i end s r
  Loaded-more i end s t (some (success, u)) h first rest = record {
    count = suc rest.count;
    reads = one_more first (Reads-cast (omega arith) (omega arith) rest.reads);
    all = omega (arith, rest.all);
    no_more = inr (ground (arith, rest.no_more));
  }
  Loaded-more i end s t (some (failure, u)) h first rest = tt
  Loaded-more i end s t none h first rest = rest

  -- For a file of less than 4080 MB the loop ends: it has read the sectors from `i` on that the file
  -- takes, in order and one behind the other, and no others, or one of them could not be read.
  pub load_loop-Loaded :
      (fuel i end : ℕ) (s : S)
      → end ≤ 0xFF000000
      → i * 512 ≤ end + 512
      → 2 ^ 23 ≤ i + fuel
      → Loaded i end s (load_loop dev fuel i end s)
  unfolding load_loop
  load_loop-Loaded zero i end s small h f = absurd (omega arith)
  load_loop-Loaded (suc fuel) i end s small h f = elim (Bool-cases (ltb (i * 512 % 2 ^ 32) end)) [
    | inl m ↦ elim (Status-cases result.0) [
      | inl ok ↦
          rw (load_loop, m, ok)
            (Loaded-more i end s result.1 _ (below m) (here m ∙ ap (λ r. (r, result.1)) ok) (
              rw (next m)
                (load_loop-Loaded fuel (i + 1) end result.1 small (below' m) (omega arith))))
      | inr bad ↦ rw (load_loop, m, bad) tt
    ]
    | inr n ↦
        rw (load_loop, n)
          (record { count = 0; reads = none_left; all = ground arith; no_more = inl refl })
  ]
    where
      result : Status × S
      result = dev.read_block ((boot_lba + i) % 2 ^ 32) ((boot_base + i * 512 % 2 ^ 32) % 2 ^ 32) s

      below : ltb (i * 512 % 2 ^ 32) end ≡ true → i * 512 < end
      below m = ground arith

      below' : ltb (i * 512 % 2 ^ 32) end ≡ true → (i + 1) * 512 ≤ end + 512
      below' m = ground arith

      next : ltb (i * 512 % 2 ^ 32) end ≡ true → (i + 1) % 2 ^ 32 ≡ i + 1
      next m = ground arith

      here :
          ltb (i * 512 % 2 ^ 32) end ≡ true
          → dev.read_block (boot_lba + i) (boot_base + i * 512) s ≡ result
      here m = ap₂ (λ a b. dev.read_block a b s) (ground arith) (ground arith)
