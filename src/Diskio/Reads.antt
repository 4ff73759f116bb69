-- ===== src/Diskio/Reads.antt =====
-- `disk_read` against a sequence of block reads.
use criscv_hw.Prelude.{
  ℕ, zero, suc, ◌+◌, ◌-◌, ◌*◌, ◌%◌, ◌^◌, ◌≤◌, ◌<◌, ◌≡◌, ◌≢◌, ◌⊎◌, ◌↔◌, refl, sym, ap, ◌∙◌, inl, inr,
  true, false, not, ◌||◌, ltb, ◌==◌, arith, Outside, Bool-cases,
}
use mathlib.Core.Path.{ap₂}
use criscv_hw.Sddisk.Block.{Status, success, failure}
use criscv_hw.BlockDevice.{BlockDevice}
use criscv_hw.BlockDevice.Blocks.{Reads, none_left, one_more, Reads-kept, Status-cases}
use criscv_hw.Diskio.Defs.{
  Dresult, res_ok, res_error, res_wrprt, res_notrdy, res_parerr, Drive, is_ready, read_loop,
  disk_initialize, disk_status, disk_read, disk_write,
}

module _ {S : Type 0} (dev : BlockDevice S) where
  -- What a read of `count` blocks leaves: all of them read, or all up to one that failed.
  abbrev pub Ended : ℕ → ℕ → ℕ → S → Dresult × S → Type 0
  Ended sector buff count s (res_ok, u) = Reads dev sector buff count s u
  Ended sector buff count s (res_error, u) =
      (n : ℕ) × (t : S) × (n < count)
      × Reads dev sector buff n s t
      × (dev.read_block (sector + n) (buff + n * 512) t ≡ (failure, u))
  Ended sector buff count s (_, u) = ⊥

  Ended-suc :
      (sector buff n : ℕ) (s t : S) (r : Dresult × S)
      → dev.read_block sector buff s ≡ (success, t)
      → Ended (sector + 1) (buff + 512) n t r
      → Ended sector buff (suc n) s r
  Ended-suc sector buff n s t (res_ok, u) first rest = one_more first rest
  Ended-suc sector buff n s t (res_error, u) first (k, v, lt, reads, last) = (
    suc k,
    v,
    omega arith,
    one_more first reads,
    ap₂ (λ i j. dev.read_block i j v) (omega arith) (omega arith) ∙ last,
  )
  Ended-suc sector buff n s t (res_wrprt, u) first rest = rest
  Ended-suc sector buff n s t (res_notrdy, u) first rest = rest
  Ended-suc sector buff n s t (res_parerr, u) first rest = rest

  read_loop-Ended :
      (left index buff sector from to : ℕ) (s : S)
      → sector + index ≡ from
      → buff + index * 512 ≡ to
      → from + left ≤ 2 ^ 32
      → (index + left) * 512 ≤ 2 ^ 32
      → Ended from to left s (read_loop dev left index buff sector s)
  unfolding read_loop
  read_loop-Ended zero index buff sector from to s ef et hf ht = none_left
  read_loop-Ended (suc left) index buff sector from to s ef et hf ht =
      elim (Status-cases result.0) [
        | inl e ↦
            rw (read_loop, e)
              (Ended-suc from to left s result.1 _ (here ∙ ap (λ r. (r, result.1)) e) (
                read_loop-Ended left (index + 1) buff sector (from + 1) (to + 512) result.1
                  (omega arith) (omega arith) (omega arith) (omega arith)))
        | inr e ↦
            rw (read_loop, e)
              (
                0,
                s,
                omega arith,
                none_left,
                ap₂ (λ i j. dev.read_block i j s) (omega arith) (omega arith)
                    ∙ (here ∙ ap (λ r. (r, result.1)) e),
              )
      ]
    where
      result : Status × S
      result = dev.read_block ((sector + index) % 2 ^ 32) (buff + index * 512 % 2 ^ 32) s

      here : dev.read_block from to s ≡ result
      here = ap₂ (λ i j. dev.read_block i j s) (omega arith) (omega arith)

  -- On a drive that is ready, for a buffer that is not null, a count of blocks below 8 million and
  -- sectors that do not run past the last 32-bit one, `disk_read` answers RES_OK when it has read
  -- all the blocks, in order and one behind the other, and RES_ERROR when it has read all up to one
  -- that the card failed to read; it answers nothing else.
  pub disk_read-Ended :
      (buff sector count : ℕ) (d : Drive S)
      → is_ready d ≡ true
      → 0 < buff
      → 0 < count
      → count * 512 ≤ 2 ^ 32
      → sector + count ≤ 2 ^ 32
      → Ended sector buff count d.device
          (let (result, d') = disk_read dev 0 buff sector count d in (result, d'.device))
  unfolding disk_read
  disk_read-Ended buff sector count d ready hb hc hm hs =
      let not_null : (buff == 0) ≡ false = ground arith in
      let not_none : (count == 0) ≡ false = ground arith in
      let in_range : ltb (2 ^ 32 - 1 - (count - 1)) sector ≡ false = ground arith in
      rw (disk_read, ready, not_null, not_none, in_range)
        (read_loop-Ended count 0 buff sector sector buff d.device (omega arith) (omega arith) hs
          (omega arith))

  kept_of_Ended :
      (sector buff count : ℕ) {s : S} (x : ℕ) (r : Dresult × S)
      → Ended sector buff count s r
      → Outside buff (count * 512) x
      → dev.memory r.1 x ≡ dev.memory s x
  kept_of_Ended sector buff count x (res_ok, u) reads out = Reads-kept dev x reads out
  kept_of_Ended sector buff count x (res_error, u) (n, t, lt, reads, last) out =
      ap (λ (r : Status × S). dev.memory r.1 x) (sym last)
      ∙ (dev.read_kept (sector + n) (buff + n * 512) t x (omega arith)
          ∙ Reads-kept dev x reads (omega arith))
  kept_of_Ended sector buff count x (res_wrprt, u) ended out = absurd ended
  kept_of_Ended sector buff count x (res_notrdy, u) ended out = absurd ended
  kept_of_Ended sector buff count x (res_parerr, u) ended out = absurd ended

  -- `disk_read` writes only into the `count * 512` bytes of its buffer, whatever it answers, on any
  -- drive and for any arguments in range of the 32-bit address space.
  pub disk_read-kept :
      (pdrv buff sector count : ℕ) (d : Drive S) (x : ℕ)
      → count * 512 ≤ 2 ^ 32
      → Outside buff (count * 512) x
      → dev.memory (disk_read dev pdrv buff sector count d).1.device x ≡ dev.memory d.device x
  unfolding disk_read
  disk_read-kept pdrv buff sector count d x hm out =
      elim (Bool-cases (not (pdrv == 0) || not (is_ready d))) [
        | inl e ↦ rw (disk_read, e)
        | inr e ↦
            elim (Bool-cases (buff == 0 || count == 0 || ltb (2 ^ 32 - 1 - (count - 1)) sector)) [
              | inl f ↦ rw (disk_read, e, f)
              | inr f ↦
                  rw (disk_read, e, f)
                    (kept_of_Ended sector buff count x (read_loop dev count 0 buff sector d.device)
                      (read_loop-Ended count 0 buff sector sector buff d.device (omega arith)
                        (omega arith) (in_range f) (omega arith))
                      out)
            ]
      ]
    where
      in_range :
          (buff == 0 || count == 0 || ltb (2 ^ 32 - 1 - (count - 1)) sector) ≡ false
          → sector + count ≤ 2 ^ 32
      in_range f = ground arith

  -- A drive other than 0, or one that has not started, answers RES_NOTRDY to reads and writes and
  -- is left as it was; no write is ever done.
  pub disk_read-not_ready :
      (pdrv buff sector count : ℕ) (d : Drive S)
      → (pdrv ≢ 0) ⊎ (is_ready d ≡ false)
      → (disk_read dev pdrv buff sector count d ≡ (res_notrdy, d))
        × (disk_write dev pdrv buff sector count d ≡ res_notrdy)
  unfolding disk_read disk_write
  disk_read-not_ready pdrv buff sector count d h = ground arith

  -- After `disk_initialize` of drive 0, the drive takes reads exactly when the card has started;
  -- `disk_status` tells the same.
  pub disk_initialize-is_ready :
      (d : Drive S)
      → let (status, d') = disk_initialize dev 0 d in
        (status ≡ disk_status dev 0 d') × ((is_ready d' ≡ true) ↔ ((dev.init d.device).0 ≡ success))
  unfolding disk_initialize disk_status is_ready
  disk_initialize-is_ready d = elim (Status-cases (dev.init d.device).0) [
    | inl e ↦ rw e (refl, ((λ h. refl), (λ h. refl)))
    | inr e ↦ rw e (refl, ((λ h. cc), (λ h. cc)))
  ]
