-- ===== src/Diskio/Defs.antt =====
-- bootbin/diskio_sddisk.c: the five functions, with `drive_status` and the device as their state.
use criscv_hw.Prelude.Words.{store_word, store_dword}
use criscv_hw.Prelude.{
  ℕ, zero, suc, ◌+◌, ◌-◌, ◌*◌, ◌%◌, ◌^◌, Bool, not, ◌&&◌, ◌||◌, ltb, ◌==◌, if◌then◌else◌, bit_and,
  Memory,
}
use criscv_hw.Sddisk.Block.{Status, success, failure}
use criscv_hw.BlockDevice.{BlockDevice}

pub data Dresult : Type 0 where
  res_ok res_error res_wrprt res_notrdy res_parerr : Dresult

abbrev pub sta_noinit : ℕ
sta_noinit = 0x01

pub record Drive (S : Type 0) : Type 0 where
  pub drive_status : ℕ
  pub device : S

abbrev pub ctrl_sync : ℕ
ctrl_sync = 0

abbrev pub get_sector_size : ℕ
get_sector_size = 2

abbrev pub get_block_size : ℕ
get_block_size = 3

-- `sddisk_init() == 0 ? 0 : STA_NOINIT`
abbrev pub status_after : Status → ℕ
status_after success = 0
status_after failure = sta_noinit

-- `!(drive_status & STA_NOINIT)`
unfoldable pub is_ready : {S : Type 0} → Drive S → Bool
is_ready d = bit_and d.drive_status sta_noinit == 0

module _ {S : Type 0} (dev : BlockDevice S) where
  unfoldable pub disk_initialize : ℕ → Drive S → ℕ × Drive S
  disk_initialize pdrv d =
      if not (pdrv == 0)
      then (sta_noinit, d)
      else (let (result, s) = dev.init d.device in
          (status_after result, record d { drive_status = status_after result; device = s }))

  unfoldable pub disk_status : ℕ → Drive S → ℕ
  disk_status pdrv d = if pdrv == 0 then d.drive_status else sta_noinit

  -- The loop of `disk_read`, with `left` blocks to go.
  unfoldable pub read_loop : ℕ → ℕ → ℕ → ℕ → S → Dresult × S
  read_loop zero index buff sector s = (res_ok, s)
  read_loop (suc left) index buff sector s =
      let (result, t) =
        dev.read_block ((sector + index) % 2 ^ 32) (buff + index * 512 % 2 ^ 32) s in
      elim result [ success ↦ read_loop left (index + 1) buff sector t | failure ↦ (res_error, t) ]

  unfoldable pub disk_read : ℕ → ℕ → ℕ → ℕ → Drive S → Dresult × Drive S
  disk_read pdrv buff sector count d =
      if not (pdrv == 0) || not (is_ready d)
      then (res_notrdy, d)
      else if buff == 0 || count == 0 || ltb (2 ^ 32 - 1 - (count - 1)) sector
      then (res_parerr, d)
      else (let (result, s) = read_loop count 0 buff sector d.device in
          (result, record d { device = s }))

  unfoldable pub disk_write : ℕ → ℕ → ℕ → ℕ → Drive S → Dresult
  disk_write pdrv buff sector count d = if pdrv == 0 && is_ready d then res_wrprt else res_notrdy

  unfoldable pub disk_ioctl : ℕ → ℕ → ℕ → Drive S → Memory → Dresult × Memory
  disk_ioctl pdrv cmd buff d mem =
      if not (pdrv == 0)
      then (res_parerr, mem)
      else if not (is_ready d)
      then (res_notrdy, mem)
      else if cmd == ctrl_sync
      then (res_ok, mem)
      else if cmd == get_sector_size
      then (if buff == 0 then (res_parerr, mem) else (res_ok, store_word buff 512 mem))
      else if cmd == get_block_size
      then (if buff == 0 then (res_parerr, mem) else (res_ok, store_dword buff 1 mem))
      else (res_parerr, mem)
