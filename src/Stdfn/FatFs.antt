-- ===== src/Stdfn/FatFs.antt =====
-- What bootbin/stdfn.c uses of FatFs (ff.h), which is not part of this program: a file object, the
-- state of the volume, and the functions on them. `f_read` and `f_write` also say how many bytes
-- they moved; `readonly` is FF_FS_READONLY, 1 in ffconf.h.
use criscv_hw.Prelude.{ℕ, Bool, Memory}

pub data Fresult : Type 0 where
  fr_ok fr_disk_err fr_int_err fr_not_ready fr_no_file fr_no_path fr_invalid_name fr_denied fr_exist
        fr_invalid_object fr_write_protected fr_invalid_drive fr_not_enabled fr_no_filesystem
        fr_mkfs_aborted fr_timeout fr_locked fr_not_enough_core fr_too_many_open_files
        fr_invalid_parameter :
      Fresult

-- A file object and the volume after a call, with the result.
pub record Done (Fil Volume : Type 0) : Type 0 where
  pub result : Fresult
  pub fil : Fil
  pub volume : Volume

-- The same of a transfer of bytes between a file and the memory.
pub record Moved (Fil Volume : Type 0) : Type 0 where
  pub result : Fresult
  pub count : ℕ
  pub fil : Fil
  pub volume : Volume
  pub mem : Memory

pub record FatFs (Fil Volume : Type 0) : Type 0 where
  pub readonly : Bool
  pub f_open : ℕ → ℕ → Memory → Fil → Volume → Done Fil Volume
  pub f_close : Fil → Volume → Done Fil Volume
  pub f_read : ℕ → ℕ → Memory → Fil → Volume → Moved Fil Volume
  pub f_write : ℕ → ℕ → Memory → Fil → Volume → Moved Fil Volume
  pub f_lseek : ℕ → Fil → Volume → Done Fil Volume
  pub f_truncate : Fil → Volume → Done Fil Volume
  pub f_tell : Fil → ℕ
  pub f_size : Fil → ℕ
