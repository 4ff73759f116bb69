-- ===== src/Shell/Card.antt =====
-- bootbin/boot.c: the commands that work on the card: mounting, ls, cd, pwd and cat.
use criscv_hw.Prelude.{
  ℕ, zero, suc, ◌-◌, Bool, true, false, not, ◌&&◌, Option, none, some, List, [], ◌∷◌, ◌++◌, ◌==◌,
  if◌then◌else◌, bit_and, length, replicate, Memory,
}
use criscv_hw.Prelude.Int.{pos, to_int}
use criscv_hw.Prelude.Text.{codes}
use criscv_hw.Stdfn.FatFs.{
  Fresult, fr_ok, fr_disk_err, fr_int_err, fr_not_ready, fr_no_file, fr_no_path, fr_invalid_name,
  fr_denied, fr_exist, fr_invalid_object, fr_write_protected, fr_invalid_drive, fr_not_enabled,
  fr_no_filesystem, fr_mkfs_aborted, fr_timeout, fr_locked, fr_not_enough_core,
  fr_too_many_open_files, fr_invalid_parameter,
}
use criscv_hw.Stdfn.Files.{fa_read, send_bytes}
use criscv_hw.Stdfn.Calls.{is_ok}
use criscv_hw.Shell.World.{World, Env, FileInfo, sendstring, c_string, itoa}

-- The values of FRESULT in ff.h.
unfoldable pub fresult_number : Fresult → ℕ
fresult_number fr_ok = 0
fresult_number fr_disk_err = 1
fresult_number fr_int_err = 2
fresult_number fr_not_ready = 3
fresult_number fr_no_file = 4
fresult_number fr_no_path = 5
fresult_number fr_invalid_name = 6
fresult_number fr_denied = 7
fresult_number fr_exist = 8
fresult_number fr_invalid_object = 9
fresult_number fr_write_protected = 10
fresult_number fr_invalid_drive = 11
fresult_number fr_not_enabled = 12
fresult_number fr_no_filesystem = 13
fresult_number fr_mkfs_aborted = 14
fresult_number fr_timeout = 15
fresult_number fr_locked = 16
fresult_number fr_not_enough_core = 17
fresult_number fr_too_many_open_files = 18
fresult_number fr_invalid_parameter = 19

-- AM_DIR of ff.h.
abbrev pub am_dir : ℕ
am_dir = 0x10

-- The line of `ls_cmd` for an entry, the name in a column behind the size.
unfoldable pub entry_text : FileInfo → List ℕ
entry_text info =
    (if not (bit_and info.fattrib am_dir == 0)
      then codes "     <DIR> "
      else replicate (10 - length (itoa (to_int info.fsize))) b' '
        ++ (itoa (to_int info.fsize) ++ b' ' ∷ []))
    ++ (info.fname ++ b'\n' ∷ [])

-- The name of an entry is empty behind the last one.
abbrev pub is_empty : List ℕ → Bool
is_empty [] = true
is_empty (c ∷ cs) = false

-- A directory of FAT holds at most 2 ^ 16 entries, and a file fewer than 2 ^ 32 bytes.
abbrev pub dir_fuel : ℕ
dir_fuel = 65537

abbrev pub cat_fuel : ℕ
cat_fuel = 67108865

abbrev pub cat_size : ℕ
cat_size = 64

module _ {Fil Volume : Type 0} where
  unfoldable pub send_fr : List ℕ → Fresult → World Fil Volume → World Fil Volume
  send_fr what fr w =
      sendstring (what ++ (codes ": error " ++ (itoa (pos (fresult_number fr)) ++ b'\n' ∷ []))) w

  -- `sd_ready`, with its complaint.
  unfoldable pub sd_ready : World Fil Volume → Bool × World Fil Volume
  sd_ready w = (
    w.sd_mounted,
    if w.sd_mounted then w else sendstring (codes "No SD card mounted (try 'mount')\n") w,
  )

module _ {Fil Dir Volume : Type 0} (env : Env Fil Dir Volume) where
  unfoldable pub sd_mount : World Fil Volume → World Fil Volume
  sd_mount w =
      let w1 = sendstring (codes "Mounting.....\n") w in
      let (fr, v) = env.f_mount w1.volume in
      let w2 = record w1 { volume = v; sd_mounted = is_ok fr } in
      if is_ok fr then sendstring (codes "SD card mounted\n") w2 else send_fr (codes "mount") fr w2

  -- The loop over the entries, on fuel; `none` means that the directory did not end.
  unfoldable pub ls_loop : ℕ → Dir → World Fil Volume → Option (World Fil Volume)
  ls_loop zero dir w = none
  ls_loop (suc fuel) dir w =
      let a = env.f_readdir dir w.volume in
      let w' = record w { volume = a.volume } in
      elim (is_ok a.result) [
        | false ↦ some (
            let w'' = send_fr (codes "ls") a.result w' in
            record w'' { volume = env.f_closedir a.value.1 w''.volume })
        | true ↦ elim (is_empty a.value.0.fname) [
          | true ↦ some (record w' { volume = env.f_closedir a.value.1 w'.volume })
          | false ↦ ls_loop fuel a.value.1 (sendstring (entry_text a.value.0) w')
        ]
      ]

  -- The directory is open, or could not be opened.
  unfoldable pub ls_opened : List ℕ → World Fil Volume → Option (World Fil Volume)
  ls_opened path w =
      let a = env.f_opendir path w.volume in
      let w' = record w { volume = a.volume } in
      if is_ok a.result
      then ls_loop dir_fuel a.value w'
      else some (send_fr (codes "ls") a.result w')

  -- `path ? path : ""`
  unfoldable pub path_text : Option ℕ → Memory → List ℕ
  path_text none mem = []
  path_text (some p) mem = c_string mem p

  unfoldable pub ls_cmd : Option ℕ → World Fil Volume → Option (World Fil Volume)
  ls_cmd path w =
      let (ready, w') = sd_ready w in
      if ready then ls_opened (path_text path w'.mem) w' else some w'

  unfoldable pub cd_cmd : ℕ → World Fil Volume → World Fil Volume
  cd_cmd dir w =
      let (ready, w1) = sd_ready w in
      let (fr, v) = env.f_chdir (c_string w1.mem dir) w1.volume in
      let w2 = record w1 { volume = v } in
      if ready then (if is_ok fr then w2 else send_fr (codes "cd") fr w2) else w1

  -- FF_FS_RPATH is 2.
  unfoldable pub pwd_cmd : World Fil Volume → World Fil Volume
  pwd_cmd w =
      let (ready, w1) = sd_ready w in
      let a = env.f_getcwd 64 w1.volume in
      let w2 = record w1 { volume = a.volume } in
      if ready
      then (if is_ok a.result
          then sendstring (a.value ++ b'\n' ∷ []) w2
          else send_fr (codes "pwd") a.result w2)
      else w1

  -- What follows the loop of `cat_cmd`.
  unfoldable pub cat_end : Fresult → Fil → World Fil Volume → World Fil Volume
  cat_end fr f w =
      let w1 = if is_ok fr then w else send_fr (codes "cat") fr w in
      let d = env.fs.f_close f w1.volume in
      sendstring (b'\n' ∷ []) (record w1 { volume = d.volume })

  -- The loop of `cat_cmd`, on fuel; `none` means that the file did not end.
  unfoldable pub cat_loop : ℕ → Fil → World Fil Volume → Option (World Fil Volume)
  cat_loop zero f w = none
  cat_loop (suc fuel) f w =
      let m = env.fs.f_read env.cat_buf cat_size w.mem f w.volume in
      let w' = record w {
        mem = m.mem;
        volume = m.volume;
        out = send_bytes m.count env.cat_buf m.mem w.out;
      } in
      elim (is_ok m.result && (m.count == cat_size)) [
        | true ↦ cat_loop fuel m.fil w'
        | false ↦ some (cat_end m.result m.fil w')
      ]

  unfoldable pub cat_opened : ℕ → World Fil Volume → Option (World Fil Volume)
  cat_opened fname w =
      let d = env.fs.f_open fname fa_read w.mem env.any_fil w.volume in
      let w' = record w { volume = d.volume } in
      if is_ok d.result
      then cat_loop cat_fuel d.fil w'
      else some (send_fr (codes "cat") d.result w')

  unfoldable pub cat_cmd : ℕ → World Fil Volume → Option (World Fil Volume)
  cat_cmd fname w = let (ready, w') = sd_ready w in if ready then cat_opened fname w' else some w'
