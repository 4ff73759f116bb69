-- ===== src/Stdfn/Calls.antt =====
-- bootbin/stdfn.c: the calls on files. Each returns the state and the `int` that goes back to the
-- caller; `none` is a call that waits for ever for input.
use criscv_hw.Prelude.{
  ℕ, ◌+◌, ◌%◌, ◌^◌, Bool, true, false, not, ◌&&◌, Option, none, some, ◌==◌, if◌then◌else◌,
}
use criscv_hw.Prelude.Int.{ℤ, pos, negsuc, to_int, of_int}
use criscv_hw.Stdfn.FatFs.{Fresult, fr_ok, FatFs, Moved}
use criscv_hw.Stdfn.Files.{
  fd_first, fd_max, ebadf, eacces, einval, emfile, o_creat, o_trunc, o_append, fa_write, Os,
  fd_to_slot, is_uart, fr_to_err, result_or, first_free, has, open_mode, read_uart, send_bytes,
  rounds_of, update, set_used,
}

abbrev pub seek_set : ℕ
seek_set = 0

abbrev pub seek_cur : ℕ
seek_cur = 1

abbrev pub seek_end : ℕ
seek_end = 2

abbrev pub s_ifchr : ℕ
s_ifchr = 0x2000

abbrev pub s_ifreg : ℕ
s_ifreg = 0x8000

-- The fields of `struct stat` that are set; the others are 0.
pub record Stat : Type 0 where
  pub st_mode : ℕ
  pub st_size : ℕ

abbrev pub zero_stat : Stat
zero_stat = record { st_mode = 0; st_size = 0 }

abbrev pub is_ok : Fresult → Bool
is_ok fr_ok = true
is_ok _ = false

-- `pos` of `_lseek`. `off_t` is a 32-bit `long` in the library that the program is built with, and
-- the position of a file a 32-bit `DWORD`, so their sum is unsigned.
unfoldable pub seek_pos : {Fil Volume : Type 0} → FatFs Fil Volume → ℕ → ℕ → Fil → Option ℤ
seek_pos fs offset whence fil =
    if whence == seek_set
    then some (to_int offset)
    else if whence == seek_cur
    then some (pos ((fs.f_tell fil + offset) % 2 ^ 32))
    else if whence == seek_end
    then some (pos ((fs.f_size fil + offset) % 2 ^ 32))
    else none

module _ {Fil Volume : Type 0} (fs : FatFs Fil Volume) where
  -- The slot and the memory after a transfer.
  unfoldable pub moved : ℕ → Moved Fil Volume → Os Fil Volume → Os Fil Volume
  moved i m s =
      record (update fs i (record { result = m.result; fil = m.fil; volume = m.volume }) s) {
        mem = m.mem;
      }

  unfoldable pub write_file : Option ℕ → ℕ → ℤ → Os Fil Volume → ℤ × Os Fil Volume
  write_file none buf count s = (ebadf, s)
  write_file (some i) buf count s =
      let m = fs.f_write buf (of_int count) s.mem (s.slots i).fil s.volume in
      (result_or m.result (to_int m.count), moved i m s)

  unfoldable pub write : ℤ → ℕ → ℤ → Os Fil Volume → ℤ × Os Fil Volume
  write fd buf count s =
      let t = record s { led = 7 } in
      if is_uart fd
      then (count, record t { uart_out = send_bytes (rounds_of count) buf t.mem t.uart_out })
      else if fs.readonly
      then (eacces, t)
      else write_file (fd_to_slot fd s.slots) buf count t

  unfoldable pub read_file : Option ℕ → ℕ → ℤ → Os Fil Volume → ℤ × Os Fil Volume
  read_file none buf count s = (ebadf, s)
  read_file (some i) buf count s =
      let m = fs.f_read buf (of_int count) s.mem (s.slots i).fil s.volume in
      (result_or m.result (to_int m.count), moved i m s)

  unfoldable pub read : ℤ → ℕ → ℤ → Os Fil Volume → Option (ℤ × Os Fil Volume)
  read fd buf count s =
      if is_uart fd
      then (elim (read_uart (rounds_of count) 0 buf s.uart_in s.mem) [
        | none ↦ none
        | some (p, input, mem) ↦ some (pos p, record s { uart_in = input; mem = mem })
      ])
      else some (read_file (fd_to_slot fd s.slots) buf count s)

  -- O_TRUNC without O_CREAT empties a file that is open for writing.
  unfoldable pub open_truncate : ℕ → ℕ → Os Fil Volume → Os Fil Volume
  open_truncate i flags s =
      if not fs.readonly
        && (has flags o_trunc && (not (has flags o_creat) && has (open_mode flags) fa_write))
      then update fs i (fs.f_truncate (s.slots i).fil s.volume) s
      else s

  -- O_APPEND starts at the end.
  unfoldable pub open_append : ℕ → ℕ → Os Fil Volume → Os Fil Volume
  open_append i flags s =
      if has flags o_append
      then update fs i (fs.f_lseek (fs.f_size (s.slots i).fil) (s.slots i).fil s.volume) s
      else s

  -- `_open` with the free slot `i`.
  unfoldable pub open_slot : ℕ → ℕ → ℕ → Os Fil Volume → ℤ × Os Fil Volume
  open_slot i name flags s =
      let d = fs.f_open name (open_mode flags) s.mem (s.slots i).fil s.volume in
      let t = update fs i d s in
      if is_ok d.result
      then (pos (i + fd_first), set_used fs i true (open_append i flags (open_truncate i flags t)))
      else (fr_to_err d.result, t)

  unfoldable pub open_file : ℕ → ℕ → Os Fil Volume → ℤ × Os Fil Volume
  open_file name flags s =
      let i = first_free fd_max 0 s.slots in
      if i == fd_max then (emfile, s) else open_slot i name flags s

  unfoldable pub seek_to : ℕ → Option ℤ → Os Fil Volume → ℤ × Os Fil Volume
  seek_to i none s = (einval, s)
  seek_to i (some (negsuc n)) s = (einval, s)
  seek_to i (some (pos p)) s =
      let d = fs.f_lseek p (s.slots i).fil s.volume in
      (result_or d.result (to_int (fs.f_tell d.fil)), update fs i d s)

  unfoldable pub lseek_slot : ℤ → Option ℕ → ℕ → ℕ → Os Fil Volume → ℤ × Os Fil Volume
  lseek_slot fd none offset whence s = (if is_uart fd then pos 0 else ebadf, s)
  lseek_slot fd (some i) offset whence s = seek_to i (seek_pos fs offset whence (s.slots i).fil) s

  unfoldable pub lseek : ℤ → ℕ → ℕ → Os Fil Volume → ℤ × Os Fil Volume
  lseek fd offset whence s = lseek_slot fd (fd_to_slot fd s.slots) offset whence s

  unfoldable pub fstat_slot : Option ℕ → Os Fil Volume → ℤ × Stat
  fstat_slot none s = (ebadf, zero_stat)
  fstat_slot (some i) s = (pos 0, record { st_mode = s_ifreg; st_size = fs.f_size (s.slots i).fil })

  unfoldable pub fstat : ℤ → Os Fil Volume → ℤ × Stat
  fstat fd s =
      if is_uart fd
      then (pos 0, record { st_mode = s_ifchr; st_size = 0 })
      else fstat_slot (fd_to_slot fd s.slots) s

  unfoldable pub close_file : ℤ → Option ℕ → Os Fil Volume → ℤ × Os Fil Volume
  close_file fd none s = (if is_uart fd then pos 0 else ebadf, s)
  close_file fd (some i) s =
      let d = fs.f_close (s.slots i).fil s.volume in
      (result_or d.result (pos 0), set_used fs i false (update fs i d s))

  unfoldable pub close : ℤ → Os Fil Volume → ℤ × Os Fil Volume
  close fd s = close_file fd (fd_to_slot fd s.slots) s

-- `_isatty`
unfoldable pub isatty : ℤ → ℕ
isatty fd = if is_uart fd then 1 else 0
