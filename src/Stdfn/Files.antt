-- ===== src/Stdfn/Files.antt =====
-- bootbin/stdfn.c: the file descriptors. 0 to 2 are the UART; 3 to 6 are the four file slots.
use criscv_hw.Prelude.{
  ℕ, zero, suc, ◌+◌, ◌-◌, Bool, true, false, not, ◌||◌, Option, none, some, List, [], ◌∷◌, ltb, leb,
  ◌==◌, if◌then◌else◌, bit_and, bit_or, Memory, store,
}
use criscv_hw.Prelude.Int.{ℤ, pos, negsuc}
use criscv_hw.Stdfn.FatFs.{
  Fresult, fr_ok, fr_no_file, fr_no_path, fr_invalid_name, fr_exist, fr_denied, fr_write_protected,
  fr_too_many_open_files, FatFs, Done,
}

abbrev pub fd_first : ℕ
fd_first = 3

abbrev pub fd_max : ℕ
fd_max = 4

-- The errors of <errno.h> that are returned, negated.
abbrev pub enoent : ℤ
enoent = negsuc 1

abbrev pub eio : ℤ
eio = negsuc 4

abbrev pub ebadf : ℤ
ebadf = negsuc 8

abbrev pub eacces : ℤ
eacces = negsuc 12

abbrev pub eexist : ℤ
eexist = negsuc 16

abbrev pub einval : ℤ
einval = negsuc 21

abbrev pub emfile : ℤ
emfile = negsuc 23

-- The flags of <fcntl.h>, as newlib numbers them.
abbrev pub o_accmode : ℕ
o_accmode = 3

abbrev pub o_wronly : ℕ
o_wronly = 1

abbrev pub o_rdwr : ℕ
o_rdwr = 2

abbrev pub o_append : ℕ
o_append = 0x0008

abbrev pub o_creat : ℕ
o_creat = 0x0200

abbrev pub o_trunc : ℕ
o_trunc = 0x0400

abbrev pub o_excl : ℕ
o_excl = 0x0800

-- The modes of ff.h.
abbrev pub fa_read : ℕ
fa_read = 0x01

abbrev pub fa_write : ℕ
fa_write = 0x02

abbrev pub fa_create_new : ℕ
fa_create_new = 0x04

abbrev pub fa_create_always : ℕ
fa_create_always = 0x08

abbrev pub fa_open_always : ℕ
fa_open_always = 0x10

-- `fd_fil[i]` and `fd_used[i]`.
pub record Slot (Fil : Type 0) : Type 0 where
  pub fil : Fil
  pub used : Bool

-- The four slots, the volume, the memory, and the UART: the bytes to be read from it and those
-- written to it, newest first.
pub record Os (Fil Volume : Type 0) : Type 0 where
  pub slots : ℕ → Slot Fil
  pub volume : Volume
  pub mem : Memory
  pub uart_in : List ℕ
  pub uart_out : List ℕ
  pub led : ℕ

unfoldable pub put_slot : {Fil : Type 0} → ℕ → Slot Fil → (ℕ → Slot Fil) → ℕ → Slot Fil
put_slot i slot slots j = if j == i then slot else slots j

-- The slot of a descriptor, as `fd_to_fil` finds it: none if it has none or the slot is free.
unfoldable pub fd_to_slot : {Fil : Type 0} → ℤ → (ℕ → Slot Fil) → Option ℕ
fd_to_slot (pos fd) slots =
    if ltb fd fd_first || leb fd_max (fd - fd_first) || not (slots (fd - fd_first)).used
    then none
    else some (fd - fd_first)
fd_to_slot (negsuc n) slots = none

-- fd < FD_FIRST
abbrev pub is_uart : ℤ → Bool
is_uart (pos fd) = ltb fd fd_first
is_uart (negsuc n) = true

unfoldable pub fr_to_err : Fresult → ℤ
fr_to_err fr_no_file = enoent
fr_to_err fr_no_path = enoent
fr_to_err fr_invalid_name = enoent
fr_to_err fr_exist = eexist
fr_to_err fr_denied = eacces
fr_to_err fr_write_protected = eacces
fr_to_err fr_too_many_open_files = emfile
fr_to_err _ = eio

-- `fr == FR_OK ? v : fr_to_err(fr)`
unfoldable pub result_or : Fresult → ℤ → ℤ
result_or fr_ok v = v
result_or fr v = fr_to_err fr

-- The slot that `_open` takes: the first free one, 4 if there is none.
unfoldable pub first_free : {Fil : Type 0} → ℕ → ℕ → (ℕ → Slot Fil) → ℕ
first_free zero i slots = i
first_free (suc left) i slots =
    let rest = first_free left (i + 1) slots in if (slots i).used then rest else i

-- `flags & flag`
abbrev pub has : ℕ → ℕ → Bool
has flags flag = not (bit_and flags flag == 0)

-- The mode for FatFs that the flags of `_open` call for.
unfoldable pub open_mode : ℕ → ℕ
open_mode flags =
    let access = bit_and flags o_accmode in
    let fmode =
      if access == o_wronly
      then fa_write
      else if access == o_rdwr
      then bit_or fa_read fa_write
      else fa_read in
    if has flags o_creat
    then (if has flags o_excl
        then bit_or fmode fa_create_new
        else if has flags o_trunc
        then bit_or fmode fa_create_always
        else bit_or fmode fa_open_always)
    else fmode

-- UART_IN for as long as there are bytes to come, up to the end of a line: `left` = count - pos.
-- With no byte to come the call waits for ever, which is `none`.
unfoldable pub read_uart : ℕ → ℕ → ℕ → List ℕ → Memory → Option (ℕ × List ℕ × Memory)
read_uart zero p buf input mem = some (p, input, mem)
read_uart (suc left) p buf [] mem = none
read_uart (suc left) p buf (c ∷ input) mem =
    let mem' = store mem (buf + p) c in
    elim (c == b'\r' || c == b'\n') [
      | true ↦ some (p + 1, input, mem')
      | false ↦ read_uart left (p + 1) buf input mem'
    ]

-- The bytes of a buffer, newest first, in front of those sent before.
unfoldable pub send_bytes : ℕ → ℕ → Memory → List ℕ → List ℕ
send_bytes zero buf mem out = out
send_bytes (suc left) buf mem out = send_bytes left (buf + 1) mem (mem buf ∷ out)

-- A count of type `int`: a loop up to one that is not positive does nothing.
abbrev pub rounds_of : ℤ → ℕ
rounds_of (pos n) = n
rounds_of (negsuc n) = 0

module _ {Fil Volume : Type 0} (fs : FatFs Fil Volume) where
  -- A slot with a new file object, and the volume, after a call of FatFs.
  unfoldable pub update : ℕ → Done Fil Volume → Os Fil Volume → Os Fil Volume
  update i d s = record s {
    slots = put_slot i (record { fil = d.fil; used = (s.slots i).used }) s.slots;
    volume = d.volume;
  }

  abbrev pub set_used : ℕ → Bool → Os Fil Volume → Os Fil Volume
  set_used i used s = record s {
    slots = put_slot i (record { fil = (s.slots i).fil; used = used }) s.slots;
  }

  -- One slot of `stdfn_close_all`.
  unfoldable pub close_slot : ℕ → Os Fil Volume → Os Fil Volume
  close_slot i s =
      if (s.slots i).used
      then set_used i false (update i (fs.f_close (s.slots i).fil s.volume) s)
      else s

  unfoldable pub close_loop : ℕ → ℕ → Os Fil Volume → Os Fil Volume
  close_loop zero i s = s
  close_loop (suc left) i s = close_loop left (i + 1) (close_slot i s)

  unfoldable pub stdfn_close_all : Os Fil Volume → Os Fil Volume
  stdfn_close_all s = close_loop fd_max 0 s
