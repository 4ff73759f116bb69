-- ===== src/Stdfn/Seek.antt =====
-- `_lseek` and the start of a file.
use criscv_hw.Prelude.{ℕ, ◌+◌, ◌-◌, ◌%◌, ◌^◌, ◌≤◌, ◌<◌, ◌≡◌, ap, some, arith}
use criscv_hw.Prelude.Int.{pos, to_int}
use criscv_hw.Stdfn.FatFs.{FatFs}
use criscv_hw.Stdfn.Files.{einval, fd_first, Os}
use criscv_hw.Stdfn.Calls.{seek_set, seek_cur, seek_end, seek_pos, seek_to, lseek_slot, lseek}
use criscv_hw.Stdfn.Descriptors.{IsOpen, fd_to_slot-open}

module _ {Fil Volume : Type 0} (fs : FatFs Fil Volume) where
  abbrev pub file_of : ℕ → Os Fil Volume → Fil
  file_of fd s = (s.slots (fd - fd_first)).fil

  -- On an open file an offset of -k is refused with EINVAL by SEEK_SET, and the file stays as it is.
  -- SEEK_CUR does not refuse one that leads before the start of the file: the sum is taken without a
  -- sign, and FatFs is sent to a position nearly 2 ^ 32. SEEK_END does the same.
  pub lseek_before_start :
      (fd k : ℕ) (s : Os Fil Volume)
      → IsOpen fs fd s
      → 0 < k
      → k ≤ 2 ^ 31
      → (lseek fs (pos fd) (2 ^ 32 - k) seek_set s ≡ (einval, s))
        × (fs.f_tell (file_of fd s) < k
            → lseek fs (pos fd) (2 ^ 32 - k) seek_cur s
              ≡ seek_to fs (fd - fd_first) (some (pos (fs.f_tell (file_of fd s) + 2 ^ 32 - k))) s)
        × (fs.f_size (file_of fd s) < k
            → lseek fs (pos fd) (2 ^ 32 - k) seek_end s
              ≡ seek_to fs (fd - fd_first) (some (pos (fs.f_size (file_of fd s) + 2 ^ 32 - k))) s)
  unfolding lseek lseek_slot seek_pos
  lseek_before_start fd k s h lo hi =
      rw (lseek, fd_to_slot-open fs fd s h) (set, (λ p. cur p), (λ p. end p))
    where
      i : ℕ
      i = fd - fd_first

      set : seek_to fs i (some (to_int (2 ^ 32 - k))) s ≡ (einval, s)
      set = unfold seek_to in ground arith

      cur :
          fs.f_tell (file_of fd s) < k
          → seek_to fs i (some (pos ((fs.f_tell (file_of fd s) + (2 ^ 32 - k)) % 2 ^ 32))) s
            ≡ seek_to fs i (some (pos (fs.f_tell (file_of fd s) + 2 ^ 32 - k))) s
      cur p = ap (λ (n : ℕ). seek_to fs i (some (pos n)) s) (omega arith)

      end :
          fs.f_size (file_of fd s) < k
          → seek_to fs i (some (pos ((fs.f_size (file_of fd s) + (2 ^ 32 - k)) % 2 ^ 32))) s
            ≡ seek_to fs i (some (pos (fs.f_size (file_of fd s) + 2 ^ 32 - k))) s
      end p = ap (λ (n : ℕ). seek_to fs i (some (pos n)) s) (omega arith)
