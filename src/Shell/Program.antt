-- ===== src/Shell/Program.antt =====
-- bootbin/boot.c: `getBssHeader`, `byte_to_hex`, `run` and `after_load`.
use criscv_hw.Prelude.{
  ℕ, zero, suc, ◌+◌, ◌*◌, ◌/◌, ◌%◌, ◌^◌, Bool, true, false, not, ◌&&◌, Option, none, some, List, [],
  ◌∷◌, ◌++◌, ◌==◌, if◌then◌else◌, get_or, Memory,
}
use criscv_hw.Prelude.Words.{half_at, word_at}
use criscv_hw.Prelude.Text.{codes}
use criscv_hw.Shell.World.{
  World, Env, Ran, returned, exited, endless, Next, resume, restart, never, sendstring, send_at,
  close_all, is_word, itoa_hex, type_at, name_at, prog_base,
}

-- The section headers' fields, as <elf.h> lays them out.
abbrev pub sh_name : Memory → ℕ → ℕ
sh_name mem sh = word_at mem sh

abbrev pub sh_offset : Memory → ℕ → ℕ
sh_offset mem sh = word_at mem (sh + 16)

-- The loop over the sections, with `left` of them to go: the first that is named ".bss".
unfoldable pub find_bss : ℕ → ℕ → ℕ → ℕ → Memory → Option ℕ
find_bss zero spnt entsize names mem = none
find_bss (suc left) spnt entsize names mem =
    elim (is_word (codes ".bss") mem ((names + sh_name mem spnt) % 2 ^ 32)) [
      | true ↦ some spnt
      | false ↦ find_bss left ((spnt + entsize) % 2 ^ 32) entsize names mem
    ]

-- `getBssHeader`: pointers wrap at 2 ^ 32, so that an offset with the sign bit leads below `base`. The
-- address of the section header is the answer, none for 0.
unfoldable pub get_bss_header : ℕ → Memory → Option ℕ
get_bss_header base mem =
    let spnt = (base + word_at mem (base + 32)) % 2 ^ 32 in
    let entsize = half_at mem (base + 46) in
    let string_st = sh_offset mem ((half_at mem (base + 50) * entsize + spnt) % 2 ^ 32) in
    find_bss (half_at mem (base + 48)) spnt entsize ((base + string_st) % 2 ^ 32) mem

-- The text that `byte_to_hex` makes, without its NUL.
unfoldable pub byte_to_hex : ℕ → List ℕ
byte_to_hex byte =
    get_or (codes "0123456789abcdef") (byte / 2 ^ 4 % 16) 0
    ∷ get_or (codes "0123456789abcdef") (byte % 16) 0
    ∷ b' '
    ∷ []

-- The bytes of a row, and the rows, with `left` to go.
unfoldable pub hex_row : ℕ → ℕ → Memory → List ℕ
hex_row zero p mem = []
hex_row (suc left) p mem = byte_to_hex (mem p) ++ hex_row left (p + 1) mem

unfoldable pub hex_rows : ℕ → ℕ → Memory → List ℕ
hex_rows zero p mem = []
hex_rows (suc left) p mem = hex_row 16 p mem ++ (b'\n' ∷ hex_rows left (p + 16) mem)

-- The test of the magic number.
unfoldable pub has_magic : Memory → ℕ → Bool
has_magic mem p = mem p == 0x7F && mem (p + 1) == b'E' && mem (p + 2) == b'L' && mem (p + 3) == b'F'

module _ {Fil Dir Volume : Type 0} (env : Env Fil Dir Volume) where
  unfoldable pub run : ℕ → List ℕ → World Fil Volume → Ran (World Fil Volume)
  run base argv w = env.program (word_at w.mem (base + 24)) argv (record w { pid = 2 })

  -- What follows `run` in `after_load`; a program that calls `exit` begins the shell anew.
  unfoldable pub after_run : Ran (World Fil Volume) → Next (World Fil Volume)
  after_run (returned w) = resume (sendstring (codes "Finished\n") (close_all env.fs w))
  after_run (exited w) = restart (sendstring (b'\n' ∷ []) w)
  after_run endless = never

  -- A program with its .bss header.
  unfoldable pub after_bss : Option ℕ → List ℕ → World Fil Volume → Next (World Fil Volume)
  after_bss none argv w = resume (sendstring (codes "Error BSS header\n") w)
  after_bss (some sh) argv w = after_run (
      run prog_base argv (
        sendstring
          (codes "File type program\nSetting heap to  = "
            ++ (itoa_hex ((prog_base + sh_offset w.mem sh) % 2 ^ 32) ++ b'\n' ∷ []))
          w))

  unfoldable pub after_load : List ℕ → World Fil Volume → Next (World Fil Volume)
  after_load argv w =
      let w' =
        sendstring (b'\n' ∷ [])
          (send_at (name_at env.file_header) (sendstring (codes "Filename = ") w)) in
      if not (w'.mem (type_at env.file_header) == 0)
      then resume (sendstring (codes "File type data\n") w')
      else if not (has_magic w'.mem prog_base)
      then resume (sendstring (hex_rows 15 prog_base w'.mem) w')
      else after_bss (get_bss_header prog_base w'.mem) argv w'
