-- ===== src/Shell/World.antt =====
-- bootbin/boot.c: the state of the shell, what it takes from FatFs, the C library and the programs
-- that it runs, and its output to the serial line.
use criscv_hw.Prelude.{
  ℕ, zero, suc, ◌+◌, ◌-◌, ◌/◌, ◌%◌, ◌^◌, Bool, true, false, ◌&&◌, ◌||◌, length, none, some, List,
  [], ◌∷◌, ◌++◌, reverse, ◌==◌, if◌then◌else◌, get_or, Memory, store,
}
use criscv_hw.Prelude.Int.{ℤ, pos, negsuc}
use criscv_hw.Prelude.Text.{codes}
use criscv_hw.Stdfn.FatFs.{Fresult, FatFs}
use criscv_hw.Stdfn.Files.{Slot, stdfn_close_all}
use criscv_hw.Ymodem.Session.{Line}

abbrev pub prog_base : ℕ
prog_base = 0x10000

abbrev pub prog_max : ℕ
prog_max = 0xC00000 - 0x10000

abbrev pub data_base : ℕ
data_base = 0xD00000

abbrev pub data_max : ℕ
data_max = 0x100000

-- The polls of the receiver's status to come are those of `Ymodem.Session`; `out` is what has been
-- sent, newest byte first.
pub record World (Fil Volume : Type 0) : Type 0 where
  pub slots : ℕ → Slot Fil
  pub volume : Volume
  pub mem : Memory
  pub line : Line
  pub out : List ℕ
  pub led : ℕ
  pub led_state : ℕ
  pub sd_mounted : Bool
  pub pid : ℕ

-- An entry of a directory.
pub record FileInfo : Type 0 where
  pub fname : List ℕ
  pub fattrib : ℕ
  pub fsize : ℕ

-- A call of FatFs that answers with a value, and leaves the volume changed.
pub record Answer (A Volume : Type 0) : Type 0 where
  pub result : Fresult
  pub value : A
  pub volume : Volume

-- How a program ends: it returns to the shell, it calls `exit`, or it does neither.
pub data Ran (W : Type 0) : Type 0 where
  returned : W → Ran W
  exited : W → Ran W
  endless : Ran W

-- What is not part of boot.c: FatFs, a program at an address with its arguments, and where the
-- linker and the stack put `fileHeader`, the line of `shell` and the buffer of `cat_cmd`. A file
-- object on the stack holds anything at first.
pub record Env (Fil Dir Volume : Type 0) : Type 0 where
  pub fs : FatFs Fil Volume
  pub f_mount : Volume → Fresult × Volume
  pub f_opendir : List ℕ → Volume → Answer Dir Volume
  pub f_readdir : Dir → Volume → Answer (FileInfo × Dir) Volume
  pub f_closedir : Dir → Volume → Volume
  pub f_chdir : List ℕ → Volume → Fresult × Volume
  pub f_getcwd : ℕ → Volume → Answer (List ℕ) Volume
  pub any_fil : Fil
  pub program : ℕ → List ℕ → World Fil Volume → Ran (World Fil Volume)
  pub file_header : ℕ
  pub line_buf : ℕ
  pub cat_buf : ℕ

-- The bytes of a C string. A string without an end would take all of the address space.
unfoldable pub text_at : ℕ → Memory → ℕ → List ℕ
text_at zero mem p = []
text_at (suc left) mem p = elim (mem p == 0) [
  | true ↦ []
  | false ↦ mem p ∷ text_at left mem (p + 1)
]

unfoldable pub c_string : Memory → ℕ → List ℕ
c_string mem p = text_at (2 ^ 32) mem p

-- `strcmp(s, word) == 0`, for a literal.
unfoldable pub is_word : List ℕ → Memory → ℕ → Bool
is_word [] mem p = mem p == 0
is_word (c ∷ cs) mem p = mem p == c && is_word cs mem (p + 1)

-- The C library's `itoa`: the digits of a number in base 10 or 16, behind a sign.
unfoldable pub digits : ℕ → ℕ → ℕ → List ℕ → List ℕ
digits zero base n text = text
digits (suc left) base n text =
    let text' = get_or (codes "0123456789abcdef") (n % base) 0 ∷ text in
    elim (n / base == 0) [ true ↦ text' | false ↦ digits left base (n / base) text' ]

unfoldable pub itoa : ℤ → List ℕ
itoa (pos n) = digits 32 10 n []
itoa (negsuc n) = b'-' ∷ digits 32 10 (n + 1) []

-- In base 16 the number is taken without a sign.
unfoldable pub itoa_hex : ℕ → List ℕ
itoa_hex n = digits 32 16 n []

module _ {Fil Volume : Type 0} where
  unfoldable pub setled : World Fil Volume → World Fil Volume
  setled w = record w { led = w.led_state }

  unfoldable pub sendchar : ℕ → World Fil Volume → World Fil Volume
  sendchar c w = record w { out = c ∷ w.out }

  -- `sendstring` of a text.
  unfoldable pub sendstring : List ℕ → World Fil Volume → World Fil Volume
  sendstring text w = record w { out = reverse text ++ w.out }

  -- `sendstring` of the C string at an address.
  unfoldable pub send_at : ℕ → World Fil Volume → World Fil Volume
  send_at p w = sendstring (c_string w.mem p) w

  -- A store into memory.
  unfoldable pub poke : ℕ → ℕ → World Fil Volume → World Fil Volume
  poke a v w = record w { mem = store w.mem a v }

  -- `stdfn_close_all` on the slots and the volume.
  unfoldable pub close_all : FatFs Fil Volume → World Fil Volume → World Fil Volume
  close_all fs w =
      let s = stdfn_close_all fs (record {
        slots = w.slots;
        volume = w.volume;
        mem = w.mem;
        uart_in = [];
        uart_out = [];
        led = w.led;
      }) in
      record w { slots = s.slots; volume = s.volume }

-- The bytes that a wait for the receiver finds in the polls to come.
unfoldable pub bytes_of : Line → List ℕ
bytes_of [] = []
bytes_of (none ∷ polls) = bytes_of polls
bytes_of (some b ∷ polls) = b % 2 ^ 8 ∷ bytes_of polls

-- The polls behind the first `n` bytes.
unfoldable pub skip_bytes : ℕ → Line → Line
skip_bytes zero polls = polls
skip_bytes (suc n) [] = []
skip_bytes (suc n) (none ∷ polls) = skip_bytes (suc n) polls
skip_bytes (suc n) (some b ∷ polls) = skip_bytes n polls

-- How a step of the shell ends: with the shell going on, with the shell begun anew by a program that
-- called `exit`, or not at all.
pub data Next (W : Type 0) : Type 0 where
  resume : W → Next W
  restart : W → Next W
  never : Next W

-- `fileHeader`: a byte, 20 bytes, and behind three unused ones a word.
abbrev pub type_at : ℕ → ℕ
type_at header = header

abbrev pub name_at : ℕ → ℕ
name_at header = header + 1

abbrev pub length_at : ℕ → ℕ
length_at header = header + 24

-- The bytes of a text, and of a text with its NUL.
unfoldable pub store_text : List ℕ → ℕ → Memory → Memory
store_text [] p mem = mem
store_text (c ∷ cs) p mem = store_text cs (p + 1) (store mem p c)

unfoldable pub strcpy : ℕ → List ℕ → Memory → Memory
strcpy p text mem = store_text (text ++ 0 ∷ []) p mem

-- `strncpy`, with `left` bytes to go; behind the end of the text it stores NULs.
unfoldable pub strncpy : ℕ → ℕ → Bool → ℕ → Memory → Memory
strncpy zero to ended from mem = mem
strncpy (suc left) to ended from mem =
    let over = ended || mem from == 0 in
    strncpy left (to + 1) over (from + 1) (store mem to (if over then 0 else mem from))

module _ {Fil Volume : Type 0} where
  -- The polls that are left once a wait has left the bytes `left` of them.
  unfoldable pub take_input : List ℕ → World Fil Volume → World Fil Volume
  take_input left w = record w { line = skip_bytes (length (bytes_of w.line) - length left) w.line }
