-- ===== src/Shell/Guards.antt =====
-- What `after_load` asks of a program, and the section that `getBssHeader` finds.
use criscv_hw.Prelude.{
  ℕ, ◌+◌, ◌*◌, ◌<◌, ◌≡◌, ◌⊎◌, Bool, true, false, not, Option, none, some, ◌==◌, Memory, ◌%◌, ◌^◌,
}
use criscv_hw.Prelude.Text.{codes}
use criscv_hw.Shell.World.{World, Env, Next, resume, restart, never, is_word, type_at, prog_base}
use criscv_hw.Shell.Program.{sh_name, get_bss_header, has_magic}

-- Whether the section header at `sh` is named ".bss", its name being in the table at `names`.
abbrev pub named_bss : ℕ → Memory → ℕ → Bool
named_bss names mem sh = is_word (codes ".bss") mem ((names + sh_name mem sh) % 2 ^ 32)

-- The `j`-th of the headers of `size` bytes from `spnt` on; addresses wrap.
abbrev pub header_at : ℕ → ℕ → ℕ → ℕ
header_at spnt size j = (spnt + j * size) % 2 ^ 32

-- What the search over `n` headers answers: the first that is named ".bss", or none if there is no
-- such one.
abbrev pub FirstBss : ℕ → ℕ → ℕ → ℕ → Memory → Option ℕ → Type 0
FirstBss n spnt size names mem none =
    (j : ℕ) → j < n → named_bss names mem (header_at spnt size j) ≡ false
FirstBss n spnt size names mem (some sh) =
    (i : ℕ) × (i < n)
    × (sh ≡ header_at spnt size i)
    × (named_bss names mem sh ≡ true)
    × ((j : ℕ) → j < i → named_bss names mem (header_at spnt size j) ≡ false)

-- A program that may be run: announced as one, with the magic number of ELF and a section .bss.
abbrev pub Refused : {Fil Dir Volume : Type 0} → Env Fil Dir Volume → World Fil Volume → Type 0
Refused env w =
    (not (w.mem (type_at env.file_header) == 0) ≡ true)
    ⊎ ((has_magic w.mem prog_base ≡ false) ⊎ (get_bss_header prog_base w.mem ≡ none))

-- Only output has changed.
pub record OnlyPrinted {Fil Volume : Type 0} (w w' : World Fil Volume) : Type 0 where
  pub mem_eq : w'.mem ≡ w.mem
  pub slots_eq : w'.slots ≡ w.slots
  pub volume_eq : w'.volume ≡ w.volume
  pub line_eq : w'.line ≡ w.line
  pub pid_eq : w'.pid ≡ w.pid
  pub mounted_eq : w'.sd_mounted ≡ w.sd_mounted
  pub led_eq : w'.led ≡ w.led
  pub led_state_eq : w'.led_state ≡ w.led_state

-- The shell goes on, and only output has changed.
abbrev pub Prints : {Fil Volume : Type 0} → World Fil Volume → Next (World Fil Volume) → Type 0
Prints w (resume w') = OnlyPrinted w w'
Prints w (restart w') = ⊥
Prints w never = ⊥
