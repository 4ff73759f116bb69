-- ===== src/Sddisk/Quiet.antt =====
-- The steps of the driver, bootbin/sddisk.c and bootloader/sddisk.c, that change only the wire: the
-- commands behind their selection.
use criscv_hw.Prelude.{
  ℕ, zero, suc, ◌≡◌, refl, ap, ◌∙◌, inl, inr, Bool, List, ◌∷◌, ◌==◌, if◌then◌else◌, Bool-cases,
  Memory,
}
use criscv_hw.Sddisk.Wire.{Card, Sd, spi_xfer}
use criscv_hw.Sddisk.Protocol.{sd_select, sd_deselect, sd_cmd}
use criscv_hw.Sddisk.Init.{clocks, command, acmd41, acmd41_loop}
use criscv_hw.Sddisk.Polls.{sd_cmd-IsWait, sd_select-clocked}

-- All is as before but the wire and the addressing.
pub record Same (mem : Memory) (console : List ℕ) (mem' : Memory) (console' : List ℕ) : Type 0 where
  pub mem_eq : mem' ≡ mem
  pub console_eq : console' ≡ console

abbrev pub IsQuiet : Sd → Sd → Type 0
IsQuiet s t = Same s.mem s.console t.mem t.console

pub IsQuiet-trans :
    {m m' m'' : Memory} {c c' c'' : List ℕ} → Same m c m' c' → Same m' c' m'' c'' → Same m c m'' c''
IsQuiet-trans q q' = record {
  mem_eq = q'.mem_eq ∙ q.mem_eq;
  console_eq = q'.console_eq ∙ q.console_eq;
}

pub wired-IsQuiet : {w : List ℕ} (s : Sd) {t : Sd} → t ≡ record s { wire = w } → IsQuiet s t
wired-IsQuiet s e = record {
  mem_eq = ap (λ (u : Sd). u.mem) e;
  console_eq = ap (λ (u : Sd). u.console) e;
}

pub sd_cmd-IsQuiet :
    (card : Card) (cmd arg crc : ℕ) (s : Sd) → IsQuiet s (sd_cmd card cmd arg crc s).1
sd_cmd-IsQuiet card cmd arg crc s = wired-IsQuiet s (sd_cmd-IsWait card cmd arg crc s).state

pub sd_select-IsQuiet : (card : Card) (s : Sd) → IsQuiet s (sd_select card s).1
sd_select-IsQuiet card s = wired-IsQuiet s (sd_select-clocked card s).2

-- A command to the card, behind its selection.
pub select_cmd-IsQuiet :
    (card : Card) (cmd arg crc : ℕ) (s : Sd)
    → IsQuiet s (sd_cmd card cmd arg crc (sd_select card s).1).1
select_cmd-IsQuiet card cmd arg crc s =
    IsQuiet-trans (sd_select-IsQuiet card s) (sd_cmd-IsQuiet card cmd arg crc (sd_select card s).1)

pub clocks-IsQuiet : (card : Card) (n : ℕ) (s : Sd) → IsQuiet s (clocks card n s).1
unfolding clocks spi_xfer
clocks-IsQuiet card zero s = record { mem_eq = refl; console_eq = refl }
clocks-IsQuiet card (suc n) s = clocks-IsQuiet card n (record s { wire = 0xFF ∷ s.wire })

pub command-IsQuiet :
    (card : Card) (cmd arg crc : ℕ) (s : Sd) → IsQuiet s (command card cmd arg crc s).1
unfolding command sd_deselect spi_xfer
command-IsQuiet card cmd arg crc s = select_cmd-IsQuiet card cmd arg crc s

acmd41-IsQuiet : (card : Card) (v2 : Bool) (s : Sd) → IsQuiet s (acmd41 card v2 s).1
unfolding acmd41 sd_deselect spi_xfer
acmd41-IsQuiet card v2 s = IsQuiet-trans (select_cmd-IsQuiet card 55 0 0x01 s) (
    sd_cmd-IsQuiet card 41 (if v2 then 0x40000000 else 0) 0x01
      (sd_cmd card 55 0 0x01 (sd_select card s).1).1)

pub acmd41_loop-IsQuiet :
    (card : Card) (v2 : Bool) (n r : ℕ) (s : Sd) → IsQuiet s (acmd41_loop card v2 n r s).1
unfolding acmd41_loop
acmd41_loop-IsQuiet card v2 zero r s = record { mem_eq = refl; console_eq = refl }
acmd41_loop-IsQuiet card v2 (suc n) r s = elim (Bool-cases ((acmd41 card v2 s).0 == 0x00)) [
  | inl e ↦ rw (acmd41_loop, e) (acmd41-IsQuiet card v2 s)
  | inr e ↦
      rw (acmd41_loop, e)
        (IsQuiet-trans (acmd41-IsQuiet card v2 s)
          (acmd41_loop-IsQuiet card v2 n (acmd41 card v2 s).0 (acmd41 card v2 s).1))
]
