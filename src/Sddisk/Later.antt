-- ===== src/Sddisk/Later.antt =====
-- The wire of bootbin/sddisk.c and bootloader/sddisk.c only grows: what has been sent stays below.
use criscv_hw.Prelude.{
  ℕ, zero, suc, ◌≡◌, refl, sym, ap, ◌∙◌, inl, inr, Bool, List, [], ◌∷◌, ◌++◌, ◌==◌, if◌then◌else◌,
  replicate, Bool-cases,
}
use mathlib.Core.List.{append_assoc}
use criscv_hw.Sddisk.Wire.{Card, Sd, spi_xfer}
use criscv_hw.Sddisk.Protocol.{sd_select, sd_deselect, sd_cmd}
use criscv_hw.Sddisk.Init.{acmd41, acmd41_loop}
use criscv_hw.Sddisk.Polls.{frame, sd_cmd-IsWait, sd_select-clocked}

-- More has been sent.
pub record Later (wire wire' : List ℕ) : Type 0 where
  pub more : List ℕ
  pub wire_eq : wire' ≡ more ++ wire

pub Later-refl : (wire : List ℕ) → Later wire wire
Later-refl wire = record { more = []; wire_eq = refl }

pub Later-trans : {u v w : List ℕ} → Later u v → Later v w → Later u w
Later-trans {u} p q = record {
  more = q.more ++ p.more;
  wire_eq = q.wire_eq ∙ (ap (λ t. q.more ++ t) p.wire_eq ∙ sym (append_assoc q.more p.more u));
}

pub Later-cons : {u v : List ℕ} (b : ℕ) → Later u v → Later u (b ∷ v)
Later-cons b p = record { more = b ∷ p.more; wire_eq = ap (λ t. b ∷ t) p.wire_eq }

pub sd_select-Later : (card : Card) (s : Sd) → Later s.wire (sd_select card s).1.wire
sd_select-Later card s =
    let (k, le, state) = sd_select-clocked card s in
    record { more = replicate k 0xFF; wire_eq = ap (λ (t : Sd). t.wire) state }

pub sd_cmd-Later :
    (card : Card) (cmd arg crc : ℕ) (s : Sd) → Later s.wire (sd_cmd card cmd arg crc s).1.wire
sd_cmd-Later card cmd arg crc s =
    let w = sd_cmd-IsWait card cmd arg crc s in
    record {
      more = replicate w.count 0xFF ++ frame cmd arg crc;
      wire_eq =
          ap (λ (t : Sd). t.wire) w.state
          ∙ sym (append_assoc (replicate w.count 0xFF) (frame cmd arg crc) s.wire);
    }

pub select_cmd-Later :
    (card : Card) (cmd arg crc : ℕ) (s : Sd)
    → Later s.wire (sd_cmd card cmd arg crc (sd_select card s).1).1.wire
select_cmd-Later card cmd arg crc s =
    Later-trans (sd_select-Later card s) (sd_cmd-Later card cmd arg crc (sd_select card s).1)

acmd41-Later : (card : Card) (v2 : Bool) (s : Sd) → Later s.wire (acmd41 card v2 s).1.wire
unfolding acmd41 sd_deselect spi_xfer
acmd41-Later card v2 s = Later-cons 0xFF (
    Later-trans (select_cmd-Later card 55 0 0x01 s) (
      sd_cmd-Later card 41 (if v2 then 0x40000000 else 0) 0x01
        (sd_cmd card 55 0 0x01 (sd_select card s).1).1))

pub acmd41_loop-Later :
    (card : Card) (v2 : Bool) (n r : ℕ) (s : Sd) → Later s.wire (acmd41_loop card v2 n r s).1.wire
unfolding acmd41_loop
acmd41_loop-Later card v2 zero r s = Later-refl s.wire
acmd41_loop-Later card v2 (suc n) r s = elim (Bool-cases ((acmd41 card v2 s).0 == 0x00)) [
  | inl e ↦ rw (acmd41_loop, e) (acmd41-Later card v2 s)
  | inr e ↦
      rw (acmd41_loop, e)
        (Later-trans (acmd41-Later card v2 s)
          (acmd41_loop-Later card v2 n (acmd41 card v2 s).0 (acmd41 card v2 s).1))
]
