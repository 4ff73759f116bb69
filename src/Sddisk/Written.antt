-- ===== src/Sddisk/Written.antt =====
-- The parts of a write of a block of bootbin/sddisk.c: the bytes sent, the wait for the card and its
-- confirmation.
use criscv_hw.Prelude.{
  ℕ, zero, suc, ◌+◌, ◌%◌, ◌^◌, ◌≤◌, ◌<◌, ◌≡◌, ◌⊎◌, refl, sym, ap, ◌∙◌, inl, inr, Bool, not, ◌||◌,
  List, [], ◌∷◌, ◌++◌, ◌==◌, arith, bit_and, replicate, Bool-cases, Memory,
}
use criscv_hw.Sddisk.Wire.{Card, Sd, spi_xfer, print}
use criscv_hw.Sddisk.Protocol.{sd_select, sd_deselect, sd_cmd}
use criscv_hw.Sddisk.Block.{
  Status, success, failure, Report, block_address, send_loop, busy_loop, confirm,
}
use criscv_hw.Sddisk.Polls.{clocked, clocked-clocked, IsWait, sd_cmd-IsWait}
use criscv_hw.Sddisk.Sent.{IsSent, select_cmd-IsSent}

-- The `n` bytes at an address as they stand on the wire, newest first.
unfoldable pub block : Memory → ℕ → ℕ → List ℕ
block mem p zero = []
block mem p (suc n) = mem (p + n) ∷ block mem p n

block-shift :
    (mem : Memory) (p n : ℕ) (w : List ℕ)
    → block mem (p + 1) n ++ mem p ∷ w ≡ block mem p (suc n) ++ w
unfolding block
block-shift mem p zero w = let e : p + 0 ≡ p = omega arith in rw e
block-shift mem p (suc n) w =
    let e : p + 1 + n ≡ p + suc n = omega arith in
    rw e (ap (λ v. mem (p + suc n) ∷ v) (block-shift mem p n w))

pub send_loop-block :
    (card : Card) (left i buf : ℕ) (s : Sd)
    → (send_loop card left i buf s).1 ≡ record s { wire = block s.mem (buf + i) left ++ s.wire }
unfolding send_loop spi_xfer block
send_loop-block card zero i buf s = refl
send_loop-block card (suc left) i buf s =
    let e : buf + (i + 1) ≡ buf + i + 1 = omega arith in
    send_loop-block card left (i + 1) buf (record s { wire = s.mem (buf + i) ∷ s.wire })
    ∙ rw e (ap (λ w. record s { wire = w }) (block-shift s.mem (buf + i) left s.wire))

pub busy_loop-clocked :
    (card : Card) (n : ℕ) (s : Sd) → (k : ℕ) × ((busy_loop card n s).1 ≡ clocked k s)
unfolding busy_loop spi_xfer
busy_loop-clocked card zero s = (0, refl)
busy_loop-clocked card (suc n) s = elim (Bool-cases (card (0xFF ∷ s.wire) % 2 ^ 8 == 0x00)) [
  | inr e ↦ (1, rw (busy_loop, e))
  | inl e ↦
      let (k, state) = busy_loop-clocked card n (clocked 1 s) in
      (suc k, rw (busy_loop, e) (state ∙ clocked-clocked k s))
]

-- CMD13 answered with two zeros behind what `t` holds.
pub record IsConfirmed (card : Card) (t after : Sd) : Type 0 where
  pub asked : Sd
  pub sent : IsSent 13 0 t asked
  pub answer : card asked.wire % 2 ^ 8 ≡ 0x00
  pub status : card (0xFF ∷ asked.wire) % 2 ^ 8 ≡ 0x00
  pub ended : after.wire ≡ 0xFF ∷ 0xFF ∷ asked.wire

-- A block that was written: CMD24 with its address, answered by 0; behind a gap the token 0xFE, the
-- 512 bytes at `buf` and two bytes for the sum; the card's acceptance within ten bytes; and, behind
-- the wait for the card, its confirmation. No memory has changed.
pub record IsWritten (card : Card) (lba buf : ℕ) (s after : Sd) : Type 0 where
  pub asked : Sd
  pub sent : IsSent 24 (block_address s.sd_hc lba) s asked
  pub answer : card asked.wire % 2 ^ 8 ≡ 0x00
  pub at_data : List ℕ
  pub data_eq : at_data ≡ 0xFF ∷ 0xFF ∷ (block s.mem buf 512 ++ 0xFE ∷ 0xFF ∷ asked.wire)
  pub polls : ℕ
  pub polls_le : (0 < polls) × (polls ≤ 10)
  pub accepted : bit_and (card (replicate polls 0xFF ++ at_data) % 2 ^ 8) 0x1F ≡ 0x05
  pub busy : ℕ
  pub confirmed : IsConfirmed card (record asked { wire = replicate busy 0xFF ++ at_data }) after
  pub mem_eq : after.mem ≡ s.mem
  pub hc_eq : after.sd_hc ≡ s.sd_hc

abbrev pub WriteOutcome : Card → ℕ → ℕ → Sd → Status × Sd → Type 0
WriteOutcome card lba buf s (success, after) = IsWritten card lba buf s after
WriteOutcome card lba buf s (failure, after) = (after.mem ≡ s.mem) × (after.sd_hc ≡ s.sd_hc)

-- A zero is an answer of the card.
pub cmd-answer :
    (card : Card) (n byte : ℕ) (s after : Sd)
    → IsWait card n 0xFF s byte after
    → byte ≡ 0
    → card after.wire % 2 ^ 8 ≡ 0
cmd-answer card n byte s after w e = answered w.answer
  where
    answered :
        ((w.count ≡ 0) × (byte ≡ 0xFF)) ⊎ ((0 < w.count) × (byte ≡ card after.wire % 2 ^ 8))
        → card after.wire % 2 ^ 8 ≡ 0
    answered (inl (z, f)) = absurd (omega arith)
    answered (inr (p, f)) = sym f ∙ e

-- What `confirm` leaves.
abbrev pub Confirms : Card → Sd → Status × Sd → Type 0
Confirms card t (success, after) =
    IsConfirmed card t after × (after.mem ≡ t.mem) × (after.sd_hc ≡ t.sd_hc)
Confirms card t (failure, after) = (after.mem ≡ t.mem) × (after.sd_hc ≡ t.sd_hc)

pub confirm-Confirms :
    (report : Report) (card : Card) (t : Sd) → Confirms card t (confirm report card t)
unfolding confirm spi_xfer sd_deselect print
confirm-Confirms report card t = elim (Bool-cases refused) [
  | inl e ↦ rw (confirm, e) (sent.mem_eq, sent.hc_eq)
  | inr e ↦
      rw (confirm, e)
        (
          record {
            asked = asked.1;
            sent = sent;
            answer =
                cmd-answer card 10 asked.0 _ asked.1
                  (sd_cmd-IsWait card 13 0 0x01 (sd_select card t).1) (ground arith);
            status = ground arith;
            ended = refl;
          },
          sent.mem_eq,
          sent.hc_eq,
        )
]
  where
    asked : ℕ × Sd
    asked = sd_cmd card 13 0 0x01 (sd_select card t).1

    sent : IsSent 13 0 t asked.1
    sent = select_cmd-IsSent card 13 0 t

    refused : Bool
    refused = not (asked.0 == 0x00) || not (card (0xFF ∷ asked.1.wire) % 2 ^ 8 == 0x00)
