-- ===== src/Sddisk/Sent.antt =====
-- A command of bootbin/sddisk.c or bootloader/sddisk.c as it stands on the wire, and the clocks behind it.
use criscv_hw.Prelude.{ℕ, zero, suc, ◌+◌, ◌≡◌, ap, ◌∙◌, List, ◌∷◌, ◌++◌, arith, replicate}
use criscv_hw.Sddisk.Wire.{Card, Sd}
use criscv_hw.Sddisk.Protocol.{sd_select, sd_cmd}
use criscv_hw.Sddisk.Polls.{clocked, frame, sd_select-clocked, sd_cmd-IsWait}

pub replicate-replicate :
    (a b : ℕ) (w : List ℕ)
    → replicate a 0xFF ++ (replicate b 0xFF ++ w) ≡ replicate (a + b) 0xFF ++ w
replicate-replicate zero b w = let e : 0 + b ≡ b = omega arith in rw e
replicate-replicate (suc a) b w =
    let e : suc a + b ≡ suc (a + b) = omega arith in
    rw e (ap (λ v. 0xFF ∷ v) (replicate-replicate a b w))

-- The command is out; only the wire has changed, with only 0xFF round the command.
pub record IsSent (cmd arg : ℕ) (s t : Sd) : Type 0 where
  pub before : ℕ
  pub between : ℕ
  pub wire_eq :
      t.wire ≡ replicate between 0xFF ++ (frame cmd arg 0x01 ++ (replicate before 0xFF ++ s.wire))
  pub mem_eq : t.mem ≡ s.mem
  pub hc_eq : t.sd_hc ≡ s.sd_hc

-- More clocks keep what has been sent.
pub IsSent-clocked :
    (cmd arg : ℕ) (s t : Sd) (k : ℕ) → IsSent cmd arg s t → IsSent cmd arg s (clocked k t)
IsSent-clocked cmd arg s t k sent = record {
  before = sent.before;
  between = k + sent.between;
  wire_eq = ap (λ w. replicate k 0xFF ++ w) sent.wire_eq ∙ replicate-replicate k sent.between _;
  mem_eq = sent.mem_eq;
  hc_eq = sent.hc_eq;
}

-- The card is selected, and the command answered or given up.
pub select_cmd-IsSent :
    (card : Card) (cmd arg : ℕ) (s : Sd)
    → IsSent cmd arg s (sd_cmd card cmd arg 0x01 (sd_select card s).1).1
select_cmd-IsSent card cmd arg s =
    let (k, le, state) = sd_select-clocked card s in
    let wait = sd_cmd-IsWait card cmd arg 0x01 (sd_select card s).1 in
    record {
      before = k;
      between = wait.count;
      wire_eq =
          ap (λ (t : Sd). t.wire) wait.state
          ∙ ap (λ (t : Sd). replicate wait.count 0xFF ++ (frame cmd arg 0x01 ++ t.wire)) state;
      mem_eq = ap (λ (t : Sd). t.mem) wait.state ∙ ap (λ (t : Sd). t.mem) state;
      hc_eq = ap (λ (t : Sd). t.sd_hc) wait.state ∙ ap (λ (t : Sd). t.sd_hc) state;
    }
