-- ===== src/Sddisk/Writes.antt =====
-- What a write of a block of bootbin/sddisk.c sends, and when it succeeds.
use criscv_hw.Prelude.{
  ℕ, suc, ◌+◌, ◌%◌, ◌^◌, ◌≤◌, ◌<◌, ◌≡◌, ◌⊎◌, refl, sym, ap, ◌∙◌, inl, inr, true, List, ◌∷◌, ◌++◌,
  ◌==◌, ==_iff, arith, bit_and, replicate, Bool-cases,
}
use mathlib.Core.Path.{subst}
use criscv_hw.Sddisk.Wire.{Card, Sd, spi_xfer, print}
use criscv_hw.Sddisk.Message.{Message, cmd24_failed, write_rejected, write_busy_timeout}
use criscv_hw.Sddisk.Protocol.{sd_select, sd_deselect, sd_cmd}
use criscv_hw.Sddisk.Block.{
  Status, success, failure, Report, block_address, fail, send_loop, response_loop, busy_loop,
  confirm, write_busy, write_data, write_block, write_busy_tries,
}
use criscv_hw.Sddisk.Polls.{clocked, IsWait, frame, response_loop-IsWait, sd_cmd-IsWait}
use criscv_hw.Sddisk.Sent.{IsSent, select_cmd-IsSent, replicate-replicate}
use criscv_hw.Sddisk.Written.{
  block, IsConfirmed, WriteOutcome, Confirms, send_loop-block, busy_loop-clocked, cmd-answer,
  confirm-Confirms,
}

module _ (report : Report) (card : Card) (lba buf : ℕ) (s : Sd) where
  -- The card has answered the command.
  record Asked (t : Sd) : Type 0 where
    sent : IsSent 24 (block_address s.sd_hc lba) s t
    answer : card t.wire % 2 ^ 8 ≡ 0x00

  abbrev wire_of : Sd → List ℕ
  wire_of asked = 0xFF ∷ 0xFF ∷ (block s.mem buf 512 ++ 0xFE ∷ 0xFF ∷ asked.wire)

  -- The card has accepted the block.
  record Accepted (t : Sd) : Type 0 where
    asked : Sd
    command : Asked asked
    polls : ℕ
    polls_le : (0 < polls) × (polls ≤ 10)
    accepted : bit_and (card (replicate polls 0xFF ++ wire_of asked) % 2 ^ 8) 0x1F ≡ 0x05
    state : t ≡ record asked { wire = replicate polls 0xFF ++ wire_of asked }

  abbrev Same : Sd → Type 0
  Same t = (t.mem ≡ s.mem) × (t.sd_hc ≡ s.sd_hc)

  Accepted-Same : (t : Sd) → Accepted t → Same t
  Accepted-Same t a = (
    ap (λ (u : Sd). u.mem) a.state ∙ a.command.sent.mem_eq,
    ap (λ (u : Sd). u.sd_hc) a.state ∙ a.command.sent.hc_eq,
  )

  fail-WriteOutcome :
      (msg : Message) (t : Sd) → Same t → WriteOutcome card lba buf s (fail report card msg t)
  unfolding fail sd_deselect spi_xfer print
  fail-WriteOutcome msg t same = same

  confirmed-WriteOutcome :
      (t u : Sd) (a : Accepted t) (busy : ℕ) (r : Status × Sd)
      → u ≡ record a.asked { wire = replicate busy 0xFF ++ wire_of a.asked }
      → Confirms card u r
      → WriteOutcome card lba buf s r
  confirmed-WriteOutcome t u a busy (success, after) state c = record {
    asked = a.asked;
    sent = a.command.sent;
    answer = a.command.answer;
    at_data = wire_of a.asked;
    data_eq = refl;
    polls = a.polls;
    polls_le = a.polls_le;
    accepted = a.accepted;
    busy = busy;
    confirmed = subst (λ v. IsConfirmed card v after) state c.0;
    mem_eq = c.1 ∙ (ap (λ (v : Sd). v.mem) state ∙ a.command.sent.mem_eq);
    hc_eq = c.2 ∙ (ap (λ (v : Sd). v.sd_hc) state ∙ a.command.sent.hc_eq);
  }
  confirmed-WriteOutcome t u a busy (failure, after) state c = (
    c.0 ∙ (ap (λ (v : Sd). v.mem) state ∙ a.command.sent.mem_eq),
    c.1 ∙ (ap (λ (v : Sd). v.sd_hc) state ∙ a.command.sent.hc_eq),
  )

  write_busy-WriteOutcome :
      (t : Sd) → Accepted t → WriteOutcome card lba buf s (write_busy report card t)
  unfolding write_busy sd_deselect spi_xfer
  write_busy-WriteOutcome t a = elim (Bool-cases (busy_loop card write_busy_tries t).0) [
    | inl e ↦
        rw (write_busy, e)
          (confirmed-WriteOutcome t (clocked 1 after) a (suc k + a.polls)
            (confirm report card (clocked 1 after))
            (ap (λ v. clocked 1 v) state
              ∙ (ap (λ v. clocked (suc k) v) a.state
                  ∙ ap (λ w. record a.asked { wire = w })
                      (replicate-replicate (suc k) a.polls (wire_of a.asked))))
            (confirm-Confirms report card (clocked 1 after)))
    | inr e ↦
        rw (write_busy, e)
          (fail-WriteOutcome write_busy_timeout after (
            ap (λ (u : Sd). u.mem) state ∙ (Accepted-Same t a).0,
            ap (λ (u : Sd). u.sd_hc) state ∙ (Accepted-Same t a).1,
          ))
  ]
    where
      after : Sd
      after = (busy_loop card write_busy_tries t).1

      k : ℕ
      k = (busy_loop-clocked card write_busy_tries t).0

      state : after ≡ clocked k t
      state = (busy_loop-clocked card write_busy_tries t).1

  -- The block is out.
  abbrev behind : Sd → Sd
  behind t =
      let u = (send_loop card 512 0 buf (record t { wire = 0xFE ∷ 0xFF ∷ t.wire })).1 in
      record u { wire = 0xFF ∷ 0xFF ∷ u.wire }

  behind-wire_of : (t : Sd) → Asked t → behind t ≡ record t { wire = wire_of t }
  behind-wire_of t c =
      let e : buf + 0 ≡ buf = omega arith in
      ap (λ (u : Sd). record u { wire = 0xFF ∷ 0xFF ∷ u.wire })
        (send_loop-block card 512 0 buf (record t { wire = 0xFE ∷ 0xFF ∷ t.wire }))
      ∙ rw (e, c.sent.mem_eq)

  write_data-WriteOutcome :
      (t : Sd) → Asked t → WriteOutcome card lba buf s (write_data report card buf t)
  unfolding write_data spi_xfer
  write_data-WriteOutcome t c = elim (Bool-cases (bit_and resp 0x1F == 0x05)) [
    | inl e ↦ rw (write_data, e) (write_busy-WriteOutcome after (taken e wait.answer))
    | inr e ↦
        rw (write_data, e)
          (fail-WriteOutcome (write_rejected resp) after (
            ap (λ (u : Sd). u.mem) state ∙ c.sent.mem_eq,
            ap (λ (u : Sd). u.sd_hc) state ∙ c.sent.hc_eq,
          ))
  ]
    where
      resp : ℕ
      resp = (response_loop card 10 0xFF (behind t)).0

      after : Sd
      after = (response_loop card 10 0xFF (behind t)).1

      wait : IsWait card 10 0xFF (behind t) resp after
      wait = response_loop-IsWait card 10 0xFF (behind t)

      state : after ≡ record t { wire = replicate wait.count 0xFF ++ wire_of t }
      state = wait.state ∙ ap (λ u. clocked wait.count u) (behind-wire_of t c)

      taken :
          (bit_and resp 0x1F == 0x05) ≡ true
          → ((wait.count ≡ 0) × (resp ≡ 0xFF))
            ⊎ ((0 < wait.count) × (resp ≡ card after.wire % 2 ^ 8))
          → Accepted after
      taken e (inl (z, f)) =
          let none_came : (bit_and 0xFF 0x1F == 0x05) ≡ true =
            ap (λ r. bit_and r 0x1F == 0x05) (sym f) ∙ e in
          absurd (ground arith)
      taken e (inr (p, f)) = record {
        asked = t;
        command = c;
        polls = wait.count;
        polls_le = (p, wait.within);
        accepted =
            ap (λ (u : Sd). bit_and (card u.wire % 2 ^ 8) 0x1F) (sym state)
            ∙ (ap (λ r. bit_and r 0x1F) (sym f) ∙ (==_iff _ _).0 e);
        state = state;
      }

  -- A write changes no memory, and it succeeds only if the card has answered CMD24 for the block's
  -- address, has then been sent the token and the 512 bytes at `buf`, has accepted them within ten
  -- bytes, and has confirmed them to CMD13 with two zeros.
  pub write_block-WriteOutcome : WriteOutcome card lba buf s (write_block report card lba buf s)
  unfolding write_block
  write_block-WriteOutcome = elim (Bool-cases (asked.0 == 0)) [
    | inl e ↦
        rw (write_block, e)
          (write_data-WriteOutcome asked.1 (record {
            sent = sent;
            answer = cmd-answer card 10 asked.0 _ asked.1 wait (ground arith);
          }))
    | inr e ↦
        rw (write_block, e)
          (fail-WriteOutcome (cmd24_failed asked.0) asked.1 (sent.mem_eq, sent.hc_eq))
  ]
    where
      arg : ℕ
      arg = block_address s.sd_hc lba

      asked : ℕ × Sd
      asked = sd_cmd card 24 arg 0x01 (sd_select card s).1

      sent : IsSent 24 arg s asked.1
      sent = select_cmd-IsSent card 24 arg s

      wait :
          IsWait card 10 0xFF
            (record (sd_select card s).1 { wire = frame 24 arg 0x01 ++ (sd_select card s).1.wire })
            asked.0
            asked.1
      wait = sd_cmd-IsWait card 24 arg 0x01 (sd_select card s).1
