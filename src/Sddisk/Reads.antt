-- ===== src/Sddisk/Reads.antt =====
-- What a read of a block does: the command that it sends, the bytes that it stores, and that a read
-- that fails stores none.
use criscv_hw.Prelude.{
  ℕ, zero, suc, ◌+◌, ◌%◌, ◌^◌, ◌≤◌, ◌<◌, ◌≡◌, ◌⊎◌, refl, ap, ◌∙◌, inl, inr, true, false, List, ◌∷◌,
  ◌++◌, ◌==◌, arith, replicate, store, Outside, Bool-cases,
}
use criscv_hw.Sddisk.Wire.{Card, Sd, spi_xfer, print}
use criscv_hw.Sddisk.Message.{Message, cmd17_failed, bad_token}
use criscv_hw.Sddisk.Protocol.{sd_select, sd_deselect, sd_cmd}
use criscv_hw.Sddisk.Block.{
  Status, success, failure, Report, token_tries, block_address, fail, token_loop, data_loop,
  read_data, read_token, read_block,
}
use criscv_hw.Sddisk.Sent.{IsSent, IsSent-clocked, select_cmd-IsSent}
use criscv_hw.Sddisk.Polls.{replicate-shift, IsWait, frame, token_loop-IsWait, sd_cmd-IsWait}

-- The state after a round of the loop.
abbrev stored : Card → ℕ → Sd → Sd
stored card a s = record s {
  wire = 0xFF ∷ s.wire;
  mem = store s.mem a (card (0xFF ∷ s.wire) % 2 ^ 8);
}

data_loop-wire :
    (card : Card) (left i buf : ℕ) (s : Sd)
    → (data_loop card left i buf s).1.wire ≡ replicate left 0xFF ++ s.wire
unfolding data_loop spi_xfer
data_loop-wire card zero i buf s = refl
data_loop-wire card (suc left) i buf s =
    data_loop-wire card left (i + 1) buf (stored card (buf + i) s) ∙ replicate-shift left s.wire

data_loop-kept :
    (card : Card) (left i buf : ℕ) (s : Sd) (x : ℕ)
    → (x < buf + i) ⊎ (buf + i + left ≤ x)
    → (data_loop card left i buf s).1.mem x ≡ s.mem x
unfolding data_loop spi_xfer store
data_loop-kept card zero i buf s x h = refl
data_loop-kept card (suc left) i buf s x h =
    data_loop-kept card left (i + 1) buf _ x (omega arith) ∙ ground arith

-- Byte `j` is the card's answer to the transfer `j + 1`.
data_loop-stored :
    (card : Card) (left i buf : ℕ) (s : Sd) (j : ℕ)
    → j < left
    → (data_loop card left i buf s).1.mem (buf + i + j)
      ≡ card (replicate (suc j) 0xFF ++ s.wire) % 2 ^ 8
unfolding data_loop spi_xfer store
data_loop-stored card zero i buf s j h = absurd (omega arith)
data_loop-stored card (suc left) i buf s zero h =
    data_loop-kept card left (i + 1) buf (stored card (buf + i) s) (buf + i + 0) (omega arith)
    ∙ ground arith
data_loop-stored card (suc left) i buf s (suc j) h =
    let there : buf + i + suc j ≡ buf + (i + 1) + j = omega arith in
    rw there (
      data_loop-stored card left (i + 1) buf (stored card (buf + i) s) j (omega arith)
      ∙ ap (λ w. card (0xFF ∷ w) % 2 ^ 8) (replicate-shift j s.wire))

data_loop-hc :
    (card : Card) (left i buf : ℕ) (s : Sd) → (data_loop card left i buf s).1.sd_hc ≡ s.sd_hc
unfolding data_loop spi_xfer
data_loop-hc card zero i buf s = refl
data_loop-hc card (suc left) i buf s = data_loop-hc card left (i + 1) buf (stored card (buf + i) s)

-- A block that was read. The wire at its token holds the command, with only 0xFF round it; the 512
-- bytes at `buf` are the card's answers behind the token; no other byte has changed.
pub record IsRead (card : Card) (lba buf : ℕ) (s after : Sd) : Type 0 where
  pub before : ℕ
  pub between : ℕ
  pub at_token : List ℕ
  pub command :
      at_token
      ≡ replicate between 0xFF
        ++ (frame 17 (block_address s.sd_hc lba) 0x01 ++ (replicate before 0xFF ++ s.wire))
  pub token : card at_token % 2 ^ 8 ≡ 0xFE
  pub bytes :
      (j : ℕ) → j < 512 → after.mem (buf + j) ≡ card (replicate (suc j) 0xFF ++ at_token) % 2 ^ 8
  pub kept : (x : ℕ) → Outside buf 512 x → after.mem x ≡ s.mem x
  pub ended : after.wire ≡ replicate 515 0xFF ++ at_token
  pub hc_eq : after.sd_hc ≡ s.sd_hc

-- The card has answered the command for the block with a byte other than 0, or not at all.
pub record IsRefused (card : Card) (addr : ℕ) (asked : Sd) : Type 0 where
  pub from : Sd
  pub answer : ℕ
  pub wait :
      IsWait card 10 0xFF (record from { wire = frame 17 addr 0x01 ++ from.wire }) answer asked
  pub bad : (answer == 0) ≡ false

-- The first byte other than 0xFF behind the command `asked` was no token, or none came.
pub record IsTokenless (card : Card) (asked seen : Sd) : Type 0 where
  pub token : ℕ
  pub wait : IsWait card token_tries 0xFF asked token seen
  pub bad : (token == 0xFE) ≡ false

-- A read that has failed: the command is out, with the card's refusal or the wait for a token behind
-- it, and nothing but the wire and the console has changed.
pub record IsFailed (card : Card) (lba : ℕ) (s after : Sd) : Type 0 where
  pub asked : Sd
  pub seen : Sd
  pub sent : IsSent 17 (block_address s.sd_hc lba) s asked
  pub cause :
      ((seen ≡ asked) × IsRefused card (block_address s.sd_hc lba) asked)
      ⊎ IsTokenless card asked seen
  pub wire_eq : after.wire ≡ 0xFF ∷ seen.wire
  pub mem_eq : after.mem ≡ s.mem
  pub hc_eq : after.sd_hc ≡ s.sd_hc

-- What a call leaves, by its result.
abbrev pub Outcome : Card → ℕ → ℕ → Sd → Status × Sd → Type 0
Outcome card lba buf s (success, after) = IsRead card lba buf s after
Outcome card lba buf s (failure, after) = IsFailed card lba s after

module _ (report : Report) (card : Card) (lba buf : ℕ) (s : Sd) where
  abbrev Sent : Sd → Type 0
  Sent t = IsSent 17 (block_address s.sd_hc lba) s t

  read_data-IsRead :
      (t : Sd) → Sent t → card t.wire % 2 ^ 8 ≡ 0xFE → Outcome card lba buf s (read_data card buf t)
  unfolding read_data spi_xfer sd_deselect
  read_data-IsRead t sent token = record {
    before = sent.before;
    between = sent.between;
    at_token = t.wire;
    command = sent.wire_eq;
    token = token;
    bytes = λ j h.
        ap (data_loop card 512 0 buf t).1.mem (omega arith) ∙ data_loop-stored card 512 0 buf t j h;
    kept = λ x h. data_loop-kept card 512 0 buf t x (omega arith) ∙ ap (λ m. m x) sent.mem_eq;
    ended = ap (λ w. 0xFF ∷ 0xFF ∷ 0xFF ∷ w) (data_loop-wire card 512 0 buf t);
    hc_eq = data_loop-hc card 512 0 buf t ∙ sent.hc_eq;
  }

  fail-Outcome :
      (msg : Message) (asked t : Sd)
      → Sent asked
      → Sent t
      → ((t ≡ asked) × IsRefused card (block_address s.sd_hc lba) asked) ⊎ IsTokenless card asked t
      → Outcome card lba buf s (fail report card msg t)
  unfolding fail sd_deselect spi_xfer print
  fail-Outcome msg asked t sent sent' cause = record {
    asked = asked;
    seen = t;
    sent = sent;
    cause = cause;
    wire_eq = refl;
    mem_eq = sent'.mem_eq;
    hc_eq = sent'.hc_eq;
  }

  read_token-Outcome : (t : Sd) → Sent t → Outcome card lba buf s (read_token report card buf t)
  unfolding read_token
  read_token-Outcome t sent = elim (Bool-cases (token == 0xFE)) [
    | inl e ↦ rw (read_token, e) (read_data-IsRead after sent' (seen wait.answer e))
    | inr e ↦
        rw (read_token, e)
          (fail-Outcome (bad_token token) t after sent sent'
            (inr (record { token = token; wait = wait; bad = e })))
  ]
    where
      token : ℕ
      token = (token_loop card token_tries 0xFF t).0

      after : Sd
      after = (token_loop card token_tries 0xFF t).1

      wait : IsWait card token_tries 0xFF t token after
      wait = token_loop-IsWait card token_tries 0xFF t

      sent' : Sent after
      sent' = rw wait.state (IsSent-clocked 17 (block_address s.sd_hc lba) s t wait.count sent)

      seen :
          ((wait.count ≡ 0) × (token ≡ 0xFF))
            ⊎ ((0 < wait.count) × (token ≡ card after.wire % 2 ^ 8))
          → (token == 0xFE) ≡ true
          → card after.wire % 2 ^ 8 ≡ 0xFE
      seen (inl (z, n)) e = absurd (ground arith)
      seen (inr (p, n)) e = ground arith

  abbrev answered : ℕ × Sd
  answered = sd_cmd card 17 (block_address s.sd_hc lba) 0x01 (sd_select card s).1

  answered-Sent : Sent answered.1
  answered-Sent = select_cmd-IsSent card 17 (block_address s.sd_hc lba) s

  pub read_block-Outcome : Outcome card lba buf s (read_block report card lba buf s)
  unfolding read_block
  read_block-Outcome = elim (Bool-cases (answered.0 == 0)) [
    | inl e ↦ rw (read_block, e) (read_token-Outcome answered.1 answered-Sent)
    | inr e ↦
        rw (read_block, e)
          (fail-Outcome (cmd17_failed answered.0) answered.1 answered.1 answered-Sent answered-Sent
            (inl (
              refl,
              record {
                from = (sd_select card s).1;
                answer = answered.0;
                wait = sd_cmd-IsWait card 17 (block_address s.sd_hc lba) 0x01 (sd_select card s).1;
                bad = e;
              },
            )))
  ]
