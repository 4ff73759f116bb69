-- ===== src/Sddisk/Polls.antt =====
-- The waits of the driver clock the card with 0xFF, so many times at most, and change nothing else.
use criscv_hw.Prelude.{
  ℕ, zero, suc, ◌/◌, ◌%◌, ◌^◌, ◌≤◌, ◌<◌, ◌≡◌, ◌⊎◌, refl, ap, ◌∙◌, inl, inr, List, [], ◌∷◌, ◌++◌,
  ◌==◌, arith, bit_and, bit_or, replicate, Bool-cases,
}
use criscv_hw.Sddisk.Wire.{Card, Sd, spi_xfer}
use criscv_hw.Sddisk.Protocol.{
  ready_tries, ready_loop, sd_select, sd_deselect, r1_loop, send_frame, sd_cmd,
}
use criscv_hw.Sddisk.Block.{token_loop, response_loop}

-- The state after `k` transfers of 0xFF.
abbrev pub clocked : ℕ → Sd → Sd
clocked k s = record s { wire = replicate k 0xFF ++ s.wire }

pub replicate-shift :
    (k : ℕ) (w : List ℕ) → replicate k 0xFF ++ 0xFF ∷ w ≡ 0xFF ∷ (replicate k 0xFF ++ w)
replicate-shift zero w = refl
replicate-shift (suc k) w = ap (λ v. 0xFF ∷ v) (replicate-shift k w)

pub clocked-clocked : (k : ℕ) (s : Sd) → clocked k (clocked 1 s) ≡ clocked (suc k) s
clocked-clocked k s = ap (λ w. record s { wire = w }) (replicate-shift k s.wire)

-- A wait of at most `n` transfers: the byte that it returns is the card's last answer, or `first`
-- if it made none.
pub record IsWait (card : Card) (n first : ℕ) (s : Sd) (byte : ℕ) (after : Sd) : Type 0 where
  pub count : ℕ
  pub within : count ≤ n
  pub state : after ≡ clocked count s
  pub answer : ((count ≡ 0) × (byte ≡ first)) ⊎ ((0 < count) × (byte ≡ card after.wire % 2 ^ 8))

module _ (card : Card) where
  -- One more transfer in front.
  IsWait-suc :
      {n first byte : ℕ} {s after : Sd}
      → IsWait card n (card (clocked 1 s).wire % 2 ^ 8) (clocked 1 s) byte after
      → IsWait card (suc n) first s byte after
  IsWait-suc {n} {byte} {s} {after} w = record {
    count = suc w.count;
    within = omega (arith, w.within);
    state = w.state ∙ clocked-clocked w.count s;
    answer = inr (omega arith, last w.answer);
  }
    where
      at_zero : w.count ≡ 0 → after ≡ clocked 1 s
      at_zero z = w.state ∙ rw z

      last :
          ((w.count ≡ 0) × (byte ≡ card (clocked 1 s).wire % 2 ^ 8))
            ⊎ ((0 < w.count) × (byte ≡ card after.wire % 2 ^ 8))
          → byte ≡ card after.wire % 2 ^ 8
      last (inl (z, e)) = rw (at_zero z) e
      last (inr (p, e)) = e

  IsWait-one :
      (n first : ℕ) (s : Sd)
      → IsWait card (suc n) first s (card (clocked 1 s).wire % 2 ^ 8) (clocked 1 s)
  IsWait-one n first s = record {
    count = 1;
    within = omega arith;
    state = refl;
    answer = inr (omega arith, refl);
  }

  IsWait-none : (n first : ℕ) (s : Sd) → IsWait card n first s first s
  IsWait-none n first s = record {
    count = 0;
    within = omega arith;
    state = refl;
    answer = inl (refl, refl);
  }

  pub r1_loop-IsWait :
      (n first : ℕ) (s : Sd)
      → IsWait card n first s (r1_loop card n first s).0 (r1_loop card n first s).1
  unfolding r1_loop spi_xfer
  r1_loop-IsWait zero first s = IsWait-none 0 first s
  r1_loop-IsWait (suc n) first s =
      elim (Bool-cases (bit_and (card (clocked 1 s).wire % 2 ^ 8) 0x80 == 0)) [
        | inl e ↦ rw (r1_loop, e) (IsWait-one n first s)
        | inr e ↦ rw (r1_loop, e) (IsWait-suc (r1_loop-IsWait n _ (clocked 1 s)))
      ]

  pub token_loop-IsWait :
      (n first : ℕ) (s : Sd)
      → IsWait card n first s (token_loop card n first s).0 (token_loop card n first s).1
  unfolding token_loop spi_xfer
  token_loop-IsWait zero first s = IsWait-none 0 first s
  token_loop-IsWait (suc n) first s = elim (Bool-cases (card (clocked 1 s).wire % 2 ^ 8 == 0xFF)) [
    | inl e ↦ rw (token_loop, e) (IsWait-suc (token_loop-IsWait n _ (clocked 1 s)))
    | inr e ↦ rw (token_loop, e) (IsWait-one n first s)
  ]

  pub response_loop-IsWait :
      (n first : ℕ) (s : Sd)
      → IsWait card n first s (response_loop card n first s).0 (response_loop card n first s).1
  unfolding response_loop spi_xfer
  response_loop-IsWait zero first s = IsWait-none 0 first s
  response_loop-IsWait (suc n) first s =
      elim (Bool-cases (bit_and (card (clocked 1 s).wire % 2 ^ 8) 0x11 == 0x01)) [
        | inl e ↦ rw (response_loop, e) (IsWait-one n first s)
        | inr e ↦ rw (response_loop, e) (IsWait-suc (response_loop-IsWait n _ (clocked 1 s)))
      ]

  -- A wait whose last answer nobody reads.
  pub ready_loop-clocked :
      (n : ℕ) (s : Sd) → (k : ℕ) × (k ≤ n) × ((ready_loop card n s).1 ≡ clocked k s)
  unfolding ready_loop spi_xfer
  ready_loop-clocked zero s = (0, omega arith, refl)
  ready_loop-clocked (suc n) s = elim (Bool-cases (card (clocked 1 s).wire % 2 ^ 8 == 0xFF)) [
    | inl e ↦ (1, omega arith, rw (ready_loop, e))
    | inr e ↦
        let (k, le, state) = ready_loop-clocked n (clocked 1 s) in
        (suc k, omega arith, rw (ready_loop, e) (state ∙ clocked-clocked k s))
  ]

  pub sd_select-clocked :
      (s : Sd) → (k : ℕ) × (k ≤ ready_tries) × ((sd_select card s).1 ≡ clocked k s)
  unfolding sd_select
  sd_select-clocked s = ready_loop-clocked ready_tries s

  pub sd_deselect-clocked : (s : Sd) → (sd_deselect card s).1 ≡ clocked 1 s
  unfolding sd_deselect spi_xfer
  sd_deselect-clocked s = refl

-- The bytes of a command as they stand on the wire, newest first.
abbrev pub frame : ℕ → ℕ → ℕ → List ℕ
frame cmd arg crc =
    crc
    ∷ arg % 2 ^ 8
    ∷ arg / 2 ^ 8 % 2 ^ 8
    ∷ arg / 2 ^ 16 % 2 ^ 8
    ∷ arg / 2 ^ 24 % 2 ^ 8
    ∷ bit_or 0x40 cmd % 2 ^ 8
    ∷ []

pub send_frame-wire :
    (card : Card) (cmd arg crc : ℕ) (s : Sd)
    → (send_frame card cmd arg crc s).1 ≡ record s { wire = frame cmd arg crc ++ s.wire }
unfolding send_frame spi_xfer
send_frame-wire card cmd arg crc s = refl

-- A command goes out whole; then the card is clocked until it answers, ten times at most.
pub sd_cmd-IsWait :
    (card : Card) (cmd arg crc : ℕ) (s : Sd)
    → IsWait card 10 0xFF
        (record s { wire = frame cmd arg crc ++ s.wire })
        (sd_cmd card cmd arg crc s).0
        (sd_cmd card cmd arg crc s).1
unfolding sd_cmd
sd_cmd-IsWait card cmd arg crc s =
    rw (send_frame-wire card cmd arg crc s)
      (r1_loop-IsWait card 10 0xFF (record s { wire = frame cmd arg crc ++ s.wire }))
