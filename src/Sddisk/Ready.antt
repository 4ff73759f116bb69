-- ===== src/Sddisk/Ready.antt =====
-- What the start of a card by `sddisk_init` of bootbin/sddisk.c and bootloader/sddisk.c settles: the
-- addressing, and what is printed.
use criscv_hw.Prelude.{
  ℕ, ◌%◌, ◌^◌, ◌≡◌, ◌⊎◌, refl, ap, inl, inr, Bool, true, false, not, ◌&&◌, ◌||◌, List, ◌∷◌, ◌==◌,
  arith, bit_and, Bool-cases, reverse, ◌++◌, Memory,
}
use criscv_hw.Sddisk.Wire.{Card, Sd, spi_xfer, print}
use criscv_hw.Sddisk.Message.{Message, cmd0_failed, cmd8_bad_echo, acmd41_timeout, cmd16_failed}
use criscv_hw.Sddisk.Protocol.{sd_select, sd_deselect, sd_cmd}
use criscv_hw.Sddisk.Block.{Status, success, failure, Report, fail}
use criscv_hw.Sddisk.Init.{
  clocks, command, read_response, acmd41_loop, read_ocr, Greeting, init_finish, init_block_size,
  init_addressing, init_acmd41, check_echo, init_cmd8, init,
}
use criscv_hw.Sddisk.Polls.{frame, IsWait, sd_cmd-IsWait}
use criscv_hw.Sddisk.Later.{
  Later, Later-refl, Later-trans, Later-cons, select_cmd-Later, acmd41_loop-Later,
}
use criscv_hw.Sddisk.Sent.{IsSent, select_cmd-IsSent}
use criscv_hw.Sddisk.Written.{cmd-answer}
use criscv_hw.Sddisk.Quiet.{
  Same, IsQuiet, IsQuiet-trans, select_cmd-IsQuiet, clocks-IsQuiet, command-IsQuiet,
  acmd41_loop-IsQuiet,
}

-- A command that the card has answered with 0.
pub record IsAnswered (card : Card) (cmd arg : ℕ) (asked : Sd) : Type 0 where
  pub from : Sd
  pub sent : IsSent cmd arg from asked
  pub answer : card asked.wire % 2 ^ 8 ≡ 0

-- The version that the card's answer to CMD8 has told, before `wire`.
pub record IsVersion (card : Card) (v2 : Bool) (wire : List ℕ) : Type 0 where
  pub from : Sd
  pub answer : ℕ
  pub asked : Sd
  pub wait :
      IsWait card 10 0xFF (record from { wire = frame 8 0x000001AA 0x87 ++ from.wire }) answer asked
  pub version : (answer == 0x01) ≡ v2
  pub later : Later asked.wire wire

-- Block addresses: the card has answered CMD58, and bit 6 of its register is set.
pub record InBlocks (card : Card) (wire : List ℕ) : Type 0 where
  pub asked : Sd
  pub answered : IsAnswered card 58 0 asked
  pub bit : (bit_and (card (0xFF ∷ asked.wire) % 2 ^ 8) 0x40 == 0) ≡ false
  pub wire_eq : wire ≡ 0xFF ∷ 0xFF ∷ 0xFF ∷ 0xFF ∷ 0xFF ∷ asked.wire

-- The card has not answered CMD58 with 0, or bit 6 of its register is clear.
pub record NoBlocks (card : Card) (wire : List ℕ) : Type 0 where
  pub from : Sd
  pub answer : ℕ
  pub asked : Sd
  pub wait : IsWait card 10 0xFF (record from { wire = frame 58 0 0x01 ++ from.wire }) answer asked
  pub cause :
      ((answer == 0) ≡ false) ⊎ ((bit_and (card (0xFF ∷ asked.wire) % 2 ^ 8) 0x40 == 0) ≡ true)
  pub wire_eq : wire ≡ 0xFF ∷ 0xFF ∷ 0xFF ∷ 0xFF ∷ 0xFF ∷ asked.wire

-- Byte addresses: the card is of version 1, or has told that it has no block addresses, and has then
-- accepted blocks of 512 bytes as the last command.
pub record InBytes (card : Card) (v2 : Bool) (wire : List ℕ) : Type 0 where
  pub asked : Sd
  pub answered : IsAnswered card 16 512 asked
  pub reason : (v2 ≡ false) ⊎ NoBlocks card (answered.from).wire
  pub wire_eq : wire ≡ 0xFF ∷ asked.wire

abbrev pub Addressing : Card → Bool → Sd → Type 0
Addressing card v2 t =
    ((t.sd_hc ≡ true) × (v2 ≡ true) × InBlocks card t.wire)
    ⊎ ((t.sd_hc ≡ false) × InBytes card v2 t.wire)

-- What a start leaves, by its result: after a failure, one report.
abbrev pub Started : Report → Greeting → Card → Sd → Status × Sd → Type 0
Started report greeting card s (success, t) =
    (t.mem ≡ s.mem)
    × ((v2 : Bool) × IsVersion card v2 t.wire
        × Addressing card v2 t
        × (t.console ≡ reverse (greeting v2 t.sd_hc) ++ s.console))
Started report greeting card s (failure, t) =
    (t.mem ≡ s.mem) × ((msg : Message) × (t.console ≡ reverse (report msg) ++ s.console))

IsVersion-Later :
    {card : Card} {v2 : Bool} {wire wire' : List ℕ}
    → Later wire wire'
    → IsVersion card v2 wire
    → IsVersion card v2 wire'
IsVersion-Later l k = record {
  from = k.from;
  answer = k.answer;
  asked = k.asked;
  wait = k.wait;
  version = k.version;
  later = Later-trans k.later l;
}

-- What `read_ocr` leaves, begun with byte addresses.
record IsRead (card : Card) (s t : Sd) : Type 0 where
  quiet : IsQuiet s t
  blocks : t.sd_hc ≡ true → InBlocks card t.wire
  no_blocks : t.sd_hc ≡ false → NoBlocks card t.wire
  later : Later s.wire t.wire

read_ocr-IsRead : (card : Card) (s : Sd) → s.sd_hc ≡ false → IsRead card s (read_ocr card s).1
unfolding read_ocr read_response sd_deselect spi_xfer
read_ocr-IsRead card s h = elim (Bool-cases set) [
  | inl e ↦
      rw (read_ocr, e)
        (record {
          quiet = select_cmd-IsQuiet card 58 0 0x01 s;
          blocks = λ q. record {
            asked = asked.1;
            answered = record {
              from = s;
              sent = sent;
              answer =
                  cmd-answer card 10 asked.0 _ asked.1
                    (sd_cmd-IsWait card 58 0 0x01 (sd_select card s).1) (ground arith);
            };
            bit = ground arith;
            wire_eq = refl;
          };
          no_blocks = λ q. cc;
          later = read_later;
        })
  | inr e ↦
      rw (read_ocr, e)
        (record {
          quiet = select_cmd-IsQuiet card 58 0 0x01 s;
          blocks = λ q. absurd (ground (arith, sent.hc_eq));
          no_blocks = λ q. record {
            from = (sd_select card s).1;
            answer = asked.0;
            asked = asked.1;
            wait = sd_cmd-IsWait card 58 0 0x01 (sd_select card s).1;
            cause = ground arith;
            wire_eq = refl;
          };
          later = read_later;
        })
]
  where
    asked : ℕ × Sd
    asked = sd_cmd card 58 0 0x01 (sd_select card s).1

    set : Bool
    set = asked.0 == 0x00 && not (bit_and (card (0xFF ∷ asked.1.wire) % 2 ^ 8) 0x40 == 0)

    sent : IsSent 58 0 s asked.1
    sent = select_cmd-IsSent card 58 0 s

    read_later : Later s.wire (0xFF ∷ 0xFF ∷ 0xFF ∷ 0xFF ∷ 0xFF ∷ asked.1.wire)
    read_later = Later-cons 0xFF (
        Later-cons 0xFF
          (Later-cons 0xFF (Later-cons 0xFF (Later-cons 0xFF (select_cmd-Later card 58 0 0x01 s)))))

module _ (report : Report) (greeting : Greeting) (card : Card) where
  -- A failure has printed its report.
  failed_report :
      {m m' : Memory} {c c' : List ℕ} (msg : Message)
      → Same m c m' c'
      → (m' ≡ m) × ((msg' : Message) × (reverse (report msg) ++ c' ≡ reverse (report msg') ++ c))
  failed_report msg q = (q.mem_eq, (msg, ap (λ c. reverse (report msg) ++ c) q.console_eq))

  -- The rest of a start whose addressing is known.
  init_finish-Started :
      (v2 : Bool) (s' s : Sd)
      → IsQuiet s' s
      → IsVersion card v2 s.wire
      → Addressing card v2 s
      → Started report greeting card s' (init_finish report greeting card v2 s)
  unfolding init_finish print
  init_finish-Started v2 s' s e k a =
      (e.mem_eq, (v2, k, a, ap (λ c. reverse (greeting v2 s.sd_hc) ++ c) e.console_eq))

  -- The choice of the addressing, by what CMD58 has left.
  init_block_size-Started :
      (v2 hc : Bool) (s' s : Sd)
      → IsQuiet s' s
      → IsVersion card v2 s.wire
      → (hc ≡ true → (v2 ≡ true) × InBlocks card s.wire)
      → (hc ≡ false → (v2 ≡ false) ⊎ NoBlocks card s.wire)
      → Started report greeting card s'
          (init_block_size report greeting card v2 (record s { sd_hc = hc }))
  unfolding init_block_size command sd_deselect spi_xfer print
  init_block_size-Started v2 true s' s e k blocks none_told =
      init_finish-Started v2 s' (record s { sd_hc = true }) e k
        (inl (refl, (blocks refl).0, (blocks refl).1))
  init_block_size-Started v2 false s' s e k blocks none_told = elim (Bool-cases (asked.0 == 0x00)) [
    | inl z ↦
        rw (init_block_size, z)
          (init_finish-Started v2 s' _ (IsQuiet-trans e asked-IsQuiet)
            (IsVersion-Later
              (Later-cons 0xFF (select_cmd-Later card 16 512 0x01 (record s { sd_hc = false }))) k)
            (inr (
              sent.hc_eq,
              record {
                asked = asked.1;
                answered = record {
                  from = record s { sd_hc = false };
                  sent = sent;
                  answer =
                      cmd-answer card 10 asked.0 _ asked.1 (sd_cmd-IsWait card 16 512 0x01 _)
                        (ground arith);
                };
                reason = none_told refl;
                wire_eq = refl;
              },
            )))
    | inr z ↦
        rw (init_block_size, z)
          (failed_report (cmd16_failed asked.0) (IsQuiet-trans e asked-IsQuiet))
  ]
    where
      asked : ℕ × Sd
      asked = sd_cmd card 16 512 0x01 (sd_select card (record s { sd_hc = false })).1

      sent : IsSent 16 512 (record s { sd_hc = false }) asked.1
      sent = select_cmd-IsSent card 16 512 _

      asked-IsQuiet : IsQuiet (record s { sd_hc = false }) asked.1
      asked-IsQuiet = select_cmd-IsQuiet card 16 512 0x01 (record s { sd_hc = false })

  init_addressing-Started :
      (v2 : Bool) (s' s : Sd)
      → IsQuiet s' s
      → IsVersion card v2 s.wire
      → Started report greeting card s' (init_addressing report greeting card v2 s)
  unfolding init_addressing
  init_addressing-Started true s' s e k =
      let r = read_ocr-IsRead card (record s { sd_hc = false }) refl in
      init_block_size-Started true (read_ocr card (record s { sd_hc = false })).1.sd_hc s'
        (read_ocr card (record s { sd_hc = false })).1 (IsQuiet-trans e r.quiet)
        (IsVersion-Later r.later k) (λ q. (refl, r.blocks q)) (λ q. inr (r.no_blocks q))
  init_addressing-Started false s' s e k =
      init_block_size-Started false false s' s e k (λ q. absurd (ground arith)) (λ q. inl refl)

  init_acmd41-Started :
      (v2 : Bool) (s' s : Sd)
      → IsQuiet s' s
      → IsVersion card v2 s.wire
      → Started report greeting card s' (init_acmd41 report greeting card v2 s)
  unfolding init_acmd41 print
  init_acmd41-Started v2 s' s e k =
      elim (Bool-cases ((acmd41_loop card v2 20000 0x01 s).0 == 0x00)) [
        | inl z ↦
            rw (init_acmd41, z)
              (init_addressing-Started v2 s' _ (IsQuiet-trans e kept)
                (IsVersion-Later (acmd41_loop-Later card v2 20000 0x01 s) k))
        | inr z ↦
            rw (init_acmd41, z)
              (failed_report (acmd41_timeout (acmd41_loop card v2 20000 0x01 s).0)
                (IsQuiet-trans e kept))
      ]
    where
      kept : IsQuiet s (acmd41_loop card v2 20000 0x01 s).1
      kept = acmd41_loop-IsQuiet card v2 20000 0x01 s

  check_echo-Started :
      (s' s : Sd)
      → IsQuiet s' s
      → IsVersion card true s.wire
      → Started report greeting card s' (check_echo report greeting card s)
  unfolding check_echo read_response sd_deselect spi_xfer fail print
  check_echo-Started s' s e k = elim (Bool-cases bad) [
    | inl z ↦ rw (check_echo, z) (failed_report (cmd8_bad_echo echo pattern) e)
    | inr z ↦
        rw (check_echo, z)
          (init_acmd41-Started true s' _ e (
            IsVersion-Later
              (Later-cons 0xFF (
                Later-cons 0xFF
                  (Later-cons 0xFF (Later-cons 0xFF (Later-cons 0xFF (Later-refl s.wire))))))
              k))
  ]
    where
      echo : ℕ
      echo = card (0xFF ∷ 0xFF ∷ 0xFF ∷ s.wire) % 2 ^ 8

      pattern : ℕ
      pattern = card (0xFF ∷ 0xFF ∷ 0xFF ∷ 0xFF ∷ s.wire) % 2 ^ 8

      bad : Bool
      bad = not (bit_and echo 0x0F == 0x01) || not (pattern == 0xAA)

  init_cmd8-Started :
      (s' s : Sd)
      → IsQuiet s' s
      → Started report greeting card s' (init_cmd8 report greeting card s)
  unfolding init_cmd8 sd_deselect spi_xfer
  init_cmd8-Started s' s e = elim (Bool-cases (asked.0 == 0x01)) [
    | inl z ↦ rw (init_cmd8, z) (check_echo-Started s' asked.1 kept (told true z))
    | inr z ↦
        rw (init_cmd8, z)
          (init_acmd41-Started false s' _ kept
            (IsVersion-Later (Later-cons 0xFF (Later-refl asked.1.wire)) (told false z)))
  ]
    where
      asked : ℕ × Sd
      asked = sd_cmd card 8 0x000001AA 0x87 (sd_select card s).1

      kept : IsQuiet s' asked.1
      kept = IsQuiet-trans e (select_cmd-IsQuiet card 8 0x000001AA 0x87 s)

      told : (v2 : Bool) → (asked.0 == 0x01) ≡ v2 → IsVersion card v2 asked.1.wire
      told v2 e = record {
        from = (sd_select card s).1;
        answer = asked.0;
        asked = asked.1;
        wait = sd_cmd-IsWait card 8 0x000001AA 0x87 (sd_select card s).1;
        version = e;
        later = Later-refl asked.1.wire;
      }

  pub init-Started : (s : Sd) → Started report greeting card s (init report greeting card s)
  unfolding init print
  init-Started s = elim (Bool-cases ((command card 0 0 0x95 (clocks card 10 s).1).0 == 0x01)) [
    | inl z ↦ rw (init, z) (init_cmd8-Started s _ kept)
    | inr z ↦
        rw (init, z)
          (failed_report (cmd0_failed (command card 0 0 0x95 (clocks card 10 s).1).0) kept)
  ]
    where
      kept : IsQuiet s (command card 0 0 0x95 (clocks card 10 s).1).1
      kept =
          IsQuiet-trans (clocks-IsQuiet card 10 s)
            (command-IsQuiet card 0 0 0x95 (clocks card 10 s).1)
