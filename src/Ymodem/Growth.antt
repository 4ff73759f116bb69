-- ===== src/Ymodem/Growth.antt =====
-- How the further blocks of a sender go behind the first in bootbin/ymodem.c's `ym_receive`.
use criscv_hw.Prelude.{
  ℕ, ◌+◌, ◌-◌, ◌%◌, ◌^◌, ◌≤◌, ◌<◌, ◌≡◌, ◌⊎◌, refl, sym, ap, ◌∙◌, inl, inr, false, some, List, ◌∷◌,
  ◌++◌, length, length-append, get_or, arith, ◌==◌,
}
use criscv_hw.Ymodem.Session.{Args, Session, Line, continue, ack, putc}
use criscv_hw.Ymodem.Block.{block_dest}
use criscv_hw.Ymodem.Receive.{on_data, accept, step}
use criscv_hw.Ymodem.Feeds.{Feeds}
use criscv_hw.Ymodem.Wire.{block_wire, IsBlock, stored}
use criscv_hw.Ymodem.Rounds.{
  Told, taken, step-wire, stored-at, stored-kept, block_dest-some, get_or-append_left,
  get_or-append_right,
}
use criscv_hw.Ymodem.Arrival.{base_of, room_of, HasCome, on_block-data}

-- The session once a further block is taken.
abbrev grown : List ℕ → Session → Line → Session
grown d s rest = record (taken s d rest) {
  pos = (s.pos + length d) % 2 ^ 32;
  expect = (s.expect + 1) % 2 ^ 8;
  sent = ack ∷ s.sent;
}

on_data-more :
    (a : Args) (s : Session) (d : List ℕ) (rest : Line) (p : ℕ)
    → 0 < s.pos
    → on_data a (length d) (some p) (taken s d rest) ≡ continue (grown d s rest)
unfolding on_data accept putc
on_data-more a s d rest p h = let more : (s.pos == 0) ≡ false = ground arith in rw more

grown-content :
    (a : Args) (type count : ℕ) (file : List ℕ) (s : Session) (d : List ℕ)
    → HasCome a type count file s
    → block_dest s (length d) ≡ some (base_of a type + length file)
    → (j : ℕ) → j < length (file ++ d)
    → stored s d (base_of a type + j) ≡ get_or (file ++ d) j 0
grown-content a type count file s d c fits j h = elim (lt_or_ge j (length file)) [
  | inl lt ↦
      stored-kept s d (base_of a type + length file) (base_of a type + j) fits (inl (omega arith))
      ∙ (c.content j lt ∙ sym (get_or-append_left file d j lt))
  | inr ge ↦
      let l = length-append file d in
      let k : ℕ = j - length file in
      let e : j ≡ length file + k = omega arith in
      let q : base_of a type + (length file + k) ≡ base_of a type + length file + k = omega arith in
      rw (e, q)
        (stored-at s d (base_of a type + length file) k fits (omega arith)
          ∙ sym (get_or-append_right file d k))
]
  where
    lt_or_ge : (m n : ℕ) → (m < n) ⊎ (n ≤ m)
    lt_or_ge m n = ground arith

-- A further block goes behind what has come.
pub step-more :
    (a : Args) (type count : ℕ) (file : List ℕ) (s : Session) (d : List ℕ) (rest : Line)
    (name : List ℕ) (size : ℕ)
    → room_of a type < 2 ^ 32
    → HasCome a type count file s
    → Told name size s
    → IsBlock d
    → length file + length d ≤ room_of a type
    → Feeds (block_wire ((1 + count) % 2 ^ 8) d) s.line rest
    → (t : Session) × (step a s ≡ continue t)
      × HasCome a type (1 + count) (file ++ d) t
      × Told name size t
      × (t.line ≡ rest)
step-more a type count file s d rest name size word c t b room f = (
  grown d s rest,
  step-wire a s ((1 + count) % 2 ^ 8) d rest b (omega arith) f
      ∙ (on_block-data a ((1 + count) % 2 ^ 8) (length d) (block_dest s (length d)) (taken s d rest)
            name size
            (record {
              have_eq = t.have_eq;
              want_eq = t.want_eq;
              name_eq = t.name_eq;
              size_eq = t.size_eq;
            })
            c.done_eq c.expect_eq (omega arith) (inr c.some_pos)
          ∙ (ap (λ q. on_data a (length d) q (taken s d rest)) fits
              ∙ on_data-more a s d rest _ c.some_pos)),
  record {
    dest_eq = c.dest_eq;
    max_eq = c.max_eq;
    type_eq = c.type_eq;
    pos_eq = omega (arith, c.pos_eq, length-append file d);
    some_pos = omega (arith, c.pos_eq, c.some_pos);
    expect_eq = omega (arith, c.expect_eq);
    done_eq = c.done_eq;
    content = grown-content a type count file s d c fits;
  },
  record { have_eq = t.have_eq; want_eq = t.want_eq; name_eq = t.name_eq; size_eq = t.size_eq },
  refl,
)
  where
    fits : block_dest s (length d) ≡ some (base_of a type + length file)
    fits =
        block_dest-some s (length d) (omega (arith, c.pos_eq, c.max_eq)) (omega (arith, c.max_eq))
        ∙ ap some (omega (arith, c.dest_eq, c.pos_eq))
