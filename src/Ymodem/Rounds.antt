-- ===== src/Ymodem/Rounds.antt =====
-- The rounds of bootbin/ymodem.c's `ym_receive` on what a sender puts on the line.
use criscv_hw.Prelude.{
  ℕ, zero, suc, ◌+◌, ◌^◌, ◌≤◌, ◌<◌, ◌≡◌, ◌⊎◌, refl, sym, ap, ◌∙◌, true, false, Option, some, List,
  [], ◌∷◌, ◌++◌, length, length-append, get_or, arith, ◌==◌, Memory, Outside,
}
use criscv_hw.Ymodem.Session.{Args, Session, Line, continue, soh, stx, ack, putc}
use criscv_hw.Ymodem.Crc.{crc_bytes}
use criscv_hw.Ymodem.Block.{Body, block_len, block_dest, block_blk, take_block, is_good}
use criscv_hw.Ymodem.Header.{on_header}
use criscv_hw.Ymodem.Receive.{on_byte, receive_block, on_block, after_byte, step, step-byte}
use criscv_hw.Ymodem.Feeds.{Feeds}
use criscv_hw.Ymodem.Wire.{
  opener, block_wire, crc_hi, crc_lo, IsBlock, put_bytes-kept, put_bytes-at, stored,
  opener-block_len, take_block-wire, crc_bytes-wire,
}
use criscv_hw.Ymodem.Label.{
  Holds, Holds-of_get_or, label, IsLabel, decimal, header_name-label, header_size-label,
}

pub get_or-append_left :
    (xs ys : List ℕ) (j : ℕ) → j < length xs → get_or (xs ++ ys) j 0 ≡ get_or xs j 0
get_or-append_left [] ys j h = absurd (omega arith)
get_or-append_left (x ∷ xs) ys zero h = refl
get_or-append_left (x ∷ xs) ys (suc j) h = get_or-append_left xs ys j (omega arith)

pub get_or-append_right :
    (xs ys : List ℕ) (j : ℕ) → get_or (xs ++ ys) (length xs + j) 0 ≡ get_or ys j 0
get_or-append_right [] ys j = let e : 0 + j ≡ j = omega arith in rw e
get_or-append_right (x ∷ xs) ys j =
    let e : suc (length xs) + j ≡ suc (length xs + j) = omega arith in
    rw e (get_or-append_right xs ys j)

-- A block that fits has its data behind what came before.
pub block_dest-some :
    (s : Session) (len : ℕ)
    → s.pos + len ≤ s.max
    → s.max < 2 ^ 32
    → block_dest s len ≡ some (s.dest + s.pos)
unfolding block_dest
block_dest-some s len h k = ground arith

pub stored-at :
    (s : Session) (d : List ℕ) (p j : ℕ)
    → block_dest s (length d) ≡ some p
    → j < length d
    → stored s d (p + j) ≡ get_or d j 0
stored-at s d p j e h =
    let z : 0 + j ≡ j = omega arith in
    let l = length-append d (crc_hi d ∷ crc_lo d ∷ []) in
    rw (e, sym z)
      (put_bytes-at p (length d) 0 (d ++ crc_hi d ∷ crc_lo d ∷ []) s.mem j (omega arith)
          (omega arith)
        ∙ (get_or-append_left d (crc_hi d ∷ crc_lo d ∷ []) j h ∙ rw z))

pub stored-kept :
    (s : Session) (d : List ℕ) (p x : ℕ)
    → block_dest s (length d) ≡ some p
    → Outside p (length d) x
    → stored s d x ≡ s.mem x
stored-kept s d p x e h =
    rw e (put_bytes-kept p (length d) 0 (d ++ crc_hi d ∷ crc_lo d ∷ []) s.mem x (omega arith))

-- The session once a block is taken.
abbrev pub taken : Session → List ℕ → Line → Session
taken s d rest = record s { line = rest; mem = stored s d; errors = 0 }

on_byte-block :
    (a : Args) (c : ℕ) (s : Session) → (c ≡ soh) ⊎ (c ≡ stx) → on_byte a c s ≡ receive_block a c s
unfolding on_byte
on_byte-block a c s h = ground arith

opener_cases : (d : List ℕ) → (opener d ≡ soh) ⊎ (opener d ≡ stx)
opener_cases d = ground arith

is_good-wire :
    (d : List ℕ) (rest : Line) (mem : Memory)
    → IsBlock d
    → is_good (record {
      ok = true;
      crc = crc_bytes 0 (d ++ crc_hi d ∷ crc_lo d ∷ []);
      line = rest;
      mem = mem;
    })
      ≡ true
unfolding is_good
is_good-wire d rest mem b = rw (crc_bytes-wire d b)

receive_block-good :
    (a : Args) (c n len : ℕ) (s : Session) (b : Body)
    → take_block c s ≡ b
    → is_good b ≡ true
    → block_blk s ≡ some n
    → block_len c ≡ len
    → receive_block a c s
      ≡ on_block a n len (block_dest s len) (record s { line = b.line; mem = b.mem; errors = 0 })
unfolding receive_block
receive_block-good a c n len s b e g k l = rw (e, g, k, l)

-- A round on a block of the sender.
pub step-wire :
    (a : Args) (s : Session) (n : ℕ) (d : List ℕ) (rest : Line)
    → IsBlock d
    → n < 256
    → Feeds (block_wire n d) s.line rest
    → step a s ≡ on_block a n (length d) (block_dest s (length d)) (taken s d rest)
unfolding block_dest
step-wire a s n d rest b h f =
    step-byte a (opener d) s f.0
    ∙ (on_byte-block a (opener d) (after_byte s) (opener_cases d)
        ∙ receive_block-good a (opener d) n (length d) (after_byte s) _
            (take_block-wire (after_byte s) n d rest b h f.1)
            (is_good-wire d rest (stored (after_byte s) d) b) f.1.0 (opener-block_len d b))

-- The session before block 0, and the one behind it.
pub record IsOpen (a : Args) (s : Session) : Type 0 where
  pub dest_eq : s.dest ≡ a.prog_base
  pub max_eq : s.max ≡ a.prog_max
  pub pos_eq : s.pos ≡ 0
  pub expect_eq : s.expect ≡ 1
  pub done_eq : s.done ≡ false

-- What block 0 has announced.
pub record Told (name : List ℕ) (size : ℕ) (s : Session) : Type 0 where
  pub have_eq : s.have_hdr ≡ true
  pub want_eq : s.want_hdr ≡ false
  pub name_eq : s.name ≡ name
  pub size_eq : s.size ≡ size

pub on_block-header :
    (a : Args) (len : ℕ) (p : Option ℕ) (s : Session)
    → s.want_hdr ≡ true
    → on_block a 0 len p s ≡ on_header len p s
unfolding on_block
on_block-header a len p s e = ground arith

on_header-told :
    (len p : ℕ) (s : Session) (name digits tail : List ℕ)
    → s.done ≡ false
    → IsLabel name digits tail
    → length (label name digits tail) ≤ len
    → Holds s.mem p (label name digits tail)
    → on_header len (some p) s
      ≡ continue (record s {
        sent = b'C' ∷ ack ∷ s.sent;
        name = name;
        size = decimal 0 digits;
        have_hdr = true;
        want_hdr = false;
      })
unfolding on_header putc
on_header-told len p s [] digits tail e l k h = absurd (omega (arith, l.name_some))
on_header-told len p s (c ∷ cs) digits tail e l k h =
    let f : (s.mem p == 0) ≡ false = ground (arith, h.0, l.name_plain.0) in
    rw (
      e,
      f,
      header_name-label s.mem p (c ∷ cs) digits tail l h,
      header_size-label len s.mem p (c ∷ cs) digits tail l k h,
    )

-- Block 0 of a sender is read as it was written.
pub step-label :
    (a : Args) (s : Session) (name digits tail : List ℕ) (rest : Line)
    → IsOpen a s
    → s.want_hdr ≡ true
    → IsLabel name digits tail
    → IsBlock (label name digits tail)
    → 1024 ≤ a.prog_max
    → a.prog_max < 2 ^ 32
    → Feeds (block_wire 0 (label name digits tail)) s.line rest
    → (t : Session) × (step a s ≡ continue t)
      × IsOpen a t
      × Told name (decimal 0 digits) t
      × (t.line ≡ rest)
step-label a s name digits tail rest o w l b room word f = (
  _,
  step-wire a s 0 d rest b (omega arith) f
      ∙ (on_block-header a (length d) (block_dest s (length d)) (taken s d rest) w
          ∙ (ap (λ q. on_header (length d) q (taken s d rest)) fits
              ∙ on_header-told (length d) p (taken s d rest) name digits tail o.done_eq l
                  (omega arith)
                  (Holds-of_get_or (stored s d) p d (λ j h. stored-at s d p j fits h)))),
  record {
    dest_eq = o.dest_eq;
    max_eq = o.max_eq;
    pos_eq = o.pos_eq;
    expect_eq = o.expect_eq;
    done_eq = o.done_eq;
  },
  record { have_eq = refl; want_eq = refl; name_eq = refl; size_eq = refl },
  refl,
)
  where
    d : List ℕ
    d = label name digits tail

    p : ℕ
    p = s.dest + s.pos

    fits : block_dest s (length d) ≡ some p
    fits =
        block_dest-some s (length d) (ground (arith, b.len, o.max_eq, o.pos_eq))
          (omega (arith, o.max_eq))
