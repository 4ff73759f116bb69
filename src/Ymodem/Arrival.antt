-- ===== src/Ymodem/Arrival.antt =====
-- How the data of a sender's blocks arrives in the memory of bootbin/ymodem.c's `ym_receive`.
use criscv_hw.Prelude.{
  ℕ, zero, suc, ◌+◌, ◌%◌, ◌^◌, ◌≤◌, ◌<◌, ◌≡◌, ◌⊎◌, refl, ap, ◌∙◌, inl, inr, Bool, true, false, ◌&&◌,
  Option, some, List, ◌∷◌, length, get_or, arith, ltb, ◌==◌, if◌then◌else◌, Bool-cases, Memory,
  store,
}
use criscv_hw.Ymodem.Session.{Args, Session, Line, continue, ack, ym_type_data, putc}
use criscv_hw.Ymodem.Block.{block_dest}
use criscv_hw.Ymodem.Receive.{on_block, on_data, place, accept, is_elf, file_type, copy_bytes, step}
use criscv_hw.Ymodem.Stores.{copy_bytes-kept}
use criscv_hw.Ymodem.Safety.{HasRoom}
use criscv_hw.Ymodem.Feeds.{Feeds}
use criscv_hw.Ymodem.Wire.{block_wire, IsBlock, stored}
use criscv_hw.Ymodem.Rounds.{IsOpen, Told, taken, step-wire, stored-at, block_dest-some}

-- The regions lie apart, have room for a block, and end well below 2 ^ 32.
pub record AreApart (a : Args) : Type 0 where
  pub room : HasRoom a
  pub prog_room : 1024 ≤ a.prog_max
  pub apart : (a.prog_base + a.prog_max ≤ a.data_base) ⊎ (a.data_base + a.data_max ≤ a.prog_base)

-- Whether a file begins as an ELF file does, and its type and region by that.
abbrev pub elf_file : List ℕ → Bool
elf_file f =
    get_or f 0 0 == 0x7F && get_or f 1 0 == b'E' && get_or f 2 0 == b'L' && get_or f 3 0 == b'F'

abbrev pub type_of : Args → List ℕ → ℕ
type_of a f = file_type a.force_type (elf_file f)

abbrev pub base_of : Args → ℕ → ℕ
base_of a type = if type == ym_type_data then a.data_base else a.prog_base

abbrev pub room_of : Args → ℕ → ℕ
room_of a type = if type == ym_type_data then a.data_max else a.prog_max

-- The bytes that have arrived so far, in `count` blocks.
pub record HasCome (a : Args) (type count : ℕ) (file : List ℕ) (s : Session) : Type 0 where
  pub dest_eq : s.dest ≡ base_of a type
  pub max_eq : s.max ≡ room_of a type
  pub type_eq : s.type ≡ type
  pub pos_eq : s.pos ≡ length file
  pub some_pos : 0 < s.pos
  pub expect_eq : s.expect ≡ (1 + count) % 2 ^ 8
  pub done_eq : s.done ≡ false
  pub content : (j : ℕ) → j < length file → s.mem (base_of a type + j) ≡ get_or file j 0

pub on_block-data :
    (a : Args) (n len : ℕ) (p : Option ℕ) (s : Session) (name : List ℕ) (size : ℕ)
    → Told name size s
    → s.done ≡ false
    → s.expect ≡ n
    → n < 256
    → (0 < n) ⊎ (0 < s.pos)
    → on_block a n len p s ≡ on_data a len p s
unfolding on_block
on_block-data a n len p s name size t e x h z = ground (arith, t.have_eq, t.want_eq)

copy_bytes-at :
    (left i to from : ℕ) (mem : Memory) (j : ℕ)
    → j < left
    → (from + i + left ≤ to + i) ⊎ (to + i + left ≤ from + i)
    → copy_bytes left i to from mem (to + i + j) ≡ mem (from + i + j)
unfolding copy_bytes store
copy_bytes-at zero i to from mem j h o = absurd (omega arith)
copy_bytes-at (suc left) i to from mem zero h o =
    copy_bytes-kept left (i + 1) to from (store mem (to + i) (mem (from + i))) (to + i + 0)
      (omega arith)
    ∙ ground arith
copy_bytes-at (suc left) i to from mem (suc j) h o =
    let e : to + i + suc j ≡ to + (i + 1) + j = omega arith in
    let f : from + (i + 1) + j ≡ from + i + suc j = omega arith in
    let copied =
      copy_bytes-at left (i + 1) to from (store mem (to + i) (mem (from + i))) j (omega arith)
        (omega arith) in
    rw (e, copied, f) (ground arith)

is_elf-elf_file :
    (mem : Memory) (p : ℕ) (d : List ℕ)
    → ((j : ℕ) → j < length d → mem (p + j) ≡ get_or d j 0)
    → 128 ≤ length d
    → is_elf mem p ≡ elf_file d
unfolding is_elf
is_elf-elf_file mem p d h k =
    let z : p ≡ p + 0 = omega arith in
    let first : mem p ≡ get_or d 0 0 = rw z (h 0 (omega arith)) in
    rw (first, h 1 (omega arith), h 2 (omega arith), h 3 (omega arith))

-- The memory that the first block leaves, where it is to go.
abbrev parked : Args → ℕ → List ℕ → Session → Memory
parked a type d s =
    if type == ym_type_data
    then copy_bytes (length d) 0 a.data_base a.prog_base (stored s d)
    else stored s d

parked-at :
    (a : Args) (s : Session) (d : List ℕ) (type j : ℕ)
    → AreApart a
    → IsBlock d
    → block_dest s (length d) ≡ some a.prog_base
    → j < length d
    → parked a type d s (base_of a type + j) ≡ get_or d j 0
parked-at a s d type j r b e h = elim (Bool-cases (type == ym_type_data)) [
  | inr k ↦ rw k (stored-at s d a.prog_base j e h)
  | inl k ↦
      let z : a.data_base + 0 + j ≡ a.data_base + j = omega arith in
      let y : a.prog_base + 0 + j ≡ a.prog_base + j = omega arith in
      let copied : copy_bytes (length d) 0 a.data_base a.prog_base (stored s d) (a.data_base + j)
          ≡ stored s d (a.prog_base + j) =
        rw (z, y) at
          (copy_bytes-at (length d) 0 a.data_base a.prog_base (stored s d) j h
            (ground (arith, r.apart, b.len, r.prog_room, r.room.data_room))) in
      rw k (copied ∙ stored-at s d a.prog_base j e h)
]

-- The session once the first block is in its place.
abbrev placed : Args → List ℕ → Session → Line → Session
placed a d s rest = record (taken s d rest) {
  mem = parked a (type_of a d) d s;
  dest = base_of a (type_of a d);
  max = room_of a (type_of a d);
  type = type_of a d;
  pos = length d;
  expect = 2;
  sent = ack ∷ s.sent;
}

-- The choice of the region.
abbrev chosen : Args → List ℕ → Session → Line → Session
chosen a d s rest = record (taken s d rest) {
  mem = parked a (type_of a d) d s;
  dest = base_of a (type_of a d);
  max = room_of a (type_of a d);
  type = type_of a d;
}

place-chosen :
    (a : Args) (s : Session) (d : List ℕ) (rest : Line)
    → IsOpen a s
    → is_elf (stored s d) a.prog_base ≡ elf_file d
    → place a a.prog_base (length d) (taken s d rest) ≡ chosen a d s rest
unfolding place
place-chosen a s d rest o e = elim (Bool-cases (type_of a d == ym_type_data)) [
  | inl f ↦ rw (e, f)
  | inr f ↦
      rw (e, f)
        (λ i. record (taken s d rest) { type = type_of a d; dest = o.dest_eq i; max = o.max_eq i })
]

accept-placed :
    (a : Args) (s : Session) (d : List ℕ) (rest : Line)
    → IsOpen a s
    → length d < 2 ^ 32
    → accept (length d) (chosen a d s rest) ≡ continue (placed a d s rest)
unfolding accept putc
accept-placed a s d rest o h =
    let p : (s.pos + length d) % 2 ^ 32 ≡ length d = omega (arith, o.pos_eq) in
    let q : (s.expect + 1) % 2 ^ 8 ≡ 2 = omega (arith, o.expect_eq) in
    λ i. continue (record (chosen a d s rest) { pos = p i; expect = q i; sent = ack ∷ s.sent })

on_data-first :
    (a : Args) (s : Session) (d : List ℕ) (rest : Line)
    → IsOpen a s
    → is_elf (stored s d) a.prog_base ≡ elf_file d
    → length d < 2 ^ 32
    → s.size ≤ room_of a (type_of a d)
    → on_data a (length d) (some a.prog_base) (taken s d rest) ≡ continue (placed a d s rest)
unfolding on_data
on_data-first a s d rest o e h k =
    let first : (s.pos == 0) ≡ true = ground (arith, o.pos_eq) in
    let fits : ltb (room_of a (type_of a d)) s.size ≡ false = ground arith in
    rw (first, place-chosen a s d rest o e, fits) (accept-placed a s d rest o h)

-- The first block of a file goes where its type calls for.
pub step-first :
    (a : Args) (s : Session) (d : List ℕ) (rest : Line) (name : List ℕ) (size : ℕ)
    → AreApart a
    → IsOpen a s
    → Told name size s
    → IsBlock d
    → size ≤ room_of a (type_of a d)
    → Feeds (block_wire 1 d) s.line rest
    → (t : Session) × (step a s ≡ continue t)
      × HasCome a (type_of a d) 1 d t
      × Told name size t
      × (t.line ≡ rest)
step-first a s d rest name size r o t b k f = (
  placed a d s rest,
  step-wire a s 1 d rest b (omega arith) f
      ∙ (on_block-data a 1 (length d) (block_dest s (length d)) (taken s d rest) name size
            (record {
              have_eq = t.have_eq;
              want_eq = t.want_eq;
              name_eq = t.name_eq;
              size_eq = t.size_eq;
            })
            o.done_eq o.expect_eq (omega arith) (inl (omega arith))
          ∙ (ap (λ q. on_data a (length d) q (taken s d rest)) fits
              ∙ on_data-first a s d rest o
                  (is_elf-elf_file (stored s d) a.prog_base d
                    (λ j h. stored-at s d a.prog_base j fits h) (omega (arith, b.len)))
                  (omega (arith, b.len)) (omega (arith, t.size_eq)))),
  record {
    dest_eq = refl;
    max_eq = refl;
    type_eq = refl;
    pos_eq = refl;
    some_pos = omega (arith, b.len);
    expect_eq = refl;
    done_eq = o.done_eq;
    content = λ j h. parked-at a s d (type_of a d) j r b fits h;
  },
  record { have_eq = t.have_eq; want_eq = t.want_eq; name_eq = t.name_eq; size_eq = t.size_eq },
  refl,
)
  where
    fits : block_dest s (length d) ≡ some a.prog_base
    fits =
        block_dest-some s (length d) (omega (arith, b.len, o.max_eq, o.pos_eq, r.prog_room))
          (omega (arith, o.max_eq, r.room.prog_word))
        ∙ ap some (omega (arith, o.dest_eq, o.pos_eq))
