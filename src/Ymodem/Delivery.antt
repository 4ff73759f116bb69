-- ===== src/Ymodem/Delivery.antt =====
-- A file that a sender puts on the line arrives: `ym_receive` of bootbin/ymodem.c from end to end.
use criscv_hw.Prelude.{
  ℕ, ◌+◌, ◌^◌, ◌≤◌, ◌<◌, ◌≡◌, refl, sym, ap, ◌∙◌, inl, true, some, List, [], ◌∷◌, ◌++◌, length,
  length-append, get_or, arith, All, Memory,
}
use mathlib.Core.Path.{subst}
use criscv_hw.Ymodem.Session.{Args, Session, Line, Code, ym_ok, eot, ack, putc}
use criscv_hw.Ymodem.Block.{block_dest}
use criscv_hw.Ymodem.Receive.{rounds, start, ym_receive}
use criscv_hw.Ymodem.Feeds.{Feeds, Feeds-append, spaced, InTime, bytes_in, spaced-Feeds}
use criscv_hw.Ymodem.Wire.{block_wire, IsBlock}
use criscv_hw.Ymodem.Label.{label, IsLabel, decimal}
use criscv_hw.Ymodem.Rounds.{
  IsOpen, Told, taken, step-label, block_dest-some, stored-kept, get_or-append_left,
}
use criscv_hw.Ymodem.Ending.{told_length, closed, step-eot, step-closing}
use criscv_hw.Ymodem.Arrival.{AreApart, type_of, base_of, room_of, HasCome, step-first}
use criscv_hw.Ymodem.Reaches.{
  concat, data_wire, Finishes, Reaches-step, Finishes-return, reach-data,
}

-- All that a sender of one file puts on the line: the label, the data, the end sent twice, and the
-- empty label that ends the session.
abbrev pub session_wire : List ℕ → List ℕ → List (List ℕ) → List ℕ → List ℕ
session_wire header first more closing =
    block_wire 0 header
    ++ (block_wire 1 first ++ (data_wire 1 more ++ (eot ∷ eot ∷ block_wire 0 closing)))

-- A file as it is found in the end: its name, its length, its type and region, and its bytes.
pub record IsDelivered (a : Args) (name file : List ℕ) (type : ℕ) (rest : Line) (t : Session)
    : Type 0 where
  pub name_eq : t.name ≡ name
  pub length_eq : t.length ≡ length file
  pub type_eq : t.type ≡ type
  pub dest_eq : t.dest ≡ base_of a type
  pub bytes : (j : ℕ) → j < length file → t.mem (base_of a type + j) ≡ get_or file j 0
  pub line_eq : t.line ≡ rest

-- What a sender sends: a label with the name and the length of the file, which is not empty; blocks
-- that hold the file, the last of them padded; and an empty label.
pub record IsSession (name digits tail first : List ℕ) (more : List (List ℕ))
    (closing file pad : List ℕ) : Type 0 where
  pub labelled : IsLabel name digits tail
  pub label_block : IsBlock (label name digits tail)
  pub first_block : IsBlock first
  pub more_blocks : All IsBlock more
  pub closing_block : IsBlock closing
  pub closing_empty : get_or closing 0 0 ≡ 0
  pub holds : first ++ concat more ≡ file ++ pad
  pub some_file : 0 < length file
  pub size : decimal 0 digits ≡ length file

told_length-file :
    (a : Args) (type n : ℕ) (s : Session) (name file pad : List ℕ)
    → HasCome a type n (file ++ pad) s
    → Told name (length file) s
    → 0 < length file
    → told_length s ≡ length file
told_length-file a type n s name file pad c t h =
    let l = length-append file pad in ground (arith, c.pos_eq, t.size_eq)

-- The end of a session, once all the blocks have come.
ending :
    (a : Args) (type n : ℕ) (s : Session) (name file pad closing : List ℕ) (rest : Line)
    → room_of a type < 2 ^ 32
    → HasCome a type n (file ++ pad) s
    → Told name (length file) s
    → 0 < length file
    → IsBlock closing
    → get_or closing 0 0 ≡ 0
    → length (file ++ pad) + length closing ≤ room_of a type
    → Feeds (eot ∷ eot ∷ block_wire 0 closing) s.line rest
    → (t : Session) × Finishes a s ym_ok t × IsDelivered a name file type rest t
ending a type n s name file pad closing rest word c t h b z room f =
    let (middle, front, back) =
      Feeds-append (eot ∷ eot ∷ []) (block_wire 0 closing) s.line rest f in
    let u : Session = closed s middle in
    let fits : u.pos + length closing ≤ u.max = omega (arith, c.pos_eq, c.max_eq) in
    let last : Session = record (taken u closing rest) { sent = ack ∷ u.sent } in
    let at : block_dest u (length closing) ≡ some (s.dest + s.pos) =
      block_dest-some u (length closing) fits (omega (arith, c.max_eq)) in
    let l = length-append file pad in
    (
      last,
      Reaches-step a s u (step-eot a s middle name (length file) t c.done_eq front) ym_ok last (
          Finishes-return a u ym_ok last
            (step-closing a u closing rest refl refl b z fits (omega (arith, c.max_eq)) back)),
      record {
        name_eq = t.name_eq;
        length_eq = told_length-file a type n s name file pad c t h;
        type_eq = c.type_eq;
        dest_eq = c.dest_eq;
        bytes = λ j k.
            stored-kept u closing (s.dest + s.pos) (base_of a type + j) at
              (inl (omega (arith, c.dest_eq, c.pos_eq)))
            ∙ (c.content j (omega arith) ∙ get_or-append_left file pad j k);
        line_eq = refl;
      },
    )

start-IsOpen : (a : Args) (line : Line) (mem : Memory) → IsOpen a (start a line mem)
unfolding start putc
start-IsOpen a line mem = record {
  dest_eq = refl;
  max_eq = refl;
  pos_eq = refl;
  expect_eq = refl;
  done_eq = refl;
}

start-want : (a : Args) (line : Line) (mem : Memory) → (start a line mem).want_hdr ≡ true
unfolding start putc
start-want a line mem = refl

start-line : (a : Args) (line : Line) (mem : Memory) → (start a line mem).line ≡ line
unfolding start putc
start-line a line mem = refl

ym_receive-run :
    (a : Args) (line : Line) (mem : Memory) (code : Code) (t : Session)
    → Finishes a (start a line mem) code t
    → ym_receive a line mem ≡ some (code, t)
unfolding ym_receive rounds start putc
ym_receive-run a line mem code t f = f (rounds line) (omega arith)

room_of-lt : (a : Args) (type : ℕ) → AreApart a → room_of a type < 2 ^ 32
room_of-lt a type r = ground (arith, r.room.prog_word, r.room.data_word)

-- The session from its label on.
deliver :
    (a : Args) (name digits tail first : List ℕ) (more : List (List ℕ)) (closing file pad : List ℕ)
    (s : Session) (rest : Line)
    → AreApart a
    → IsSession name digits tail first more closing file pad
    → length (file ++ pad) + length closing ≤ room_of a (type_of a first)
    → IsOpen a s
    → s.want_hdr ≡ true
    → Feeds (session_wire (label name digits tail) first more closing) s.line rest
    → (t : Session) × Finishes a s ym_ok t × IsDelivered a name file (type_of a first) rest t
deliver a name digits tail first more closing file pad s rest r x room o w f =
    let word = room_of-lt a (type_of a first) r in
    let l = length-append file pad in
    let l' = length-append first (concat more) in
    let all = ap length x.holds in
    let (m1, f1, b1) = Feeds-append (block_wire 0 (label name digits tail)) _ s.line rest f in
    let (s1, e1, o1, t1, q1) =
      step-label a s name digits tail m1 o w x.labelled x.label_block r.prog_room
        (omega (arith, r.room.prog_word)) f1 in
    let (m2, f2, b2) = Feeds-append (block_wire 1 first) _ m1 rest b1 in
    let (s2, e2, c2, t2, q2) =
      step-first a s1 first m2 name (decimal 0 digits) r o1 t1 x.first_block (omega (arith, x.size))
        (subst (λ y. Feeds (block_wire 1 first) y m2) (sym q1) f2) in
    let (m3, f3, b3) =
      Feeds-append (data_wire 1 more) (eot ∷ eot ∷ block_wire 0 closing) m2 rest b2 in
    let (n, s3, reach, c3, t3, q3) =
      reach-data a (type_of a first) 1 first s2 more m3 name (decimal 0 digits) word c2 t2
        x.more_blocks (omega arith) (subst (λ y. Feeds (data_wire 1 more) y m3) (sym q2) f3) in
    let (t, fin, d) =
      ending a (type_of a first) n s3 name file pad closing rest word
        (subst (λ g. HasCome a (type_of a first) n g s3) x.holds c3)
        (subst (λ k. Told name k s3) x.size t3) x.some_file x.closing_block x.closing_empty room
        (subst (λ y. Feeds (eot ∷ eot ∷ block_wire 0 closing) y rest) (sym q3) b3) in
    (t, Reaches-step a s s1 e1 ym_ok t (Reaches-step a s1 s2 e2 ym_ok t (reach ym_ok t fin)), d)

-- A sender's session is received with YM_OK, whatever the memory held and however the bytes are
-- spaced, as long as no gap is a timeout: the name, the length and the type are the sender's, and
-- the bytes of the file stand in the region of its type, behind one another. The regions lie apart,
-- have room for a block each, and the file's region has room for the padded file and the empty label
-- behind it; the type is forced, or goes by whether the first block begins as an ELF file.
pub ym_receive-IsDelivered :
    (a : Args) (name digits tail first : List ℕ) (more : List (List ℕ)) (closing file pad : List ℕ)
    (bytes : List (ℕ × ℕ)) (rest : Line) (mem : Memory)
    → AreApart a
    → IsSession name digits tail first more closing file pad
    → length (file ++ pad) + length closing ≤ room_of a (type_of a first)
    → All InTime bytes
    → bytes_in bytes ≡ session_wire (label name digits tail) first more closing
    → (t : Session) × (ym_receive a (spaced bytes rest) mem ≡ some (ym_ok, t))
      × IsDelivered a name file (type_of a first) rest t
ym_receive-IsDelivered a name digits tail first more closing file pad bytes rest mem r x room timely
      same =
    let line : Line = spaced bytes rest in
    let feeds : Feeds (session_wire (label name digits tail) first more closing) line rest =
      subst (λ bs. Feeds bs line rest) same (spaced-Feeds bytes rest timely) in
    let (t, fin, d) =
      deliver a name digits tail first more closing file pad (start a line mem) rest r x room
        (start-IsOpen a line mem) (start-want a line mem)
        (subst (λ y. Feeds (session_wire (label name digits tail) first more closing) y rest)
          (sym (start-line a line mem)) feeds) in
    (t, ym_receive-run a line mem ym_ok t fin, d)
