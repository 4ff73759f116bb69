-- ===== src/Ymodem/Ending.antt =====
-- The last rounds of bootbin/ymodem.c's `ym_receive`: the end of the file and the empty block 0.
use criscv_hw.Prelude.{
  ℕ, ◌+◌, ◌^◌, ◌≤◌, ◌<◌, ◌≡◌, ap, ◌∙◌, true, false, ◌&&◌, not, some, List, [], ◌∷◌, length, get_or,
  arith, ltb, ◌==◌, if◌then◌else◌,
}
use criscv_hw.Ymodem.Session.{
  Args, Session, Line, continue, return, ym_ok, eot, ack, nak, received, remaining,
  ym_timeout_loops, putc,
}
use criscv_hw.Ymodem.Block.{block_dest}
use criscv_hw.Ymodem.Header.{on_header}
use criscv_hw.Ymodem.Receive.{on_byte, on_eot, after_byte, step, step-byte}
use criscv_hw.Ymodem.Feeds.{Feeds}
use criscv_hw.Ymodem.Wire.{block_wire, IsBlock, stored}
use criscv_hw.Ymodem.Rounds.{Told, taken, step-wire, on_block-header, block_dest-some, stored-at}

-- The length that the end of the file reports.
abbrev pub told_length : Session → ℕ
told_length s = if not (s.size == 0) && ltb s.size s.pos then s.size else s.pos

-- The session behind the end of the file.
abbrev pub closed : Session → Line → Session
closed s rest = record s {
  line = rest;
  sent = b'C' ∷ ack ∷ nak ∷ s.sent;
  done = true;
  want_hdr = true;
  length = told_length s;
}

on_byte-eot :
    (a : Args) (s : Session) → s.have_hdr ≡ true → s.done ≡ false → on_byte a eot s ≡ on_eot s
unfolding on_byte
on_byte-eot a s e f = ground arith

on_eot-closed :
    (s : Session)
    → received ym_timeout_loops s.line ≡ some eot
    → on_eot s ≡ continue (closed s (remaining ym_timeout_loops s.line))
unfolding on_eot putc
on_eot-closed s e = rw (on_eot, e)

-- The end of the file, which is sent twice.
pub step-eot :
    (a : Args) (s : Session) (rest : Line) (name : List ℕ) (size : ℕ)
    → Told name size s
    → s.done ≡ false
    → Feeds (eot ∷ eot ∷ []) s.line rest
    → step a s ≡ continue (closed s rest)
step-eot a s rest name size t e f =
    step-byte a eot s f.0
    ∙ (on_byte-eot a (after_byte s) t.have_eq e
        ∙ (on_eot-closed (after_byte s) f.1.0 ∙ ap (λ l. continue (closed s l)) f.1.1))

on_header-closing :
    (len p : ℕ) (s : Session)
    → s.done ≡ true
    → s.mem p ≡ 0
    → on_header len (some p) s ≡ return ym_ok (record s { sent = ack ∷ s.sent })
unfolding on_header putc
on_header-closing len p s e z = rw (e, z)

-- The empty block 0 ends the session.
pub step-closing :
    (a : Args) (s : Session) (d : List ℕ) (rest : Line)
    → s.done ≡ true
    → s.want_hdr ≡ true
    → IsBlock d
    → get_or d 0 0 ≡ 0
    → s.pos + length d ≤ s.max
    → s.max < 2 ^ 32
    → Feeds (block_wire 0 d) s.line rest
    → step a s ≡ return ym_ok (record (taken s d rest) { sent = ack ∷ s.sent })
step-closing a s d rest e w b z room word f =
    let p : ℕ = s.dest + s.pos in
    let fits : block_dest s (length d) ≡ some p = block_dest-some s (length d) room word in
    let y : p + 0 ≡ p = omega arith in
    let first : stored s d p ≡ 0 = rw y at (stored-at s d p 0 fits (omega (arith, b.len))) ∙ z in
    step-wire a s 0 d rest b (omega arith) f
    ∙ (on_block-header a (length d) (block_dest s (length d)) (taken s d rest) w
        ∙ (ap (λ q. on_header (length d) q (taken s d rest)) fits
            ∙ on_header-closing (length d) p (taken s d rest) e first))
