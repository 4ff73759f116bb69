-- ===== src/Ymodem/Header.antt =====
-- bootbin/ymodem.c: block 0 in `ym_receive`, "name\0size mtime mode ...\0".
use criscv_hw.Prelude.{
  ℕ, zero, suc, ◌+◌, ◌-◌, ◌*◌, ◌%◌, ◌^◌, Bool, true, false, ◌&&◌, ◌||◌, not, Option, none, some,
  List, [], ◌∷◌, leb, ◌==◌, if◌then◌else◌, length, Memory,
}
use criscv_hw.Ymodem.Session.{
  Session, Round, continue, return, ym_ok, ym_err_proto, ack, putc, cancel, give_up,
}

-- `for(i = 0; p[i] && i < 19; i++) out->name[i] = p[i];` from index `i`: the bytes stored.
unfoldable pub copy_name : ℕ → ℕ → Memory → ℕ → List ℕ
copy_name zero i mem p = []
copy_name (suc left) i mem p =
    let rest = copy_name left (i + 1) mem p in if mem (p + i) == 0 then [] else mem (p + i) ∷ rest

-- `while(i < len && p[i]) i++;` with `left` = len - i: the index where it stops.
unfoldable pub skip_name : ℕ → ℕ → Memory → ℕ → ℕ
skip_name zero i mem p = i
skip_name (suc left) i mem p =
    let rest = skip_name left (i + 1) mem p in if mem (p + i) == 0 then i else rest

unfoldable pub is_digit : ℕ → Bool
is_digit c = leb b'0' c && leb c b'9'

-- size = (size << 3) + (size << 1) + (unsigned int)(p[i] - '0')
unfoldable pub add_digit : ℕ → ℕ → ℕ
add_digit size c = (size * 2 ^ 3 + size * 2 ^ 1 + (c - b'0')) % 2 ^ 32

-- The loop over the digits, with `left` = len - i.
unfoldable pub read_size : ℕ → ℕ → ℕ → Memory → ℕ → ℕ
read_size zero i size mem p = size
read_size (suc left) i size mem p =
    let rest = read_size left (i + 1) (add_digit size (mem (p + i))) mem p in
    if is_digit (mem (p + i)) then rest else size

-- The name, and the size behind the byte that ends it.
unfoldable pub header_name : Memory → ℕ → List ℕ
header_name mem p = copy_name 19 0 mem p

unfoldable pub header_size : ℕ → Memory → ℕ → ℕ
header_size len mem p =
    let i = length (header_name mem p) in
    let end = skip_name (len - i) i mem p in read_size (len - (end + 1)) (end + 1) 0 mem p

-- `blk == 0 && want_hdr`
unfoldable pub on_header : ℕ → Option ℕ → Session → Round
on_header len none s = give_up ym_err_proto s
on_header len (some p) s =
    let s = putc ack s in
    if s.done || s.mem p == 0
    then (if not s.done
        then return ym_err_proto s
        else return ym_ok (if s.mem p == 0 then s else cancel s))
    else continue (
        putc b'C' (record s {
          name = header_name s.mem p;
          size = header_size len s.mem p;
          have_hdr = true;
          want_hdr = false;
        }))
