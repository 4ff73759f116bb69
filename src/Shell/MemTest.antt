-- ===== src/Shell/MemTest.antt =====
-- bootbin/boot.c: `mem_addr_test` and `put_hex`. What a read of the memory under test finds is a
-- function of what has been stored, so that a defect is one too.
use criscv_hw.Prelude.{
  ℕ, zero, suc, ◌+◌, ◌-◌, ◌*◌, ◌/◌, ◌%◌, ◌^◌, Bool, true, false, ◌&&◌, Option, none, some, List, [],
  ◌∷◌, ◌++◌, ltb, ◌==◌, if◌then◌else◌, bit_xor, Memory, store,
}
use criscv_hw.Prelude.Words.{store_dword}
use criscv_hw.Prelude.Text.{codes}
use criscv_hw.Shell.World.{World, sendstring}

-- The nibbles from the one at bit `4 * left - 4` down.
unfoldable pub put_hex : ℕ → ℕ → List ℕ
put_hex zero v = []
put_hex (suc left) v =
    let d = v / 2 ^ (left * 4) % 16 in
    (if ltb d 10 then b'0' + d else b'a' + d - 10) ∷ put_hex left v

-- A word byte by byte.
unfoldable pub store_bytes : ℕ → ℕ → Memory → Memory
store_bytes a v mem =
    store
      (store (store (store mem a (v % 2 ^ 8)) (a + 1) (v / 2 ^ 8 % 2 ^ 8)) (a + 2)
        (v / 2 ^ 16 % 2 ^ 8))
      (a + 3) (v / 2 ^ 24 % 2 ^ 8)

-- The first loop, with `left` words to go: each word is filled with its address.
unfoldable pub fill : ℕ → ℕ → Bool → Memory → Memory
fill zero a byte_stores mem = mem
fill (suc left) a byte_stores mem =
    fill left (a + 4) byte_stores (if byte_stores then store_bytes a a mem else store_dword a a mem)

-- The report of a word that is not its address.
unfoldable pub fail_text : ℕ → ℕ → List ℕ
fail_text a v =
    codes "FAIL @"
    ++ (put_hex 8 a
        ++ (codes " got "
            ++ (put_hex 8 v ++ (codes " xor " ++ (put_hex 8 (bit_xor v a) ++ codes "\r\n")))))

-- The second loop: the errors, and the report of the first eight.
unfoldable pub verify : (ℕ → ℕ) → ℕ → ℕ → ℕ → ℕ × List ℕ
verify ram zero a errs = (errs, [])
verify ram (suc left) a errs =
    let v = ram a in
    let (n, text) = verify ram left (a + 4) (if v == a then errs else errs + 1) in
    (n, (if v == a then [] else if ltb errs 8 then fail_text a v else []) ++ text)

-- The words from `start` below `end`, in rounds of the loops.
abbrev pub rounds : ℕ → ℕ → ℕ
rounds start end = (end + 3 - start) / 4

-- `a += 4` wraps before `a < end` fails, and the first loop never ends: the last address of 32 bits
-- that is reached from `start` lies below `end`.
abbrev pub wraps : ℕ → ℕ → Bool
wraps start end = ltb start end && ltb (2 ^ 32 - 4 + start % 4) end

module _ {Fil Volume : Type 0} (ram : Memory → ℕ → ℕ) where
  -- The answer, and the world after the test of a range whose loops end.
  unfoldable pub test_range : ℕ → ℕ → Bool → World Fil Volume → ℕ × World Fil Volume
  test_range start end byte_stores w =
      let mem = fill (rounds start end) start byte_stores w.mem in
      let (errs, text) = verify (ram mem) (rounds start end) start 0 in
      (
        errs,
        sendstring
            (text
              ++ ((if errs == 0 then codes "PASS " else codes "errors: ")
                  ++ (put_hex 8 errs ++ codes "\r\n")))
            (record w { mem = mem }),
      )

  -- `none` means that the test never ends.
  unfoldable pub mem_addr_test : ℕ → ℕ → Bool → World Fil Volume → Option (ℕ × World Fil Volume)
  mem_addr_test start end byte_stores w =
      if wraps start end then none else some (test_range start end byte_stores w)

  unfoldable pub mt_cmd : World Fil Volume → Option (World Fil Volume)
  mt_cmd w = elim (mem_addr_test 0x10000 0x20000 false w) [
    | none ↦ none
    | some r ↦ elim (mem_addr_test 0x10000 0x20000 true r.1) [ none ↦ none | some r' ↦ some r'.1 ]
  ]
