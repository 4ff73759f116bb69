-- ===== src/Shell/Hex.antt =====
-- The hexadecimal prints of bootbin/boot.c and bootbin/stdfn.c, read back.
use criscv_hw.Prelude.{
  ℕ, zero, suc, ◌+◌, ◌-◌, ◌*◌, ◌/◌, ◌%◌, ◌^◌, ◌<◌, ◌≡◌, refl, sym, ap, ◌∙◌, Bool, true, List, [],
  ◌∷◌, arith, leb, ltb, ◌==◌, ==_iff, ◌&&◌, if◌then◌else◌, get_or,
}
use criscv_hw.Prelude.Text.{codes}
use criscv_hw.Stdfn.System as System
use criscv_hw.Shell.MemTest.{put_hex}

-- The value of a digit, and the number that a text of digits spells behind `n`.
unfoldable pub nibble : ℕ → ℕ
nibble c = if leb b'a' c then c - b'a' + 10 else c - b'0'

unfoldable pub read_hex : ℕ → List ℕ → ℕ
read_hex n [] = n
read_hex n (c ∷ cs) = read_hex (n * 16 + nibble c) cs

abbrev digit : ℕ → ℕ
digit d = if ltb d 10 then b'0' + d else b'a' + d - 10

nibble-digit : (d : ℕ) → d < 16 → nibble (digit d) ≡ d
unfolding nibble
nibble-digit d h = ground arith

-- A test that holds at every number below `n`.
all_below : ℕ → (ℕ → Bool) → Bool
all_below zero p = true
all_below (suc n) p = p n && all_below n p

all_below-at : (n : ℕ) (p : ℕ → Bool) (x : ℕ) → all_below n p ≡ true → x < n → p x ≡ true
unfolding all_below
all_below-at zero p x h lt = absurd (omega arith)
all_below-at (suc n) p x h lt = ground (arith, all_below-at n p x)

hex_table : all_below 16 (λ d. get_or (codes "0123456789abcdef") d 0 == digit d) ≡ true
unfolding all_below
hex_table = refl

table : (d : ℕ) → d < 16 → get_or (codes "0123456789abcdef") d 0 ≡ digit d
table d h = (==_iff _ _).0 (all_below-at 16 _ d hex_table h)

-- `put_hex` of boot.c and `put_hex` of stdfn.c print alike.
pub put_hex-same : (left v : ℕ) → put_hex left v ≡ System.put_hex left v
unfolding put_hex System.put_hex
put_hex-same zero v = refl
put_hex-same (suc left) v =
    λ i. sym (table (v / 2 ^ (left * 4) % 16) (omega arith)) i ∷ put_hex-same left v i

read_hex-step :
    (n left v : ℕ)
    → read_hex n (put_hex (suc left) v)
      ≡ read_hex (n * 16 + v / 2 ^ (left * 4) % 16) (put_hex left v)
unfolding read_hex put_hex
read_hex-step n left v =
    ap (λ d. read_hex (n * 16 + d) (put_hex left v))
      (nibble-digit (v / 2 ^ (left * 4) % 16) (omega arith))

-- The eight digits that are printed of a 32-bit word read back as the word.
pub read_hex-put_hex : (v : ℕ) → v < 2 ^ 32 → read_hex 0 (put_hex 8 v) ≡ v
unfolding read_hex put_hex
read_hex-put_hex v h =
    read_hex-step 0 7 v
    ∙ (read_hex-step _ 6 v
        ∙ (read_hex-step _ 5 v
            ∙ (read_hex-step _ 4 v
                ∙ (read_hex-step _ 3 v
                    ∙ (read_hex-step _ 2 v
                        ∙ (read_hex-step _ 1 v ∙ (read_hex-step _ 0 v ∙ omega arith)))))))
