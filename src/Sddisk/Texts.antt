-- ===== src/Sddisk/Texts.antt =====
-- The text of a sector as the test programs of bootbin/sddisk.c and bootloader/sddisk.c print it.
use criscv_hw.Prelude.{
  ℕ, zero, suc, ◌+◌, ◌≡◌, refl, sym, ap, ◌∙◌, inl, inr, Bool, true, false, List, [], ◌∷◌, ◌++◌,
  ◌==◌, if◌then◌else◌, arith, Memory, Bool-cases, reverse,
}
use mathlib.Core.List.{append_assoc, reverse-append}
use criscv_hw.Sddisk.Wire.{Card, Sd, print}
use criscv_hw.Sddisk.Standalone.{Output, is_text, text_loop}
use criscv_hw.Sddisk.Plain.{plain}

-- The `n` bytes from `p` on.
abbrev pub bytes_at : Memory → ℕ → ℕ → List ℕ
bytes_at mem p zero = []
bytes_at mem p (suc n) = mem p ∷ bytes_at mem (p + 1) n

-- What stands before the first NUL.
unfoldable pub until_nul : List ℕ → List ℕ
until_nul [] = []
until_nul (c ∷ cs) = if c == 0 then [] else c ∷ until_nul cs

unfoldable pub has_nul : List ℕ → Bool
has_nul [] = false
has_nul (c ∷ cs) = if c == 0 then true else has_nul cs

-- A text goes out byte by byte, with a point for each byte that is no text.
unfoldable pub shown : Output → List ℕ → List ℕ
shown out [] = []
shown out (c ∷ cs) = out.put_char (if plain c then c else b'.') ++ shown out cs

is_text-plain : (c : ℕ) → is_text c ≡ plain c
is_text-plain c = ground arith

abbrev pub says : List ℕ → Sd → Sd
says text s = record s { console = reverse text ++ s.console }

says-says : (a b : List ℕ) (s : Sd) → says b (says a s) ≡ says (a ++ b) s
says-says a b s =
    ap (λ c. record s { console = c })
      (sym (append_assoc (reverse b) (reverse a) s.console)
        ∙ ap (λ t. t ++ s.console) (sym (reverse-append a b)))

-- The loop over a sector prints what stands in it before the first NUL, with a point for each byte
-- that is none of the ASCII characters from the space to the tilde, the tab and the two ends of
-- lines, and tells whether there is a NUL.
pub text_loop-shown :
    (out : Output) (card : Card) (buf left i : ℕ) (s : Sd)
    → let bytes = bytes_at s.mem (buf + i) left in
      text_loop out card buf left i s ≡ (has_nul bytes, says (shown out (until_nul bytes)) s)
unfolding text_loop print has_nul until_nul shown
text_loop-shown out card buf zero i s = refl
text_loop-shown out card buf (suc left) i s = elim (Bool-cases (s.mem (buf + i) == 0)) [
  | inl e ↦ rw (text_loop, e) refl
  | inr e ↦
      let there : buf + i + 1 ≡ buf + (i + 1) = omega arith in
      let c = s.mem (buf + i) in
      let cell = out.put_char (if is_text c then c else b'.') in
      let rest = bytes_at s.mem (buf + (i + 1)) left in
      rw (text_loop, e, there)
        (text_loop-shown out card buf left (i + 1) (says cell s)
          ∙ (ap (λ t. (has_nul rest, t)) (says-says cell (shown out (until_nul rest)) s)
              ∙ ap
                  (λ b. (
                    has_nul rest,
                    says (out.put_char (if b then c else b'.') ++ shown out (until_nul rest)) s,
                  ))
                  (is_text-plain c)))
]
