-- ===== src/Sddisk/Plain.antt =====
-- What the test programs of bootbin/sddisk.c and bootloader/sddisk.c let through to a terminal: bytes
-- of text, which are printable or lay it out, and steps of the programs that print nothing else.
use criscv_hw.Prelude.{
  ℕ, zero, suc, ◌%◌, ◌<◌, ◌≡◌, refl, sym, ap, ◌∙◌, Bool, true, ◌&&◌, List, [], ◌∷◌, ◌++◌, arith,
  All, Memory, Outside, reverse, get_or, length, ◌||◌, ◌==◌, leb,
}
use mathlib.Core.List.{append_assoc, reverse_aux}
use criscv_hw.Prelude.Text.{codes}
use criscv_hw.Sddisk.Wire.{Sd}
use criscv_hw.Sddisk.Uart.{hex_digit}

-- ASCII from the space to the tilde, the tab and the two ends of lines.
abbrev pub plain : ℕ → Bool
plain c = c == 9 || c == 10 || c == 13 || (leb 32 c && leb c 126)

abbrev pub IsText : ℕ → Type 0
IsText c = plain c ≡ true

unfoldable pub all_text : List ℕ → Bool
all_text [] = true
all_text (c ∷ cs) = plain c && all_text cs

-- A text that is written out.
pub all_text-IsText : (cs : List ℕ) → all_text cs ≡ true → All IsText cs
unfolding all_text
all_text-IsText [] e = tt
all_text-IsText (c ∷ cs) e = (ground arith, all_text-IsText cs (ground arith))

pub append-IsText : (a b : List ℕ) → All IsText a → All IsText b → All IsText (a ++ b)
append-IsText [] b p q = q
append-IsText (c ∷ cs) b (h, p) q = (h, append-IsText cs b p q)

-- A byte of a table of texts.
pub get_or-IsText : (cs : List ℕ) (n : ℕ) → All IsText cs → n < length cs → IsText (get_or cs n 0)
get_or-IsText [] n p l = absurd (omega arith)
get_or-IsText (c ∷ cs) zero (h, p) l = h
get_or-IsText (c ∷ cs) (suc n) (h, p) l = get_or-IsText cs n p (omega arith)

pub hex_digit-IsText : (n : ℕ) → IsText (hex_digit (n % 16))
unfolding all_text
hex_digit-IsText n =
    get_or-IsText (codes "0123456789ABCDEF") (n % 16)
      (all_text-IsText (codes "0123456789ABCDEF") refl) (omega arith)

reverse_aux-IsText :
    (cs acc : List ℕ) → All IsText cs → All IsText acc → All IsText (reverse_aux cs acc)
reverse_aux-IsText [] acc p q = q
reverse_aux-IsText (c ∷ cs) acc (h, p) q = reverse_aux-IsText cs (c ∷ acc) p (h, q)

pub reverse-IsText : (cs : List ℕ) → All IsText cs → All IsText (reverse cs)
reverse-IsText cs p = reverse_aux-IsText cs [] p tt

-- Text has been printed, and no byte outside the 512 at `buf` has changed.
pub record Printed (buf : ℕ) (mem : Memory) (console : List ℕ) (mem' : Memory) (console' : List ℕ)
    : Type 0 where
  pub said : List ℕ
  pub said_text : All IsText said
  pub console_eq : console' ≡ said ++ console
  pub kept : (x : ℕ) → Outside buf 512 x → mem' x ≡ mem x

abbrev pub Prints : ℕ → Sd → Sd → Type 0
Prints buf s t = Printed buf s.mem s.console t.mem t.console

pub Prints-none : (buf : ℕ) (m : Memory) (c : List ℕ) → Printed buf m c m c
Prints-none buf m c = record { said = []; said_text = tt; console_eq = refl; kept = λ x o. refl }

pub Prints-trans :
    {buf : ℕ} {m m' m'' : Memory} {c c' c'' : List ℕ}
    → Printed buf m c m' c'
    → Printed buf m' c' m'' c''
    → Printed buf m c m'' c''
Prints-trans {c} p q = record {
  said = q.said ++ p.said;
  said_text = append-IsText q.said p.said q.said_text p.said_text;
  console_eq =
      q.console_eq ∙ (ap (λ t. q.said ++ t) p.console_eq ∙ sym (append_assoc q.said p.said c));
  kept = λ x o. q.kept x o ∙ p.kept x o;
}

pub Prints-text :
    (buf : ℕ) (m : Memory) (c text : List ℕ)
    → All IsText text
    → Printed buf m c m (reverse text ++ c)
Prints-text buf m c text p = record {
  said = reverse text;
  said_text = reverse-IsText text p;
  console_eq = refl;
  kept = λ x o. refl;
}
