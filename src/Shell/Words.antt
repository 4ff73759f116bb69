-- ===== src/Shell/Words.antt =====
-- The arguments of a line of `shell` in bootbin/boot.c are its words.
use criscv_hw.Prelude.{
  ℕ, zero, suc, ◌+◌, ◌≤◌, ◌<◌, ◌≡◌, refl, ◌∙◌, inl, inr, Option, none, some, List, [], ◌∷◌, length,
  arith, Option-cases, Memory, Outside,
}
use mathlib.Core.Path.{subst}
use criscv_hw.Shell.Tokens.{line_size, strtok, Token, Parsed, with_arg, collect}
use criscv_hw.Shell.Texts.{words, TextAt, TextsAt, TextAt-same}
use criscv_hw.Shell.Strtok.{Cutting, CuttingIf, strtok-Cutting}

-- The arguments for a line: pointers to its words in their order, or none where there are more of
-- them than `room`.
abbrev pub ArgsOf : Memory → ℕ → List (List ℕ) → Option (List ℕ) → Type 0
ArgsOf mem room ws none = room < length ws
ArgsOf mem room ws (some ps) = (length ws ≤ room) × TextsAt mem ps ws

pub record Collected (room : ℕ) (mem : Memory) (p : ℕ) (text : List ℕ) (r : Parsed) : Type 0 where
  pub args : ArgsOf r.mem room (words text) r.argv
  pub kept : (x : ℕ) → Outside p (length text) x → r.mem x ≡ mem x

collect-more :
    (room : ℕ) (mem : Memory) (p : ℕ) (text : List ℕ) (t : Token) (c : Cutting mem p text t)
    (r : Parsed)
    → Collected room t.mem t.rest c.left r
    → Collected (suc room) mem p text (record { argv = with_arg t.begin r.argv; mem = r.mem })
collect-more room mem p text t c r more = record {
  args = rw c.same (args r.argv more.args);
  kept = λ x o. more.kept x (inside x o) ∙ c.kept x o;
}
  where
    inside : (x : ℕ) → Outside p (length text) x → Outside t.rest (length c.left) x
    inside x o = ground (arith, c.from, c.order, c.to)

    spared : (x : ℕ) → x ≤ t.begin + length c.word → Outside t.rest (length c.left) x
    spared x le = ground (arith, c.apart)

    args :
        (argv : Option (List ℕ))
        → ArgsOf r.mem room (words c.left) argv
        → ArgsOf r.mem (suc room) (c.word ∷ words c.left) (with_arg t.begin argv)
    args none a = omega arith
    args (some ps) a = (
      omega arith,
      (TextAt-same t.mem r.mem t.begin c.word (λ x lo hi. more.kept x (spared x hi)) c.at, a.1),
    )

Collected-none :
    (room : ℕ) (mem : Memory) (p : ℕ) (text : List ℕ)
    → words text ≡ []
    → Collected room mem p text (record { argv = some []; mem = mem })
Collected-none room mem p text e = record { args = rw e (omega arith, tt); kept = λ x o. refl }

-- The loop over `strtok` finds the words of the line in their order, each as a C string in the
-- line's own bytes, and answers none exactly if there are more of them than there is room for. No
-- byte but those of the line's text has changed.
pub collect-Collected :
    (room : ℕ) (mem : Memory) (p : ℕ) (text : List ℕ)
    → TextAt mem p text
    → length text < line_size
    → Collected room mem p text (collect room mem p)
unfolding collect
collect-Collected zero mem p text t h = elim (Option-cases (strtok line_size mem p)) [
  | inl e ↦
      rw (collect, e)
        (Collected-none zero mem p text
          (subst (CuttingIf mem p text) e (strtok-Cutting mem p text t h)))
  | inr (token, e) ↦
      let c = subst (CuttingIf mem p text) e (strtok-Cutting mem p text t h) in
      rw (collect, e) (record { args = rw c.same (omega arith); kept = c.kept })
]
collect-Collected (suc room) mem p text t h = elim (Option-cases (strtok line_size mem p)) [
  | inl e ↦
      rw (collect, e)
        (Collected-none (suc room) mem p text
          (subst (CuttingIf mem p text) e (strtok-Cutting mem p text t h)))
  | inr (token, e) ↦
      let c = subst (CuttingIf mem p text) e (strtok-Cutting mem p text t h) in
      rw (collect, e)
        (collect-more room mem p text token c (collect room token.mem token.rest) (
          collect-Collected room token.mem token.rest c.left c.behind
            (omega (arith, h, c.from, c.order, c.to))))
]
