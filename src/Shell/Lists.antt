-- ===== src/Shell/Lists.antt =====
-- What `ls_cmd` of bootbin/boot.c sends of a directory.
use criscv_hw.Prelude.{
  ℕ, zero, suc, ◌≤◌, ◌<◌, ◌≡◌, refl, sym, ap, ◌∙◌, Bool, true, false, Option, some, List, [], ◌∷◌,
  ◌++◌, length, reverse, if◌then◌else◌, arith,
}
use mathlib.Core.List.{append_assoc, reverse-append}
use mathlib.Core.Path.{subst}
use criscv_hw.Prelude.Text.{codes}
use criscv_hw.Stdfn.FatFs.{fr_ok}
use criscv_hw.Shell.World.{World, Env, FileInfo, Answer, sendstring}
use criscv_hw.Shell.Card.{
  entry_text, is_empty, dir_fuel, sd_ready, path_text, ls_loop, ls_opened, ls_cmd,
}

-- The lines of a listing.
unfoldable pub lines_of : List FileInfo → List ℕ
lines_of [] = []
lines_of (e ∷ es) = entry_text e ++ lines_of es

module _ {Fil Dir Volume : Type 0} (env : Env Fil Dir Volume) where
  ls_cmd-ready :
      (path : Option ℕ) (w : World Fil Volume)
      → w.sd_mounted ≡ true
      → ls_cmd env path w ≡ ls_opened env (path_text env path w.mem) w
  unfolding ls_cmd sd_ready
  ls_cmd-ready path w e =
      let told : World Fil Volume = sendstring (codes "No SD card mounted (try 'mount')\n") w in
      let chosen : Bool → World Fil Volume = λ b. if b then w else told in
      ap
        (λ b.
          if b
          then ls_opened env (path_text env path (chosen b).mem) (chosen b)
          else some (chosen b))
        e

  module _ (entries : Dir → Volume → List FileInfo) where
    -- The answer to a call with these entries to come: the first of them, or an empty name.
    abbrev pub Yields : List FileInfo → Answer (FileInfo × Dir) Volume → Type 0
    Yields [] a = is_empty a.value.0.fname ≡ true
    Yields (e ∷ es) a =
        (a.value.0 ≡ e) × (is_empty a.value.0.fname ≡ false) × (entries a.value.1 a.volume ≡ es)

    -- What ff.h says of `f_readdir` where the card does not fail: it gives the entries of the
    -- directory one by one, and an empty name behind the last.
    abbrev pub ListsOn : Type 0
    ListsOn =
        (dir : Dir) (v : Volume)
        → ((env.f_readdir dir v).result ≡ fr_ok) × Yields (entries dir v) (env.f_readdir dir v)

    ls_loop-sends :
        (fuel : ℕ) (es : List FileInfo) (dir : Dir) (w : World Fil Volume)
        → ListsOn
        → entries dir w.volume ≡ es
        → length es < fuel
        → (w' : World Fil Volume) × (ls_loop env fuel dir w ≡ some w')
          × (w'.out ≡ reverse (lines_of es) ++ w.out)
    unfolding ls_loop sendstring lines_of
    ls_loop-sends zero es dir w reads e h = absurd (omega arith)
    ls_loop-sends (suc fuel) [] dir w reads e h =
        let a = env.f_readdir dir w.volume in
        let (ok, n) = reads dir w.volume in
        let end : Yields [] a = subst (λ t. Yields t a) e n in
        (record w { volume = env.f_closedir a.value.1 a.volume }, rw (ls_loop, ok, end), refl)
    ls_loop-sends (suc fuel) (x ∷ es) dir w reads e h =
        let a = env.f_readdir dir w.volume in
        let (ok, n) = reads dir w.volume in
        let (same, named, left) : Yields (x ∷ es) a = subst (λ t. Yields t a) e n in
        let (w', run, out) =
          ls_loop-sends fuel es a.value.1
            (sendstring (entry_text a.value.0) (record w { volume = a.volume })) reads left
            (omega arith) in
        (
          w',
          rw (ls_loop, ok, named) run,
          out
              ∙ (sym (append_assoc (reverse (lines_of es)) (reverse (entry_text a.value.0)) w.out)
                  ∙ ap (λ t. t ++ w.out)
                      (sym (reverse-append (entry_text a.value.0) (lines_of es))
                        ∙ ap (λ i. reverse (entry_text i ++ lines_of es)) same)),
        )

    -- `ls` of a directory that FatFs opens and reads sends a line for each of its entries, in their
    -- order, and ends, for any directory of at most 65536 entries.
    pub ls_cmd-sends :
        (path : Option ℕ) (w : World Fil Volume)
        → ListsOn
        → w.sd_mounted ≡ true
        → let a = env.f_opendir (path_text env path w.mem) w.volume in
          a.result ≡ fr_ok
          → length (entries a.value a.volume) ≤ 65536
          → (w' : World Fil Volume) × (ls_cmd env path w ≡ some w')
            × (w'.out ≡ reverse (lines_of (entries a.value a.volume)) ++ w.out)
    unfolding ls_opened
    ls_cmd-sends path w reads ready ok size =
        let a = env.f_opendir (path_text env path w.mem) w.volume in
        let (w', run, out) =
          ls_loop-sends dir_fuel (entries a.value a.volume) a.value (record w { volume = a.volume })
            reads refl (omega (arith, size)) in
        (w', ls_cmd-ready path w ready ∙ rw (ls_opened, ok) run, out)
