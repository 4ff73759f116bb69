-- ===== src/Ymodem/Reaches.antt =====
-- The rounds of `ym_receive` of bootbin/ymodem.c that take a sender's blocks, one behind the other.
use criscv_hw.Prelude.{
  ℕ, zero, suc, ◌+◌, ◌%◌, ◌^◌, ◌≤◌, ◌<◌, ◌≡◌, sym, some, List, [], ◌∷◌, ◌++◌, length, length-append,
  arith, All,
}
use mathlib.Core.List.{append-nil, append_assoc}
use mathlib.Core.Path.{subst}
use criscv_hw.Ymodem.Session.{Args, Session, Line, continue, return, Code}
use criscv_hw.Ymodem.Receive.{step, run}
use criscv_hw.Ymodem.Progress.{measure, step-measure}
use criscv_hw.Ymodem.Feeds.{Feeds, Feeds-append}
use criscv_hw.Ymodem.Wire.{block_wire, IsBlock}
use criscv_hw.Ymodem.Rounds.{Told}
use criscv_hw.Ymodem.Growth.{step-more}
use criscv_hw.Ymodem.Arrival.{room_of, HasCome}

abbrev pub concat : List (List ℕ) → List ℕ
concat [] = []
concat (d ∷ ds) = d ++ concat ds

-- The blocks behind the first `count`, numbered from there on.
abbrev pub data_wire : ℕ → List (List ℕ) → List ℕ
data_wire count [] = []
data_wire count (d ∷ ds) = block_wire ((1 + count) % 2 ^ 8) d ++ data_wire (1 + count) ds

-- The loop ends from `s` as it does from `t`.
abbrev pub Finishes : Args → Session → Code → Session → Type 0
Finishes a s code t = (fuel : ℕ) → measure s < fuel → run fuel a s ≡ some (code, t)

abbrev pub Reaches : Args → Session → Session → Type 0
Reaches a s t = (code : Code) (u : Session) → Finishes a t code u → Finishes a s code u

pub Reaches-step : (a : Args) (s t : Session) → step a s ≡ continue t → Reaches a s t
unfolding run
Reaches-step a s t e code u f zero h = absurd (omega arith)
Reaches-step a s t e code u f (suc fuel) h =
    rw (run, e) (f fuel (omega (arith, step-measure a s e)))

pub Finishes-return :
    (a : Args) (s : Session) (code : Code) (t : Session)
    → step a s ≡ return code t
    → Finishes a s code t
unfolding run
Finishes-return a s code t e zero h = absurd (omega arith)
Finishes-return a s code t e (suc fuel) h = rw (run, e)

-- The further blocks, one behind the other.
pub reach-data :
    (a : Args) (type count : ℕ) (file : List ℕ) (s : Session) (more : List (List ℕ)) (rest : Line)
    (name : List ℕ) (size : ℕ)
    → room_of a type < 2 ^ 32
    → HasCome a type count file s
    → Told name size s
    → All IsBlock more
    → length file + length (concat more) ≤ room_of a type
    → Feeds (data_wire count more) s.line rest
    → (n : ℕ) × (t : Session) × Reaches a s t
      × HasCome a type n (file ++ concat more) t
      × Told name size t
      × (t.line ≡ rest)
reach-data a type count file s [] rest name size word c t b room f = (
  count,
  s,
  (λ code u z. z),
  subst (λ g. HasCome a type count g s) (sym (append-nil file)) c,
  t,
  f,
)
reach-data a type count file s (d ∷ ds) rest name size word c t b room f =
    let (middle, front, back) =
      Feeds-append (block_wire ((1 + count) % 2 ^ 8) d) (data_wire (1 + count) ds) s.line rest f in
    let l = length-append d (concat ds) in
    let (s', e, c', t', q) =
      step-more a type count file s d middle name size word c t b.0 (omega arith) front in
    let more =
      reach-data a type (1 + count) (file ++ d) s' ds rest name size word c' t' b.1
        (let k = length-append file d in omega arith)
        (subst (λ x. Feeds (data_wire (1 + count) ds) x rest) (sym q) back) in
    (
      more.0,
      more.1,
      (λ code u z. Reaches-step a s s' e code u (more.2 code u z)),
      subst (λ g. HasCome a type more.0 g more.1) (append_assoc file d (concat ds)) more.3,
      more.4,
      more.5,
    )
