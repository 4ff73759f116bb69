-- ===== src/Ymodem/Feeds.antt =====
-- Bytes that come over the line in time for `ym_getc` of bootbin/ymodem.c.
use criscv_hw.Prelude.{
  ℕ, zero, suc, ◌-◌, ◌%◌, ◌^◌, ◌<◌, ◌≡◌, refl, ap, false, none, some, List, [], ◌∷◌, ◌++◌, arith,
  leb, All, replicate,
}
use criscv_hw.Ymodem.Session.{Line, ym_timeout_loops, getc, received, remaining}

-- The polls of a line on which each byte comes after so many empty polls.
abbrev pub spaced : List (ℕ × ℕ) → Line → Line
spaced [] rest = rest
spaced ((gap, b) ∷ bytes) rest = replicate gap none ++ some b ∷ spaced bytes rest

-- A byte, and a gap that is too short for a timeout.
abbrev pub InTime : ℕ × ℕ → Type 0
InTime (gap, b) = (gap < ym_timeout_loops) × (b < 256)

abbrev pub bytes_in : List (ℕ × ℕ) → List ℕ
bytes_in [] = []
bytes_in ((gap, b) ∷ bytes) = b ∷ bytes_in bytes

-- Each of the bytes is received, and `rest` is what is left of the line.
abbrev pub Feeds : List ℕ → Line → Line → Type 0
Feeds [] line rest = line ≡ rest
Feeds (b ∷ bs) line rest =
    (received ym_timeout_loops line ≡ some b) × Feeds bs (remaining ym_timeout_loops line) rest

getc-gap :
    (gap t b : ℕ) (line : Line)
    → gap < t
    → b < 256
    → getc t (replicate gap none ++ some b ∷ line) ≡ (some b, line)
unfolding getc
getc-gap zero t b line h l = let e : b % 2 ^ 8 ≡ b = omega arith in ap (λ c. (some c, line)) e
getc-gap (suc gap) t b line h l =
    let e : leb t 1 ≡ false = ground arith in rw e (getc-gap gap (t - 1) b line (omega arith) l)

pub spaced-Feeds :
    (bytes : List (ℕ × ℕ)) (rest : Line)
    → All InTime bytes
    → Feeds (bytes_in bytes) (spaced bytes rest) rest
spaced-Feeds [] rest h = refl
spaced-Feeds ((gap, b) ∷ bytes) rest h =
    let e = getc-gap gap ym_timeout_loops b (spaced bytes rest) h.0.0 h.0.1 in
    (ap (λ r. r.0) e, rw (ap (λ r. r.1) e) (spaced-Feeds bytes rest h.1))

-- A line that feeds one text behind another.
pub Feeds-append :
    (bs cs : List ℕ) (line rest : Line)
    → Feeds (bs ++ cs) line rest
    → (middle : Line) × Feeds bs line middle × Feeds cs middle rest
Feeds-append [] cs line rest h = (line, refl, h)
Feeds-append (b ∷ bs) cs line rest h =
    let (middle, front, back) = Feeds-append bs cs (remaining ym_timeout_loops line) rest h.1 in
    (middle, (h.0, front), back)
