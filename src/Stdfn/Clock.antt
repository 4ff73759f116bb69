-- ===== src/Stdfn/Clock.antt =====
-- `_brk` and `_gettimeofday`.
use criscv_hw.Prelude.{
  ℕ, ◌+◌, ◌*◌, ◌/◌, ◌%◌, ◌^◌, ◌≤◌, ◌<◌, ◌≡◌, ◌⊎◌, sym, ◌∙◌, inl, inr, true, false, Option, none,
  some, List, [], ◌∷◌, arith, ◌==◌, if◌then◌else◌, All, Bool-cases, Option-cases, ==_iff,
}
use criscv_hw.Stdfn.System.{
  heap_limit, heap_start, brk, CycleRead, read_cycles, time_of, gettimeofday,
}

-- The break that a call of `_brk` finds.
abbrev pub current : ℕ → ℕ → ℕ → ℕ
current end bss_size cur_brk = if cur_brk == 0 then heap_start end bss_size else cur_brk

-- `_brk` answers the new break. It moves it to any address from the current break up to the limit,
-- and refuses all others, 0 included, by answering the break as it is; so the break never falls.
pub brk_lem :
    (end bss_size addr cur_brk : ℕ)
    → 0 < current end bss_size cur_brk
    → let cur = current end bss_size cur_brk in
      let (answer, after) = brk end bss_size addr cur_brk in
      (after ≡ answer)
      × (cur ≤ answer)
      × ((cur ≤ addr) × (addr ≤ heap_limit) → answer ≡ addr)
      × ((addr < cur) ⊎ (heap_limit < addr) → answer ≡ cur)
unfolding brk
brk_lem end bss_size addr cur_brk h = ground arith

-- The heap starts at the first multiple of 8 at or behind the end of the program's data, if that
-- lies more than 7 bytes below 2 ^ 32.
pub heap_start_lem :
    (end bss_size : ℕ)
    → end + bss_size + 7 < 2 ^ 32
    → (heap_start end bss_size % 8 ≡ 0)
      × (end + bss_size ≤ heap_start end bss_size)
      × (heap_start end bss_size < end + bss_size + 8)
unfolding heap_start
heap_start_lem end bss_size h = omega arith

-- The three reads were made one after the other, of a counter that does not fall.
pub record IsSample (r : CycleRead) : Type 0 where
  pub first : ℕ
  pub second : ℕ
  pub third : ℕ
  pub in_order : (first ≤ second) × (second ≤ third)
  pub hi_eq : r.hi ≡ first / 2 ^ 32
  pub lo_eq : r.lo ≡ second % 2 ^ 32
  pub hi_again_eq : r.hi_again ≡ third / 2 ^ 32

-- The counter as it stood at the read of the low half in one of the rounds.
abbrev pub ValueIn : (reads : List CycleRead) → All IsSample reads → ℕ → Type 0
ValueIn [] h cycles = ⊥
ValueIn (r ∷ rs) (h, hs) cycles = (cycles ≡ h.second) ⊎ ValueIn rs hs cycles

-- The counter, put together from its halves, when the high half is the same before and after the
-- low half is read.
value_of_halves :
    {hi lo hi' : ℕ} (first second third : ℕ)
    → (first ≤ second) × (second ≤ third)
    → hi ≡ first / 2 ^ 32
    → lo ≡ second % 2 ^ 32
    → hi' ≡ third / 2 ^ 32
    → hi ≡ hi'
    → hi * 2 ^ 32 + lo ≡ second
value_of_halves first second third h e e' e'' eq = omega arith

read_cycles-here :
    (r : CycleRead) (rs : List CycleRead)
    → (r.hi == r.hi_again) ≡ true
    → read_cycles (r ∷ rs) ≡ some (r.hi * 2 ^ 32 + r.lo, rs)
unfolding read_cycles
read_cycles-here r rs e = rw (read_cycles, e)

read_cycles-past :
    (r : CycleRead) (rs : List CycleRead)
    → (r.hi == r.hi_again) ≡ false
    → read_cycles (r ∷ rs) ≡ read_cycles rs
unfolding read_cycles
read_cycles-past r rs e = rw (read_cycles, e)

is_value :
    (r : CycleRead) (h : IsSample r) → (r.hi == r.hi_again) ≡ true → r.hi * 2 ^ 32 + r.lo ≡ h.second
is_value r h e =
    value_of_halves h.first h.second h.third h.in_order h.hi_eq h.lo_eq h.hi_again_eq
      ((==_iff r.hi r.hi_again).0 e)

some_value :
    {a cycles : ℕ} {rs rest : List CycleRead}
    → ◌≡◌ {A = Option (ℕ × List CycleRead)} (some (a, rs)) (some (cycles, rest))
    → cycles ≡ a
some_value e = ground arith

-- If each round reads a counter that does not fall three times in order, what the loop puts together
-- of two halves is the value that the counter had when the low half was read in one of these rounds,
-- a carry from the low half into the high half between the reads notwithstanding.
pub read_cycles-ValueIn :
    (reads : List CycleRead) {cycles : ℕ} {rest : List CycleRead} (h : All IsSample reads)
    → read_cycles reads ≡ some (cycles, rest)
    → ValueIn reads h cycles
unfolding read_cycles
read_cycles-ValueIn [] h e = cc
read_cycles-ValueIn (r ∷ rs) {cycles} {rest} (h, hs) e = elim (Bool-cases (r.hi == r.hi_again)) [
  | inl t ↦ inl (some_value (sym (read_cycles-here r rs t) ∙ e) ∙ is_value r h t)
  | inr f ↦ inr (read_cycles-ValueIn rs hs (sym (read_cycles-past r rs f) ∙ e))
]

time_of_value :
    (cycles : ℕ) {secs usecs : ℕ} {rs rest : List CycleRead}
    → ◌≡◌ {A = Option ((ℕ × ℕ) × List CycleRead)}
        (some (time_of cycles, rs))
        (some ((secs, usecs), rest))
    → (usecs < 1000000) × (secs * 1000000 + usecs ≡ cycles / 50)
unfolding time_of
time_of_value cycles e = (ground arith, ground arith)

gettimeofday-some :
    (reads : List CycleRead) {cycles : ℕ} {rest : List CycleRead}
    → read_cycles reads ≡ some (cycles, rest)
    → gettimeofday reads ≡ some (time_of cycles, rest)
unfolding gettimeofday
gettimeofday-some reads e = rw (gettimeofday, e)

gettimeofday-none : (reads : List CycleRead) → read_cycles reads ≡ none → gettimeofday reads ≡ none
unfolding gettimeofday
gettimeofday-none reads e = rw (gettimeofday, e)

no_time {ℓ} : {A : Type ℓ} {B : Type 0} {b : B} → ◌≡◌ {A = Option B} none (some b) → A
no_time e = cc

-- If each round reads a counter that does not fall three times in order, and the halves agree in the
-- end, `_gettimeofday` answers whole seconds and fewer than 1000000 microseconds, which together are,
-- at 50 cycles to the microsecond, the value that the counter had when the low half was read in one
-- of these rounds.
pub gettimeofday_lem :
    (reads : List CycleRead) {secs usecs : ℕ} {rest : List CycleRead} (h : All IsSample reads)
    → gettimeofday reads ≡ some ((secs, usecs), rest)
    → (usecs < 1000000)
      × ((cycles : ℕ) × (ValueIn reads h cycles × (secs * 1000000 + usecs ≡ cycles / 50)))
gettimeofday_lem reads h e = elim (Option-cases (read_cycles reads)) [
  | inl n ↦ no_time (sym (gettimeofday-none reads n) ∙ e)
  | inr ((cycles, rest'), s) ↦
      let (lt, total) = time_of_value cycles (sym (gettimeofday-some reads s) ∙ e) in
      (lt, (cycles, (read_cycles-ValueIn reads h s, total)))
]
