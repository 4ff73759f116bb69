-- ===== src/Shell/Tokens.antt =====
-- bootbin/boot.c: how `shell` cuts its line into arguments, by `strtok(…, " \t")` of the C library.
use criscv_hw.Prelude.{
  ℕ, zero, suc, ◌+◌, Bool, true, false, ◌||◌, Option, none, some, List, [], ◌∷◌, ◌==◌,
  if◌then◌else◌, Memory, store,
}

-- The size of `buf`, and the arguments that `argv` has room for.
abbrev pub line_size : ℕ
line_size = 128

abbrev pub max_args : ℕ
max_args = 16

unfoldable pub is_blank : ℕ → Bool
is_blank c = c == b' ' || c == b'\t'

-- The first address from `p` on that does not hold a blank.
unfoldable pub skip_blanks : ℕ → Memory → ℕ → ℕ
skip_blanks zero mem p = p
skip_blanks (suc left) mem p = elim (is_blank (mem p)) [
  | true ↦ skip_blanks left mem (p + 1)
  | false ↦ p
]

-- The first address from `p` on that holds a blank or the NUL.
unfoldable pub token_end : ℕ → Memory → ℕ → ℕ
token_end zero mem p = p
token_end (suc left) mem p = elim (is_blank (mem p) || mem p == 0) [
  | true ↦ p
  | false ↦ token_end left mem (p + 1)
]

-- A token: where it begins, where the search goes on, and the memory with its end marked.
pub record Token : Type 0 where
  pub begin : ℕ
  pub rest : ℕ
  pub mem : Memory

unfoldable pub end_token : Memory → ℕ → ℕ → Token
end_token mem begin end =
    if mem end == 0
    then record { begin = begin; rest = end; mem = mem }
    else record { begin = begin; rest = end + 1; mem = store mem end 0 }

-- `strtok`, from `p` on; none if there is no token left. `left` bounds the searches: the line ends
-- within its buffer.
unfoldable pub strtok : ℕ → Memory → ℕ → Option Token
strtok left mem p =
    let begin = skip_blanks left mem p in
    if mem begin == 0 then none else some (end_token mem begin (token_end left mem begin))

-- What the loop leaves: the arguments, none if there are too many, and the memory.
pub record Parsed : Type 0 where
  pub argv : Option (List ℕ)
  pub mem : Memory

abbrev pub with_arg : ℕ → Option (List ℕ) → Option (List ℕ)
with_arg arg none = none
with_arg arg (some args) = some (arg ∷ args)

-- The loop, with room for `room` arguments more.
unfoldable pub collect : ℕ → Memory → ℕ → Parsed
collect zero mem p = elim (strtok line_size mem p) [
  | none ↦ record { argv = some []; mem = mem }
  | some t ↦ record { argv = none; mem = t.mem }
]
collect (suc room) mem p = elim (strtok line_size mem p) [
  | none ↦ record { argv = some []; mem = mem }
  | some t ↦
      let more = collect room t.mem t.rest in
      record { argv = with_arg t.begin more.argv; mem = more.mem }
]
