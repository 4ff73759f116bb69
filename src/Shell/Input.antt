-- ===== src/Shell/Input.antt =====
-- bootbin/boot.c: `waitForStart`, `readBytes`, `readchar` and `readline`. The bytes to come over the
-- serial line are a list; `none` means that the code waits for one more for ever.
use criscv_hw.Prelude.{
  ℕ, zero, suc, ◌+◌, ◌-◌, true, false, ◌||◌, Option, none, some, List, [], ◌∷◌, ltb, ◌==◌,
  if◌then◌else◌, get_or, Memory, store,
}

-- start = "RVF"
abbrev pub start : List ℕ
start = b'R' ∷ b'V' ∷ b'F' ∷ []

-- `st_pos` after a byte.
unfoldable pub next_pos : ℕ → ℕ → ℕ
next_pos st_pos c =
    if c == get_or start st_pos 0 then st_pos + 1 else if c == get_or start 0 0 then 1 else 0

-- `waitForStart` from `st_pos` on: the bytes that are left.
unfoldable pub wait_for_start : ℕ → List ℕ → Option (List ℕ)
wait_for_start st_pos [] = if ltb st_pos 3 then none else some []
wait_for_start st_pos (c ∷ cs) = elim (ltb st_pos 3) [
  | true ↦ wait_for_start (next_pos st_pos c) cs
  | false ↦ some (c ∷ cs)
]

-- `readBytes`, with `left` = len - i.
unfoldable pub read_bytes : ℕ → ℕ → List ℕ → Memory → Option (List ℕ × Memory)
read_bytes zero buf input mem = some (input, mem)
read_bytes (suc left) buf [] mem = none
read_bytes (suc left) buf (c ∷ cs) mem = read_bytes left (buf + 1) cs (store mem buf c)

-- `readchar`, of the byte that comes.
unfoldable pub readchar : ℕ → ℕ
readchar c = if c == 0 then b'.' else c

-- What `readline` returns and leaves: the bytes to come, the memory, and those sent, newest first.
pub record Typed : Type 0 where
  pub pos : ℕ
  pub input : List ℕ
  pub mem : Memory
  pub sent : List ℕ

-- `buf[pos] = 0; sendstring("\n"); return pos;`
unfoldable pub end_line : ℕ → ℕ → List ℕ → Memory → List ℕ → Typed
end_line buf pos input mem sent = record {
  pos = pos;
  input = input;
  mem = store mem (buf + pos) 0;
  sent = b'\n' ∷ sent;
}

-- The loop of `readline`, on a byte more of the input each round.
unfoldable pub edit : ℕ → ℕ → ℕ → List ℕ → Memory → List ℕ → Option Typed
edit buf max pos [] mem sent =
    if ltb pos (max - 1) then none else some (end_line buf pos [] mem sent)
edit buf max pos (b ∷ input) mem sent =
    let c = readchar b in
    elim (ltb pos (max - 1)) [
      | false ↦ some (end_line buf pos (b ∷ input) mem sent)
      | true ↦ elim (c == b'\r' || c == b'\n') [
        | true ↦ some (end_line buf pos input mem sent)
        | false ↦ elim (c == 8 || c == 127) [
          | true ↦
              edit buf max (pos - 1) input mem (if ltb 0 pos then 8 ∷ b' ' ∷ 8 ∷ sent else sent)
          | false ↦ edit buf max (pos + 1) input (store mem (buf + pos) c) (c ∷ sent)
        ]
      ]
    ]

unfoldable pub readline : ℕ → ℕ → List ℕ → Memory → Option Typed
readline buf max input mem = edit buf max 0 input mem []
