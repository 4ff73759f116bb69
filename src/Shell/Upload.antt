-- ===== src/Shell/Upload.antt =====
-- bootbin/boot.c: `load`, which takes a program or data file from the serial line.
use criscv_hw.Prelude.{
  ℕ, ◌+◌, ◌/◌, ◌%◌, ◌^◌, Option, none, some, List, [], ◌∷◌, ◌==◌, ltb, true, false, if◌then◌else◌,
  bit_xor,
}
use criscv_hw.Prelude.Words.{store_dword, word_at}
use criscv_hw.Prelude.Text.{codes}
use criscv_hw.Shell.Input.{wait_for_start, read_bytes}
use criscv_hw.Shell.World.{
  World, sendchar, sendstring, setled, poke, bytes_of, take_input, type_at, name_at, length_at,
  prog_base,
}

abbrev pub debug_add1 : ℕ
debug_add1 = 0x3E00

-- Where a file that is announced as data goes.
abbrev pub load_data_base : ℕ
load_data_base = 0xC00000

-- `load_ram_base` and the byte that answers, by the type.
unfoldable pub load_base : ℕ → ℕ
load_base type = if type == 1 then load_data_base else prog_base

unfoldable pub load_mark : ℕ → ℕ
load_mark type = if type == 0 then b'p' else if type == 1 then b'f' else b'?'

module _ {Fil Volume : Type 0} where
  -- `readBytes` of `n` bytes to the address `p`.
  unfoldable pub read_field : ℕ → ℕ → World Fil Volume → Option (World Fil Volume)
  read_field n p w = elim (read_bytes n p (bytes_of w.line) w.mem) [
    | none ↦ none
    | some (left, mem) ↦ some (record (take_input left w) { mem = mem })
  ]

  -- The loop over the bytes of the file. Each round reads fileHeader.length anew.
  unfoldable pub load_loop :
      ℕ → ℕ → ℕ → ℕ → ℕ → List ℕ → World Fil Volume → Option (List ℕ × World Fil Volume)
  load_loop header i perc_count perc_top base [] w =
      if ltb i (word_at w.mem (length_at header)) then none else some ([], w)
  load_loop header i perc_count perc_top base (c ∷ input) w =
      elim (ltb i (word_at w.mem (length_at header))) [
        | false ↦ some (c ∷ input, w)
        | true ↦
            load_loop header (i + 1) (if perc_count + 1 == perc_top then 0 else perc_count + 1)
              perc_top base input
              (if perc_count + 1 == perc_top
                then sendchar b'X' (poke (base + i) c w)
                else poke (base + i) c w)
      ]

  -- The end of `load`.
  unfoldable pub load_done : List ℕ × World Fil Volume → World Fil Volume
  load_done (input, w) =
      sendstring (codes " recieved\n")
        (setled (record (sendchar b'\n' (take_input input w)) { led_state = 4 }))

  -- The file behind its header.
  unfoldable pub load_file : ℕ → World Fil Volume → Option (World Fil Volume)
  load_file header w =
      let len = word_at w.mem (length_at header) in
      let type = w.mem (type_at header) in
      let w' = sendchar (load_mark type) w in
      let w'' = record w' { mem = store_dword debug_add1 ((len + 3) % 2 ^ 32) w'.mem } in
      elim (load_loop header 0 0 (len / 2 ^ 5) (load_base type) (bytes_of w''.line) w'') [
        | none ↦ none
        | some r ↦ some (load_done r)
      ]

  -- The header behind "RVF".
  unfoldable pub load_header : ℕ → World Fil Volume → Option (World Fil Volume)
  load_header header w = elim (read_field 1 (type_at header) w) [
    | none ↦ none
    | some w1 ↦ elim (read_field 20 (name_at header) w1) [
      | none ↦ none
      | some w2 ↦ elim (read_field 4 (length_at header) w2) [
        | none ↦ none
        | some w3 ↦ load_file header w3
      ]
    ]
  ]

  -- `load`, which always answers 0.
  unfoldable pub load : ℕ → World Fil Volume → Option (World Fil Volume)
  load header w =
      let w1 = sendstring (codes "Waiting for file\n") w in
      elim (wait_for_start 0 (bytes_of w1.line)) [
        | none ↦ none
        | some left ↦
            load_header header
              (setled (record (take_input left w1) { led_state = bit_xor w1.led_state 0x08 }))
      ]
