-- ===== src/Shell/Commands.antt =====
-- bootbin/boot.c: `shell`, `sys_exit` and `main`.
use criscv_hw.Prelude.{
  ℕ, zero, suc, ◌+◌, Option, none, some, List, [], ◌∷◌, ◌++◌, length, if◌then◌else◌, Memory,
}
use criscv_hw.Prelude.Words.{store_dword}
use criscv_hw.Prelude.Text.{codes}
use criscv_hw.Shell.Input.{Typed, readline}
use criscv_hw.Shell.World.{
  World, Env, Next, resume, restart, never, sendstring, bytes_of, take_input, is_word,
}
use criscv_hw.Shell.Upload.{debug_add1}
use criscv_hw.Shell.Card.{sd_mount, ls_cmd, cd_cmd, pwd_cmd, cat_cmd}
use criscv_hw.Shell.SdLoad.{run_cmd, load_cmd}
use criscv_hw.Shell.MemTest.{mt_cmd}
use criscv_hw.Shell.Rb.{rb_cmd, upload_loop}
use criscv_hw.Shell.Tokens.{collect, line_size, max_args}

pub data Command : Type 0 where
  ls cd pwd cat run load mount upload rb mt help other : Command

-- The tests of the command's name, in their order.
abbrev pub command_names : List (List ℕ × Command)
command_names =
    (codes "ls", ls)
    ∷ (codes "cd", cd)
    ∷ (codes "pwd", pwd)
    ∷ (codes "cat", cat)
    ∷ (codes "run", run)
    ∷ (codes "load", load)
    ∷ (codes "mount", mount)
    ∷ (codes "upload", upload)
    ∷ (codes "rb", rb)
    ∷ (codes "mt", mt)
    ∷ (codes "help", help)
    ∷ []

unfoldable pub command_of : List (List ℕ × Command) → Memory → ℕ → Command
command_of [] mem cmd = other
command_of ((name, c) ∷ names) mem cmd =
    if is_word name mem cmd then c else command_of names mem cmd

abbrev pub greeting : List ℕ
greeting = codes "CRISC-V Bootloader v0.4 - RV32I (YMODEM, SD)\n"

abbrev pub help_text : List ℕ
help_text =
    codes
      "Commands: ls [dir] cd pwd cat run <program> [args...] load mount upload rb [p|d] mt help\n"

-- `argc > 1 ? argv[1] : 0`
abbrev pub first_arg : List ℕ → Option ℕ
first_arg [] = none
first_arg (arg ∷ args) = some arg

abbrev pub resume_or_never : {W : Type 0} → Option W → Next W
resume_or_never none = never
resume_or_never (some w) = resume w

abbrev pub debug_add2 : ℕ
debug_add2 = 0x3E04

-- The inner loop of `main` that counts on the debug words, with `left` rounds to go.
unfoldable pub count_x : ℕ → ℕ → ℕ → Memory → Memory
count_x zero i x mem = mem
count_x (suc left) i x mem =
    count_x left i (x + 1) (store_dword debug_add2 x (store_dword debug_add1 i mem))

unfoldable pub debug_marks : Memory → Memory
debug_marks mem = store_dword debug_add1 0x77EE (store_dword debug_add2 0x55FF mem)

abbrev pub banner : List ℕ
banner =
    codes "  ___ ___ ___ ___ ___     __   __\n"
    ++ (codes " / __| _ \\_ _/ __/ __|____\\ \\ / /   RV32I \n"
        ++ (codes "| (__|   /| |\\__ \\ (_|_____\\ V /    0.1\n"
            ++ (codes " \\___|_|_\\___|___/\\___|     \\_/ \n"
                ++ codes "Stdfn (v0.1) ECALL Available\n")))

module _ {Fil Dir Volume : Type 0} (env : Env Fil Dir Volume) (ram : Memory → ℕ → ℕ) where
  -- The command at `cmd`, with the arguments behind it.
  unfoldable pub execute : Command → ℕ → List ℕ → World Fil Volume → Next (World Fil Volume)
  execute ls cmd args w = resume_or_never (ls_cmd env (first_arg args) w)
  execute cd cmd [] w = resume (sendstring (codes "cd: missing argument\n") w)
  execute cd cmd (arg ∷ args) w = resume (cd_cmd env arg w)
  execute pwd cmd args w = resume (pwd_cmd env w)
  execute cat cmd [] w = resume (sendstring (codes "cat: missing filename\n") w)
  execute cat cmd (arg ∷ args) w = resume_or_never (cat_cmd env arg w)
  execute run cmd [] w = resume (sendstring (codes "run: missing filename\n") w)
  execute run cmd (arg ∷ args) w = run_cmd env arg (arg ∷ args) w
  execute load cmd [] w = resume (sendstring (codes "load: missing filename\n") w)
  execute load cmd (arg ∷ args) w = load_cmd env arg w
  execute mount cmd args w = resume (sd_mount env w)
  execute upload cmd args w = upload_loop env w
  execute rb cmd args w = rb_cmd env (first_arg args) w
  execute mt cmd args w = resume_or_never (mt_cmd ram w)
  execute help cmd args w = resume (sendstring help_text w)
  execute other cmd args w = run_cmd env cmd (cmd ∷ args) w

  -- A line that is cut into arguments.
  unfoldable pub dispatch_args : Option (List ℕ) → World Fil Volume → Next (World Fil Volume)
  dispatch_args none w = resume (sendstring (codes "Too many arguments (maximum 16)\n") w)
  dispatch_args (some []) w = resume w
  dispatch_args (some (cmd ∷ args)) w = execute (command_of command_names w.mem cmd) cmd args w

  -- A line that was typed.
  unfoldable pub after_line : Typed → World Fil Volume → Next (World Fil Volume)
  after_line r w =
      let parsed = collect max_args r.mem env.line_buf in
      dispatch_args parsed.argv
        (record (take_input r.input w) { mem = parsed.mem; out = r.sent ++ w.out })

  -- A round of the loop of `shell`.
  unfoldable pub shell_round : World Fil Volume → Next (World Fil Volume)
  shell_round w =
      let w' = sendstring (codes "> ") w in
      elim (readline env.line_buf line_size (bytes_of w'.line) w'.mem) [
        | none ↦ never
        | some r ↦ after_line r w'
      ]

  -- The loop up to the round in which it waits, or a program runs, for ever: the world before that
  -- round. On fuel for the rounds.
  -- `sys_exit` calls `shell` anew.
  unfoldable pub shell_loop : ℕ → World Fil Volume → World Fil Volume
  shell_loop zero w = w
  shell_loop (suc fuel) w = elim (shell_round w) [
    | resume w' ↦ shell_loop fuel w'
    | restart w' ↦ shell_loop fuel (sendstring greeting w')
    | never ↦ w
  ]

  -- Each round takes a byte off the line.
  unfoldable pub shell : World Fil Volume → World Fil Volume
  shell w = shell_loop (suc (length (bytes_of w.line))) (sendstring greeting w)

  -- The outer loop, with the LED at its last round.
  unfoldable pub count_i : ℕ → ℕ → World Fil Volume → World Fil Volume
  count_i zero i w = w
  count_i (suc left) i w =
      count_i left (i + 1) (record w { mem = debug_marks (count_x 62500 i 0 w.mem); led = i })

  -- `main` up to the call of `shell`.
  unfoldable pub start : World Fil Volume → World Fil Volume
  start w =
      let w1 = record w {
        mem = store_dword debug_add1 0x77EE (store_dword debug_add2 0x55FF w.mem);
        pid = 0;
      } in
      sd_mount env (sendstring banner (record (count_i 16 0 w1) { led = 3 }))

  unfoldable pub main : World Fil Volume → World Fil Volume
  main w = shell (start w)
