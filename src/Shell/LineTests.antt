-- ===== src/Shell/LineTests.antt =====
-- A line that is typed, cut into its words, and run.
use criscv_hw.Prelude.{
  none, ◌++◌, ℕ, ◌-◌, ◌≡◌, refl, some, List, [], ◌∷◌, map, arith, get_or, ltb, if◌then◌else◌,
  Memory,
}
use criscv_hw.Prelude.Text.{codes}
use criscv_hw.Shell.Input.{readchar, readline}
use criscv_hw.Shell.World.{World, bytes_of}
use criscv_hw.Shell.Tokens.{is_blank, line_size, max_args, collect}
use criscv_hw.Shell.Texts.{split, words, TextAt}
use criscv_hw.Shell.Words.{Collected, collect-Collected}
use criscv_hw.Shell.Editor.{typed, LineIf, readline-typed}
use criscv_hw.Shell.Commands.{cd, other, command_names, shell_round}
use criscv_hw.Shell.Dispatch.{same, command_named, RoundOf, shell_round-RoundOf}
use criscv_hw.Shell.Served.{Serves, shell_round-Serves}
use criscv_hw.Shell.Rb.{force_of, rb_cmd}
use criscv_hw.Shell.RbSafe.{Handed, rb_cmd-Handed}
use criscv_hw.Shell.CardTests.{env, world}

abbrev line : Memory
line = λ x. if ltb x 100 then 0 else get_or (codes "ls\ta") (x - 100) 0

line_words : words (codes "ls\ta") ≡ codes "ls" ∷ codes "a" ∷ []
unfolding words split is_blank
line_words = refl

line-TextAt : TextAt line 100 (codes "ls\ta")
line-TextAt = record {
  bytes = (refl, omega arith, (refl, omega arith, (refl, omega arith, (refl, omega arith, tt))));
  ended = refl;
}

collect-Collected_example : Collected max_args line 100 (codes "ls\ta") (collect max_args line 100)
collect-Collected_example =
    collect-Collected max_args line 100 (codes "ls\ta") line-TextAt (omega arith)

-- "lx", a Backspace and "s", with a byte behind Return.
abbrev keys : List ℕ
keys = b'l' ∷ b'x' ∷ 8 ∷ b's' ∷ b'\r' ∷ b'q' ∷ []

types_ls : typed line_size [] keys ≡ some (codes "ls", codes "q")
unfolding typed readchar
types_ls = refl

readline-typed_example :
    LineIf 0x1FFF000 line_size (typed line_size [] keys) (readline 0x1FFF000 line_size keys line)
readline-typed_example = readline-typed 0x1FFF000 line_size keys line (omega arith)

named_cd : command_named command_names (codes "cd") ≡ cd
unfolding command_named same
named_cd = refl

named_other : command_named command_names (codes "cdx") ≡ other
unfolding command_named same
named_other = refl

abbrev typing : World ℕ Unit
typing = record world { line = map some (codes "cd x\rmt\r") }

shell_round-RoundOf_example :
    RoundOf env
      (λ mem a. 0)
      typing
      (typed line_size [] (bytes_of typing.line))
      (shell_round env (λ mem a. 0) typing)
shell_round-RoundOf_example = shell_round-RoundOf env (λ mem a. 0) typing

typing_bytes : bytes_of typing.line ≡ codes "cd x" ++ b'\r' ∷ codes "mt\r"
unfolding bytes_of
typing_bytes = refl

shell_round-Serves_example :
    Serves env
      (λ mem a. 0)
      typing
      (codes "cd x")
      (codes "mt\r")
      (shell_round env (λ mem a. 0) typing)
shell_round-Serves_example =
    shell_round-Serves env (λ mem a. 0) typing (codes "cd x") (codes "mt\r") typing_bytes
      (refl, (refl, (refl, (refl, tt)))) (omega arith)

rb_cmd-Handed_example : Handed env (force_of none typing.mem) typing (rb_cmd env none typing)
rb_cmd-Handed_example = rb_cmd-Handed env none typing
