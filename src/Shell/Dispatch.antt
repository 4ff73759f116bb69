-- ===== src/Shell/Dispatch.antt =====
-- A round of `shell` in bootbin/boot.c: from the bytes typed to the command that is run.
use criscv_hw.Prelude.{
  ℕ, ◌+◌, ◌-◌, ◌≤◌, ◌<◌, ◌≡◌, ◌⊎◌, refl, sym, ap, ◌∙◌, inl, inr, Bool, true, false, ◌&&◌, Option,
  none, some, List, [], ◌∷◌, ◌++◌, length, arith, ltb, ◌==◌, if◌then◌else◌, Memory, Outside,
}
use mathlib.Core.Path.{subst}
use criscv_hw.Prelude.Text.{codes}
use criscv_hw.Shell.Input.{Typed, readline}
use criscv_hw.Shell.Line.{IsLine, IsLineIf, readline-IsLineIf}
use criscv_hw.Shell.World.{
  World, Env, Next, resume, never, sendstring, is_word, bytes_of, skip_bytes, take_input,
}
use criscv_hw.Shell.Tokens.{line_size, max_args, collect}
use criscv_hw.Shell.Texts.{words, TextAt, TextsAt, TextAt-tail}
use criscv_hw.Shell.Words.{ArgsOf, collect-Collected}
use criscv_hw.Shell.Editor.{typed, Line, LineIf, readline-typed}
use criscv_hw.Shell.Commands.{
  Command, other, command_of, command_names, execute, dispatch_args, after_line, shell_round,
}

-- The same bytes.
unfoldable pub same : List ℕ → List ℕ → Bool
same [] [] = true
same [] (d ∷ ds) = false
same (c ∷ cs) [] = false
same (c ∷ cs) (d ∷ ds) = c == d && same cs ds

-- The command of a name, and `other` for any other text.
unfoldable pub command_named : List (List ℕ × Command) → List ℕ → Command
command_named [] text = other
command_named ((name, c) ∷ names) text = if same text name then c else command_named names text

-- No byte is a NUL.
abbrev plain : List ℕ → Bool
plain [] = true
plain (c ∷ cs) = ltb 0 c && plain cs

abbrev all_plain : List (List ℕ × Command) → Bool
all_plain [] = true
all_plain ((name, c) ∷ names) = plain name && all_plain names

TextAt-nil : (mem : Memory) (p : ℕ) → TextAt mem p [] → mem p ≡ 0
TextAt-nil mem p t = let q : p ≡ p + 0 = omega arith in rw q t.ended

is_word-same :
    (name : List ℕ) (mem : Memory) (p : ℕ) (text : List ℕ)
    → plain name ≡ true
    → TextAt mem p text
    → is_word name mem p ≡ same text name
unfolding is_word same
is_word-same [] mem p [] h t = let z = TextAt-nil mem p t in ground arith
is_word-same [] mem p (d ∷ ds) h t = ground (arith, t.bytes.0, t.bytes.1)
is_word-same (c ∷ cs) mem p [] h t = let z = TextAt-nil mem p t in ground arith
is_word-same (c ∷ cs) mem p (d ∷ ds) h t =
    rw (t.bytes.0, is_word-same cs mem (p + 1) ds (ground arith) (TextAt-tail mem p d ds t))

command_of-command_named :
    (names : List (List ℕ × Command)) (mem : Memory) (p : ℕ) (text : List ℕ)
    → all_plain names ≡ true
    → TextAt mem p text
    → command_of names mem p ≡ command_named names text
unfolding command_of command_named
command_of-command_named [] mem p text h t = refl
command_of-command_named ((name, c) ∷ names) mem p text h t =
    let e : is_word name mem p ≡ same text name = is_word-same name mem p text (ground arith) t in
    rw (e, command_of-command_named names mem p text (ground arith) t)

-- The world once a line is read: only the line's buffer, the bytes to come and the output differ.
pub record LineTaken {Fil Dir Volume : Type 0} (env : Env Fil Dir Volume) (w s : World Fil Volume)
    (left : List ℕ) : Type 0 where
  pub line_eq : s.line ≡ skip_bytes (length (bytes_of w.line) - length left) w.line
  pub mem_kept : (x : ℕ) → Outside env.line_buf line_size x → s.mem x ≡ w.mem x
  pub slots_eq : s.slots ≡ w.slots
  pub volume_eq : s.volume ≡ w.volume
  pub mounted_eq : s.sd_mounted ≡ w.sd_mounted
  pub pid_eq : s.pid ≡ w.pid
  pub led_eq : s.led ≡ w.led
  pub led_state_eq : s.led_state ≡ w.led_state

module _ {Fil Dir Volume : Type 0} (env : Env Fil Dir Volume) (ram : Memory → ℕ → ℕ) where
  -- The command of the first word, on pointers to the words.
  abbrev pub Runs : List (List ℕ) → World Fil Volume → Next (World Fil Volume) → Type 0
  Runs [] s n = n ≡ resume s
  Runs (word ∷ ws) s n =
      (p : ℕ) × (ps : List ℕ) × TextAt s.mem p word
      × TextsAt s.mem ps ws
      × (n ≡ execute env ram (command_named command_names word) p ps s)

  abbrev pub Chosen : List (List ℕ) → World Fil Volume → Next (World Fil Volume) → Type 0
  Chosen ws s n =
      ((max_args < length ws)
        × (n ≡ resume (sendstring (codes "Too many arguments (maximum 16)\n") s)))
      ⊎ ((length ws ≤ max_args) × Runs ws s n)

  abbrev pub RoundOf :
      World Fil Volume → Option (List ℕ × List ℕ) → Next (World Fil Volume) → Type 0
  RoundOf w none n = n ≡ never
  RoundOf w (some (text, left)) n =
      (s : World Fil Volume) × LineTaken env w s left × Chosen (words text) s n

  dispatch_args-Chosen :
      (argv : Option (List ℕ)) (ws : List (List ℕ)) (s : World Fil Volume)
      → ArgsOf s.mem max_args ws argv
      → Chosen ws s (dispatch_args env ram argv s)
  unfolding dispatch_args
  dispatch_args-Chosen none ws s a = inl (a, refl)
  dispatch_args-Chosen (some []) [] s a = inr (a.0, refl)
  dispatch_args-Chosen (some []) (word ∷ ws) s a = absurd a.1
  dispatch_args-Chosen (some (p ∷ ps)) [] s a = absurd a.1
  dispatch_args-Chosen (some (p ∷ ps)) (word ∷ ws) s a = inr (
    a.0,
    (
      p,
      ps,
      a.1.0,
      a.1.1,
      ap (λ c. execute env ram c p ps s)
          (command_of-command_named command_names s.mem p word refl a.1.0),
    ),
  )

  -- The world that the dispatch of a line sees.
  abbrev taken : Typed → World Fil Volume → World Fil Volume
  taken r w = record (take_input r.input w) {
    mem = (collect max_args r.mem env.line_buf).mem;
    out = r.sent ++ w.out;
  }

  taken-LineTaken :
      (r : Typed) (text left : List ℕ) (w : World Fil Volume)
      → Line env.line_buf line_size text left r
      → IsLine env.line_buf line_size w.mem r
      → LineTaken env w (taken r (sendstring (codes "> ") w)) left
  unfolding sendstring take_input
  taken-LineTaken r text left w l k =
      let c = collect-Collected max_args r.mem env.line_buf text l.at l.short in
      record {
        line_eq = ap (λ xs. skip_bytes (length (bytes_of w.line) - length xs) w.line) l.input_eq;
        mem_kept = λ x o. c.kept x (omega (arith, o, l.short)) ∙ k.kept x o;
        slots_eq = refl;
        volume_eq = refl;
        mounted_eq = refl;
        pid_eq = refl;
        led_eq = refl;
        led_state_eq = refl;
      }

  after_line-Chosen :
      (r : Typed) (text left : List ℕ) (w : World Fil Volume)
      → Line env.line_buf line_size text left r
      → Chosen (words text) (taken r w) (after_line env ram r w)
  unfolding after_line
  after_line-Chosen r text left w l =
      let c = collect-Collected max_args r.mem env.line_buf text l.at l.short in
      dispatch_args-Chosen (collect max_args r.mem env.line_buf).argv (words text) (taken r w)
        c.args

  round_of :
      (w : World Fil Volume) (t : Option (List ℕ × List ℕ)) (r : Option Typed)
      (n : Next (World Fil Volume))
      → LineIf env.line_buf line_size t r
      → IsLineIf env.line_buf line_size w.mem r
      → (r ≡ none → n ≡ never)
      → ((r' : Typed) → r ≡ some r' → n ≡ after_line env ram r' (sendstring (codes "> ") w))
      → RoundOf w t n
  round_of w none none n l k on_none on_some = on_none refl
  round_of w none (some r) n l k on_none on_some = absurd l
  round_of w (some (text, left)) none n l k on_none on_some = absurd l
  round_of w (some (text, left)) (some r) n l k on_none on_some =
      let w' : World Fil Volume = sendstring (codes "> ") w in
      (
        taken r w',
        taken-LineTaken r text left w l k,
        subst (Chosen (words text) (taken r w')) (sym (on_some r refl))
            (after_line-Chosen r text left w' l),
      )

  -- Where the editor on texts finds no end of the line, a round waits for ever. Otherwise it ends as
  -- the command does that the first word names, which is run on pointers to the words of the edited
  -- line, or it refuses more than 16 words and goes on, or goes on at an empty line; up to there only
  -- the line's buffer, the bytes to come and the output have changed.
  pub shell_round-RoundOf :
      (w : World Fil Volume)
      → RoundOf w (typed line_size [] (bytes_of w.line)) (shell_round env ram w)
  unfolding shell_round sendstring
  shell_round-RoundOf w =
      round_of w (typed line_size [] (bytes_of w.line))
        (readline env.line_buf line_size (bytes_of w.line) w.mem) (shell_round env ram w)
        (readline-typed env.line_buf line_size (bytes_of w.line) w.mem (omega arith))
        (readline-IsLineIf env.line_buf line_size (bytes_of w.line) w.mem (omega arith))
        (λ e. rw (shell_round, e)) (λ r e. rw (shell_round, e))
