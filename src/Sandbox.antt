-- ===== src/Sandbox.antt =====
-- sandbox/base.py: the contract of the runner of commands, and what a command came to. The
-- backends run processes and are not modelled: a runner acts on a `World`, as a provider does, and
-- what it raises is kept as a text.
use pullsmith.Common.{
  ℕ, ◌⊎◌, String, Bool, false, Option, none, List, [], ◌∷◌, ◌++◌, not, ◌&&◌, ltb, if◌then◌else◌, ℤ,
  int_eq, show_int, show, ◌<>◌, join, strip, is_blank, last_text, text_length,
}

pub record ExecResult : Type 0 where
  pub argv : List String
  pub exit_code : ℤ
  pub stdout : String
  pub stderr : String
  pub duration_ms : ℕ
  pub timed_out : Bool

unfoldable pub is_ok : ExecResult → Bool
is_ok result = int_eq result.exit_code 0 && not result.timed_out

-- The tail of a stream that is longer than the limit.
unfoldable tail_of : (limit : ℕ) → String → String
unfolding text_length last_text
tail_of limit stream = if ltb limit (text_length stream) then last_text limit stream else stream

unfoldable stream_part : (title stream : String) → List String
unfolding is_blank strip
stream_part title stream =
    if is_blank stream then [] else ("--- " <> title <> " ---\n" <> strip stream) ∷ []

unfoldable pub summary : (limit : ℕ) → ExecResult → String
unfolding join tail_of stream_part show show_int
summary limit result =
    let status = if result.timed_out then "timed out" else "exit " <> show_int result.exit_code in
    join "\n" (
      ("$ " <> join " " result.argv)
        ∷ ("(" <> status <> ", " <> show result.duration_ms <> "ms)")
        ∷ stream_part "stdout" (tail_of limit result.stdout)
      ++ stream_part "stderr" (tail_of 2000 result.stderr))

pub record SandboxSpec : Type 0 where
  pub workspace : List String
  pub language : Option String
  pub install_command : Option String
  pub network_enabled : Bool

-- `SandboxSpec(workspace=workspace)`; the environment and the limits of the machine are left out.
abbrev pub spec_for : List String → SandboxSpec
spec_for workspace = record {
  workspace = workspace;
  language = none;
  install_command = none;
  network_enabled = false;
}

pub record SandboxRunner (World : Type 0) : Type 0 where
  pub prepare : SandboxSpec → World → (String ⊎ Unit {0}) × World
  pub run : (argv : List String) → (timeout : ℕ) → World → (String ⊎ ExecResult) × World
  pub cleanup : World → (String ⊎ Unit {0}) × World
