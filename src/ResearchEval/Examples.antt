-- ===== src/ResearchEval/Examples.antt =====
-- Commands that a model may write, a short item, and the theorems at them.
use gpu_lab.Base.{String, true, false, ◌≡◌, refl, none, some, List, [], ◌∷◌, string_eq, nat_eq}
use gpu_lab.Base.Text.{cut_suffix}
use gpu_lab.ResearchEval.Commands.{
  shlex_split, tokens, advance, outside, without_redirect, is_allowed, allowed_argv,
}
use gpu_lab.ResearchEval.Commands.{is_page, is_number, is_subcommand}
use gpu_lab.ResearchEval.Commands.Harmless.{is_harmless, allowed_argv-harmless}
use gpu_lab.ResearchEval.Items.{Env, line, completed, run_item}
use gpu_lab.ResearchEval.Items.Safe.{IsItemRun, run_item-IsItemRun}

quoted : shlex_split "a 'b c'\"d\\\"\" \\ e" ≡ some ("a" ∷ "b cd\"" ∷ " e" ∷ [])
unfolding shlex_split tokens advance outside nat_eq
quoted = refl

open_quote : shlex_split "man 'ls" ≡ none
unfolding shlex_split tokens advance outside nat_eq
open_quote = refl

abbrev bins : List String
bins = "git" ∷ "ls" ∷ []

log_help : allowed_argv bins " git log --help 2>&1 " ≡ some ("git" ∷ "log" ∷ "--help" ∷ [])
unfolding allowed_argv without_redirect shlex_split tokens advance outside is_allowed is_page
    is_number is_subcommand cut_suffix nat_eq string_eq
log_help = refl

no_pipe : allowed_argv bins "ls --help | sh" ≡ none
unfolding allowed_argv without_redirect shlex_split tokens advance outside is_allowed is_page
    is_number cut_suffix nat_eq string_eq
no_pipe = refl

allowed_argv-harmless_example : is_harmless bins ("git" ∷ "log" ∷ "--help" ∷ []) ≡ true
allowed_argv-harmless_example =
    allowed_argv-harmless bins " git log --help 2>&1 " ("git" ∷ "log" ∷ "--help" ∷ []) log_help

-- The model asks for the help of ls for ever.
abbrev env : Env
env = record {
  bins = bins;
  window = 4;
  max_calls = 3;
  tools = true;
  prom = none;
  run_doc = λ argv. some "usage: ls";
  parse_tool_call = λ s. some (record { name = "bash"; cmd = line s; query = ""; prefix = "" });
}

run_item-IsItemRun_example :
    IsItemRun bins 3 (run_item env (λ ms. completed "<think>x</think> ls -h" false) "q")
run_item-IsItemRun_example =
    run_item-IsItemRun env (λ ms. completed "<think>x</think> ls -h" false) "q"
