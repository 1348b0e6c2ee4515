-- ===== src/AgentAb/Codex.antt =====
-- bench/agent_ab.py, run_codex: what the log of `codex exec` and its exit code make of a run.
pub mod Answered
use Prim.Native.String.{String}
use gpu_lab.Base.{ℕ, ◌<>◌, Bool, true, false, ◌&&◌, ◌||◌, not}
use gpu_lab.Base.{
  Option, none, some, List, [], ◌∷◌, if◌then◌else◌, ◌==◌, nat_eq, string_eq, any, length,
}
use gpu_lab.Base.Text.{has_part}
use gpu_lab.AgentAb.Loop.{Status, answered, timeout, infra}

-- A line of the log: no JSON, or an event with its type, the type and command of its item, and the
-- event as text, cut to 500 characters. A line of JSON that is no object, at which the code raises,
-- is none of them.
pub data LogLine : Type 0 where
  no_json : LogLine
  event : String → Option String → Option String → String → LogLine

-- The status of a run of codex: one of those of the loop, or a failure of its own.
pub data CodexStatus : Type 0 where
  as_loop : Status → CodexStatus
  failed : CodexStatus

abbrev pub is_item : Option String → Bool
is_item none = false
is_item (some t) = t == "command_execution"

unfoldable pub commands : List LogLine → List (Option String)
commands [] = []
commands (no_json ∷ ls) = commands ls
commands (event t item command text ∷ ls) =
    let rest = commands ls in if t == "item.completed" && is_item item then command ∷ rest else rest

unfoldable pub errors : List LogLine → List String
errors [] = []
errors (no_json ∷ ls) = errors ls
errors (event t item command text ∷ ls) =
    let rest = errors ls in if t == "turn.failed" || t == "error" then text ∷ rest else rest

-- " ".join(texts)
unfoldable pub joined : List String → String
joined [] = ""
joined (t ∷ []) = t
joined (t ∷ u ∷ ts) = t <> " " <> joined (u ∷ ts)

-- The status of `run_codex`.
unfoldable pub codex_status : ℕ → List String → CodexStatus
unfolding joined
codex_status rc errs =
    if rc == 124 || rc == 137
    then as_loop timeout
    else if not (length errs == 0) || not (rc == 0)
    then (if any (λ s. has_part s (joined errs)) ("onnect" ∷ " 50" ∷ "disconnected" ∷ [])
        then as_loop infra
        else failed)
    else as_loop answered

pub record CodexRun : Type 0 where
  pub status : CodexStatus
  pub final : String
  pub calls : List (Option String)
  pub rc : ℕ
  pub errors : List String

-- `run_codex`, from the exit code, the log and the last message, if one was written.
unfoldable pub run_codex : ℕ → List LogLine → Option String → CodexRun
unfolding codex_status commands errors
run_codex rc log last =
    let errs = errors log in
    record {
      status = codex_status rc errs;
      final = elim last [ none ↦ "" | some t ↦ t ];
      calls = commands log;
      rc = rc;
      errors = errs;
    }
