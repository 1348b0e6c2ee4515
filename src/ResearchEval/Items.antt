-- ===== src/ResearchEval/Items.antt =====
-- bench/research_eval.py, split_think, execute and run_item. What `parse_tool_call` reads in a text,
-- the model server, Prometheus and the run of a documentation command are arguments.
pub mod Safe
use gpu_lab.Base.{ℕ, zero, suc, String, ◌<>◌, Bool, true, false, ◌&&◌, not}
use gpu_lab.Base.{
  Option, none, some, List, [], ◌∷◌, ◌++◌, ltb, if◌then◌else◌, ◌==◌, nat_eq, string_eq,
}
use gpu_lab.Base.{length}
use gpu_lab.Base.Text.{strip, has_part, after_prefix, chars, first_n}
use gpu_lab.ResearchEval.Commands.{allowed_argv}

-- The text behind the last `sep`.
unfoldable pub after_last : String → String → Option String
after_last sep String.[] = after_prefix sep ""
after_last sep (String.◌∷◌ c s) = elim (after_last sep s) [
  | none ↦ after_prefix sep (String.◌∷◌ c s)
  | some t ↦ some t
]

-- `split_think`
unfoldable pub split_think : String → String × Bool
unfolding after_last
split_think text = elim (after_last "</think>" text) [
  | some t ↦ (strip t, false)
  | none ↦ if has_part "<think>" text then ("", true) else (strip text, false)
]

-- The value under `command` in the arguments: a text, something that Python takes for false, or
-- another value, on which `strip` raises.
pub data Command : Type 0 where
  nothing : Command
  other : Command
  line : String → Command

pub record ParsedCall : Type 0 where
  pub name : String
  pub cmd : Command
  pub query : String
  pub prefix : String

-- What Prometheus answers: an error, or its series as one text.
pub data PromAnswer : Type 0 where
  prom_failure : String → PromAnswer
  prom_series : String → PromAnswer

pub data Outcome : Type 0 where
  executed : List String → Outcome
  failed : List String → Outcome
  refused : Outcome
  web_unavailable : Outcome
  prom_error : Outcome
  queried : Outcome

-- The part of the program that an item's run is given.
pub record Env : Type 0 where
  pub bins : List String
  pub window : ℕ
  pub max_calls : ℕ
  pub tools : Bool
  pub prom : Option (String → PromAnswer)
  pub run_doc : List String → Option String
  pub parse_tool_call : String → Option ParsedCall

abbrev refusal : String
refusal =
    "refused by eval harness: only `<tool> --help`, `<tool> -h`, "
    <> "`<tool> <subcommand> --help` and `man <page>` are permitted"

-- The output that the model gets to see.
unfoldable pub windowed : ℕ → String → String
windowed window out =
    if ltb window (chars out)
    then first_n window out <> "\n... [output truncated by eval harness]"
    else out

-- A permitted command, run.
unfoldable pub run_argv : Env → List String → String × Outcome
unfolding windowed
run_argv env argv = elim (env.run_doc argv) [
  | none ↦ ("command failed or timed out", failed argv)
  | some out ↦ (windowed env.window out, executed argv)
]

-- The bash tool, `none` where an exception escapes.
unfoldable pub run_bash : Env → Command → Option (String × Outcome)
unfolding run_argv
run_bash env other = none
run_bash env nothing = elim (allowed_argv env.bins "") [
  | none ↦ some (refusal, refused)
  | some argv ↦ some (run_argv env argv)
]
run_bash env (line s) = elim (allowed_argv env.bins s) [
  | none ↦ some (refusal, refused)
  | some argv ↦ some (run_argv env argv)
]

unfoldable pub ask_prom : Env → PromAnswer → String × Outcome
ask_prom env (prom_failure e) = ("error: " <> e, prom_error)
ask_prom env (prom_series out) = (first_n env.window out, queried)

-- `execute`
unfoldable pub execute : Env → ParsedCall → Option (String × Outcome)
unfolding run_bash ask_prom
execute env t =
    let here =
      if t.name == "web_search"
      then some ("web_search is unavailable in this evaluation.", web_unavailable)
      else run_bash env t.cmd in
    elim env.prom [
      | none ↦ here
      | some ask ↦ if t.name == "promql" then some (ask_prom env (ask t.query)) else here
    ]

pub data ChatMessage : Type 0 where
  user : String → ChatMessage
  assistant : String → ParsedCall → ChatMessage
  tool : String → ChatMessage

-- What the server makes of the messages: an exception, no room left in the context, or a text, with
-- whether it was cut off.
pub data Exchange : Type 0 where
  raises : Exchange
  full : Exchange
  completed : String → Bool → Exchange

pub data ItemStatus : Type 0 where
  answered : ItemStatus
  truncated : ItemStatus
  truncated_in_think : ItemStatus
  context_exhausted : ItemStatus
  call_limit : ItemStatus
  error : ItemStatus

pub record CallRecord : Type 0 where
  pub call : ParsedCall
  pub outcome : Outcome

pub record ItemRun : Type 0 where
  pub status : ItemStatus
  pub final : Option String
  pub calls : List CallRecord

-- The end of a run whose text has no tool call.
abbrev pub finish : Bool → Bool → String → List CallRecord → ItemRun
finish open_think cut visible calls =
    if open_think
    then record { status = truncated_in_think; final = none; calls = calls }
    else if cut
    then record { status = truncated; final = some visible; calls = calls }
    else record { status = answered; final = some visible; calls = calls }

abbrev pub ended : ItemStatus → List CallRecord → ItemRun
ended status calls = record { status = status; final = none; calls = calls }

-- The tool call of a text, if the model has tools and makes one.
unfoldable pub call_in : Env → String → Option ParsedCall
call_in env visible = if env.tools then env.parse_tool_call visible else none

-- The rounds of an item while `left` calls may still be made.
unfoldable pub rounds :
    Env → (List ChatMessage → Exchange) → ℕ → List ChatMessage → List CallRecord → ItemRun
unfolding split_think execute call_in
rounds env model zero messages calls = elim (model messages) [
  | raises ↦ ended error calls
  | full ↦ ended context_exhausted calls
  | completed text cut ↦
      let (visible, open_think) = split_think text in
      elim (call_in env visible) [
        | none ↦ finish open_think cut visible calls
        | some t ↦ ended call_limit calls
      ]
]
rounds env model (suc left) messages calls = elim (model messages) [
  | raises ↦ ended error calls
  | full ↦ ended context_exhausted calls
  | completed text cut ↦
      let (visible, open_think) = split_think text in
      elim (call_in env visible) [
        | none ↦ finish open_think cut visible calls
        | some t ↦ elim (execute env t) [
          | none ↦ ended error calls
          | some (result, outcome) ↦
              rounds env model left (messages ++ (assistant t.prefix t ∷ tool result ∷ []))
                (calls ++ (record { call = t; outcome = outcome } ∷ []))
        ]
      ]
]

-- `run_item`
unfoldable pub run_item : Env → (List ChatMessage → Exchange) → String → ItemRun
unfolding rounds
run_item env model question = rounds env model env.max_calls (user question ∷ []) []
