-- ===== src/AgentAb/Examples.antt =====
-- Small runs of the harness comparison, and the theorems at them.
mod Setup
use gpu_lab.Base.{
  ℕ, zero, suc, ◌==◌, ◌≤◌, String, true, false, ◌&&◌, ◌≡◌, refl, subst, Option, none, some, List,
  [], ◌∷◌,
}
use gpu_lab.Base.{arith, leb, count_if, string_eq, nat_eq, if◌then◌else◌, ◌*◌}
use gpu_lab.Base.Text.{strip, split}
use gpu_lab.AgentAb.Loop.{
  ToolCall, Event, Run, replied, expired, command, run_loop, batch, record_result,
}
use gpu_lab.AgentAb.Loop.{result_of, on_reply, round, loop, timeout, user, assistant, tool, turn}
use gpu_lab.AgentAb.Loop.Bounds.{IsRun, run_loop-IsRun, run_loop_ends}
use gpu_lab.AgentAb.Plan.{
  Options, Slot, slot, groups, arms, mode_arms, concat, turned, group_slots, pass_slots, passes,
  plan,
}
use gpu_lab.AgentAb.Plan.Once.{count, is_slot, arm_count, plan_once}
use gpu_lab.AgentAb.Runs.{Row, Attempt, cmd_run, run_slots, done_keys, row_of}
use gpu_lab.Base.{map, Bool}
use gpu_lab.Base.Dict.{lookup, insert}
use gpu_lab.AgentAb.Summary.{
  Amendment, fix, amended, add_pass, by_arm, is_short, verdict_of, summary,
}
use gpu_lab.AgentAb.Summary.Passes.{runs_of}
use gpu_lab.AgentAb.Summary.Majority.{IsMajority, summary-IsMajority}
use gpu_lab.AgentAb.Preflight.{
  partition, add_line, read_onto, read_probe, text_complaints, preflight,
}
use gpu_lab.AgentAb.Preflight.Walls.{IsWalled, preflight-IsWalled}
use gpu_lab.Base.Text.{cut, int_of, has_part, cut_suffix}
use gpu_lab.Base.{◌↔◌, any}
use gpu_lab.AgentAb.Loop.{answered, infra}
use gpu_lab.AgentAb.Codex.{
  LogLine, no_json, event, as_loop, errors, joined, codex_status, run_codex,
}
use gpu_lab.AgentAb.Codex.Answered.{is_trouble, run_codex-answered}
use gpu_lab.AgentAb.Runs.Resume.{is_valid, is_good, cmd_run_once, cmd_run_again}
use gpu_lab.AgentAb.Arms.{bad_arm, check_args, model_of, ready, value_error, read_arm}
use gpu_lab.AgentAb.Arms.Accepted.{Reads, check_args-accepts}
use gpu_lab.AgentAb.Sandbox.{hide_list}
use gpu_lab.AgentAb.Sandbox.Hidden.{Covered, IsBeneath, hide_list-covers}
use gpu_lab.Base.{not, All, ◌⊎◌, ◌++◌}
use gpu_lab.Base.Sorting.{sorted, distinct, str_le}
use gpu_lab.Base.Text.{starts_with, pieces}

abbrev ls : ToolCall
ls = record {
  id = some "c1";
  name = "bash";
  arguments = command "ls";
  output = some "a\n[exit code 0]";
}

abbrev events : List Event
events =
    replied (record { tool_calls = ls ∷ ls ∷ []; cut_off = false; content = none }) ∷ expired ∷ []

abbrev ended : Run
ended = record {
  status = timeout;
  final = "";
  vars = record {
    calls = ls ∷ ls ∷ [];
    turns = turn 2 ∷ [];
    messages =
        user "go"
        ∷ assistant none (ls ∷ ls ∷ [])
        ∷ tool "c1" "a\n[exit code 0]"
        ∷ tool "c1" "a\n[exit code 0]"
        ∷ [];
  };
}

ends : run_loop "go" events ≡ some ended
unfolding run_loop loop round on_reply batch record_result result_of string_eq nat_eq
ends = refl

run_loop-IsRun_example : IsRun 2 ended
run_loop-IsRun_example = run_loop-IsRun "go" events 2 ended refl ends

abbrev asking : ℕ → List Event
asking zero = []
asking (suc n) =
    replied (record { tool_calls = ls ∷ []; cut_off = false; content = none }) ∷ asking n

run_loop_ends_example : (r : Run) × (run_loop "go" (asking 61) ≡ some r)
run_loop_ends_example = run_loop_ends "go" (asking 61) (ground arith)

abbrev two_passes : Options
two_passes = record { modes = "off,on"; arms = "codex-g6u-on, loop-g6u-on"; reps = 2 }

abbrev tasks : List String
tasks = "t1" ∷ "t2" ∷ []

abbrev order : List Slot
order =
    slot 1 "t1" "codex-g6u-on"
    ∷ slot 1 "t1" "loop-g6u-on"
    ∷ slot 1 "t2" "loop-g6u-on"
    ∷ slot 1 "t2" "codex-g6u-on"
    ∷ slot 2 "t1" "codex-g6u-on"
    ∷ slot 2 "t1" "loop-g6u-on"
    ∷ slot 2 "t2" "loop-g6u-on"
    ∷ slot 2 "t2" "codex-g6u-on"
    ∷ []

planned : plan two_passes tasks (λ rep ts. ts) ≡ some order
unfolding plan groups arms passes pass_slots group_slots turned concat mode_arms string_eq nat_eq
    strip split
planned = refl

plan_once_example : count_if (is_slot 2 "t1" "loop-g6u-on") order ≡ (
    if leb 1 2 && leb 2 2
    then count "t1" tasks * arm_count "loop-g6u-on" (groups two_passes)
    else 0)
plan_once_example =
    plan_once two_passes tasks (λ rep ts. ts) order 2 "t1" "loop-g6u-on" (λ rep t. refl) planned

-- The server dies under the first run, and the program is stopped at the third.
abbrev attempt : Slot → Option Attempt
attempt s =
    if s.task == "t1"
    then some
        (record { status = "answered"; calls = 3; healthy = s.arm == "loop-g6u-on"; graded = true })
    else none

abbrev fine : Attempt
fine = record { status = "answered"; calls = 3; healthy = true; graded = true }

abbrev works : Slot → Option Attempt
works s = some fine

works_well : (s : Slot) (x : Attempt) → works s ≡ some x → is_good x ≡ true
unfolding string_eq
works_well s x e =
    let p : fine ≡ x = cc e in
    let q : is_good fine ≡ true = refl in subst (λ a. is_good a ≡ true) p q

abbrev interrupted : List Row
interrupted = (cmd_run attempt order []).0

cmd_run_once_example :
    count_if (is_valid (slot 1 "t1" "loop-g6u-on")) (cmd_run works order interrupted).0 ≤ 1
unfolding cmd_run run_slots done_keys row_of string_eq nat_eq
cmd_run_once_example =
    cmd_run_once works order interrupted (slot 1 "t1" "loop-g6u-on") (ground arith) (ground arith)

cmd_run_again_example :
    cmd_run attempt order (cmd_run works order interrupted).0
    ≡ ((cmd_run works order interrupted).0, true)
unfolding cmd_run run_slots done_keys row_of string_eq nat_eq
cmd_run_again_example = cmd_run_again works attempt order interrupted works_well refl

abbrev graded : ℕ → Bool → Row
graded rep ok = record {
  slot = slot rep "t1" "codex-g6u-on";
  passed = ok;
  status = "answered";
  calls = 1;
}

abbrev file : List Row
file = graded 1 true ∷ graded 2 false ∷ graded 3 false ∷ []

-- The second replicate is graded again, as a pass.
abbrev regrade : Amendment
regrade = record { slot = slot 2 "t1" "codex-g6u-on"; passed = true }

two_of_three : summary 3 (regrade ∷ []) [] file "codex-g6u-on" "t1" ≡ some true
unfolding summary verdict_of is_short by_arm add_pass amended fix lookup insert string_eq nat_eq
two_of_three = refl

summary-IsMajority_example :
    IsMajority 3 (λ a. runs_of [] a "t1" (map (amended (regrade ∷ [])) file)) "codex-g6u-on" true
summary-IsMajority_example =
    summary-IsMajority 3 (regrade ∷ []) [] file "codex-g6u-on" "t1" true two_of_three

abbrev probe : String
probe =
    "uid=997\nsocket=shut\nrunner=separate\nsecrets=0\nrunnerenv=0\npids=412\ngpus=1\n\n[exit code 0]"

probe_passes : preflight "997" false probe ≡ some []
unfolding preflight read_probe read_onto add_line partition text_complaints lookup insert string_eq
    nat_eq split cut strip int_of has_part cut_suffix
probe_passes = refl

preflight-IsWalled_example : IsWalled "997" false probe
preflight-IsWalled_example = preflight-IsWalled "997" false probe probe_passes

abbrev log : List LogLine
log =
    no_json
    ∷ event "item.completed" (some "command_execution") (some "ls") "{}"
    ∷ event "turn.failed" none none "{\"message\": \"stream disconnected\"}"
    ∷ []

dropped : (run_codex 1 log none).status ≡ as_loop infra
unfolding run_codex codex_status errors joined has_part string_eq nat_eq
dropped = refl

run_codex-answered_example :
    ((run_codex 1 log none).status ≡ as_loop answered)
    ↔ ((◌≡◌ {A = ℕ} 1 0) × (any is_trouble log ≡ false))
run_codex-answered_example = run_codex-answered 1 log none
