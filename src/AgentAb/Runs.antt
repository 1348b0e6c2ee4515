-- ===== src/AgentAb/Runs.antt =====
-- bench/agent_ab.py, cmd_run: the runs of the plan that results.jsonl does not have yet. What a run
-- gives is an argument: `none` where the program ends there, because it is killed or the server
-- stays unhealthy.
pub mod Resume
use gpu_lab.Base.{ℕ, String, Bool, true, false, ◌&&◌, ◌||◌, not}
use gpu_lab.Base.{
  Option, none, some, List, [], ◌∷◌, ◌++◌, map, if◌then◌else◌, ◌==◌, nat_eq, string_eq,
}
use gpu_lab.Base.{keep, any}
use gpu_lab.AgentAb.Plan.{Slot}

-- A line of results.jsonl.
pub record Row : Type 0 where
  pub slot : Slot
  pub passed : Bool
  pub status : String
  pub calls : ℕ

-- What one run gives: the harness's result, the server's health afterwards, and the grade.
pub record Attempt : Type 0 where
  pub status : String
  pub calls : ℕ
  pub healthy : Bool
  pub graded : Bool

abbrev pub same_slot : Slot → Slot → Bool
same_slot k s = k.task == s.task && k.arm == s.arm && k.rep == s.rep

-- `done_keys`
unfoldable pub done_keys : List Row → List Slot
done_keys rows = map (λ r. r.slot) (keep (λ r. not (r.status == "infra")) rows)

abbrev pub in_keys : List Slot → Slot → Bool
in_keys done s = any (same_slot s) done

-- The line that a run adds.
unfoldable pub row_of : Slot → Attempt → Row
row_of s x = record {
  slot = s;
  passed = x.graded;
  status = if x.healthy then x.status else "infra";
  calls = x.calls;
}

-- The lines that the rest of the plan adds, with whether the plan was finished.
unfoldable pub run_slots : (Slot → Option Attempt) → List Slot → List Slot → List Row × Bool
unfolding row_of
run_slots attempt done [] = ([], true)
run_slots attempt done (s ∷ ss) =
    let (rows, finished) = run_slots attempt done ss in
    if in_keys done s
    then (rows, finished)
    else (elim (attempt s) [ none ↦ ([], false) | some x ↦ (row_of s x ∷ rows, finished) ])

-- `cmd_run` on the lines that are there: the lines afterwards, and whether it got to the end.
unfoldable pub cmd_run : (Slot → Option Attempt) → List Slot → List Row → List Row × Bool
unfolding run_slots done_keys
cmd_run attempt plan rows =
    let (added, finished) = run_slots attempt (done_keys rows) plan in (rows ++ added, finished)
