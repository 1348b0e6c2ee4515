-- ===== src/AgentAb/Summary.antt =====
-- bench/agent_ab.py, cmd_summary: amendments, voids, the majority of the replicates, and the pairs of
-- arms. The sign-flip test draws random numbers and is left out.
pub mod Passes
pub mod Majority
use gpu_lab.Base.{ℕ, ◌+◌, ◌*◌, String, Bool, true, false, ◌&&◌, ◌||◌, not}
use gpu_lab.Base.{
  Option, none, some, List, [], ◌∷◌, ◌++◌, map, ltb, if◌then◌else◌, ◌==◌, nat_eq, string_eq,
  bool_eq,
}
use gpu_lab.Base.{length, keep, count_if, any, contains}
use gpu_lab.Base.Dict.{Dict, lookup, insert, keys, has_key}
use gpu_lab.AgentAb.Plan.{Slot}
use gpu_lab.AgentAb.Runs.{Row, same_slot}

-- A regrade of amend.jsonl; the last one of a slot counts.
pub record Amendment : Type 0 where
  pub slot : Slot
  pub passed : Bool

unfoldable pub fix : List Amendment → Slot → Option Bool
fix [] s = none
fix (a ∷ later) s = elim (fix later s) [
  | some p ↦ some p
  | none ↦ if same_slot s a.slot then some a.passed else none
]

unfoldable pub amended : List Amendment → Row → Row
unfolding fix
amended fixes r = elim (fix fixes r.slot) [ none ↦ r | some p ↦ record r { passed = p } ]

-- The passes of each arm on each task.
abbrev pub ByArm : Type 0
ByArm = Dict String (Dict String (List Bool))

abbrev pub or_empty {ℓ} : {A : Type ℓ} → Option (List A) → List A
or_empty none = []
or_empty (some xs) = xs

abbrev pub tasks_of : ByArm → String → Dict String (List Bool)
tasks_of by arm = or_empty (lookup arm by)

abbrev pub passes_of : Dict String (List Bool) → String → List Bool
passes_of v task = or_empty (lookup task v)

-- by.setdefault(arm, {}).setdefault(task, []).append(pass)
unfoldable pub add_pass : ByArm → Row → ByArm
add_pass by r =
    let v = tasks_of by r.slot.arm in
    insert r.slot.arm (insert r.slot.task (passes_of v r.slot.task ++ (r.passed ∷ [])) v) by

abbrev pub is_counted : List String → Row → Bool
is_counted void r = not (contains void r.slot.task) && not (r.status == "infra")

unfoldable pub by_arm : List String → ByArm → List Row → ByArm
unfolding add_pass
by_arm void by [] = by
by_arm void by (r ∷ rs) = by_arm void (if is_counted void r then add_pass by r else by) rs

-- A task with fewer valid replicates than asked for in some arm.
unfoldable pub is_short : ℕ → ByArm → String → Bool
is_short reps by task =
    any (λ v. elim (lookup task v.1) [ none ↦ false | some ps ↦ ltb (length ps) reps ]) by

-- sum(ps) * 2 > len(ps)
abbrev pub majority : List Bool → Bool
majority ps = ltb (length ps) (count_if (λ p. p) ps * 2)

-- The verdict of an arm on a task, if it counts.
unfoldable pub verdict_of : ℕ → ByArm → String → String → Option Bool
unfolding is_short
verdict_of reps by arm task =
    if is_short reps by task
    then none
    else (elim (lookup task (tasks_of by arm)) [ none ↦ none | some ps ↦ some (majority ps) ])

-- `maj` of `cmd_summary`, from the lines on file.
unfoldable pub summary : ℕ → List Amendment → List String → List Row → String → String → Option Bool
unfolding amended by_arm verdict_of
summary reps amendments void rows = verdict_of reps (by_arm void [] (map (amended amendments) rows))
