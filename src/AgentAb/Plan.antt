-- ===== src/AgentAb/Plan.antt =====
-- bench/agent_ab.py, arms and plan: which run comes when. What the random generator makes of the
-- task ids in each pass is an argument.
pub mod Once
use gpu_lab.Base.{ℕ, zero, suc, ◌+◌, ◌%◌, String, ◌<>◌, Bool, true, false, ◌&&◌, not}
use gpu_lab.Base.{
  Option, none, some, List, [], ◌∷◌, ◌++◌, map, ltb, if◌then◌else◌, ◌==◌, nat_eq, string_eq,
}
use gpu_lab.Base.{length, take, drop, keep, any}
use gpu_lab.Base.Text.{strip, pieces}

-- The command line's part in the plan.
pub record Options : Type 0 where
  pub modes : String
  pub arms : String
  pub reps : ℕ

pub record Slot : Type 0 where
  pub rep : ℕ
  pub task : String
  pub arm : String

abbrev pub harnesses : List String
harnesses = "codex" ∷ "loop" ∷ []

abbrev models : List String
models = "g6u" ∷ "base" ∷ []

unfoldable pub concat {ℓ} : {A : Type ℓ} → List (List A) → List A
concat [] = []
concat (xs ∷ xss) = xs ++ concat xss

-- The arms of one mode.
unfoldable pub mode_arms : String → List String
unfolding concat
mode_arms mode = concat (map (λ h. map (λ m. h <> "-" <> m <> "-" <> mode) models) harnesses)

-- `arms`
unfoldable pub arms : List String → String → List String
unfolding mode_arms concat
arms modes pick =
    if pick == ""
    then concat (map mode_arms modes)
    else keep (λ s. not (s == "")) (map strip (pieces "," pick))

-- The arms that run back to back: those asked for, or those of each mode.
unfoldable pub groups : Options → List (List String)
unfolding arms
groups a =
    if a.arms == "" then map (λ m. arms (m ∷ []) "") (pieces "," a.modes) else arms [] a.arms ∷ []

-- group[i % len(group):] + group[:i % len(group)]
unfoldable pub turned : ℕ → List String → List String
turned i group = drop (i % length group) group ++ take (i % length group) group

abbrev pub slot : ℕ → String → String → Slot
slot rep tid arm = record { rep = rep; task = tid; arm = arm }

-- One group over the tasks from the `i`th on.
unfoldable pub group_slots : ℕ → List String → ℕ → List String → List Slot
unfolding turned
group_slots rep group i [] = []
group_slots rep group i (tid ∷ tids) =
    map (slot rep tid) (turned i group) ++ group_slots rep group (suc i) tids

unfoldable pub pass_slots : ℕ → List (List String) → List String → List Slot
unfolding group_slots
pass_slots rep [] order = []
pass_slots rep (group ∷ gs) order = group_slots rep group 0 order ++ pass_slots rep gs order

-- The passes from `rep` on, `n` of them.
unfoldable pub passes : (ℕ → List String) → List (List String) → ℕ → ℕ → List Slot
unfolding pass_slots
passes order gs rep zero = []
passes order gs rep (suc n) = pass_slots rep gs (order rep) ++ passes order gs (suc rep) n

-- `plan`, `none` where it divides by the length of an empty group.
unfoldable pub plan : Options → List String → (ℕ → List String → List String) → Option (List Slot)
unfolding passes groups
plan a tasks shuffle =
    if ltb 0 a.reps && ltb 0 (length tasks) && any (λ g. length g == 0) (groups a)
    then none
    else some (passes (λ rep. shuffle rep tasks) (groups a) 1 a.reps)
