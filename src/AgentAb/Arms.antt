-- ===== src/AgentAb/Arms.antt =====
-- bench/agent_ab.py, main and cmd_run: the command line that is accepted, and what a run reads of the
-- name of its arm.
pub mod Accepted
use gpu_lab.Base.{ℕ, String, Bool, true, false, ◌&&◌, ◌||◌, not, Option, none, some, List, [], ◌∷◌}
use gpu_lab.Base.{◌++◌, ltb, if◌then◌else◌, ◌==◌, string_eq, take, contains}
use gpu_lab.Base.Text.{pieces}
use gpu_lab.AgentAb.Plan.{Options, arms, harnesses}

-- MODELS
abbrev pub models_by_name : List (String × String)
models_by_name = ("g6u", "lightning-g6u") ∷ ("base", "lightning") ∷ []

unfoldable pub model_of : String → List (String × String) → Option String
model_of m [] = none
model_of m ((k, v) ∷ ms) = let later = model_of m ms in if m == k then some v else later

abbrev pub is_some {ℓ} : {A : Type ℓ} → Option A → Bool
is_some none = false
is_some (some a) = true

-- The test of h, m and mode; there are always three of them.
abbrev pub is_named : List String → Bool
is_named (h ∷ m ∷ mode ∷ []) =
    contains harnesses h && is_some (model_of m models_by_name) && (mode == "off" || mode == "on")
is_named _ = false

-- (arm.split("-") + ["", ""])[:3]
abbrev pub is_arm : String → Bool
is_arm arm = is_named (take 3 (pieces "-" arm ++ "" ∷ "" ∷ []))

pub data Fault : Type 0 where
  bad_reps : Fault
  bad_arm : String → Fault
  no_out : Fault

abbrev pub first_bad : List String → Option String
first_bad [] = none
first_bad (arm ∷ rest) = let later = first_bad rest in if is_arm arm then later else some arm

-- What `main` refuses, of the options, the command and --out.
unfoldable pub check_args : Options → String → String → Option Fault
unfolding arms
check_args a cmd out = if ltb a.reps 1 then some bad_reps else elim (first_bad (arms [] a.arms)) [
  | some arm ↦ some (bad_arm arm)
  | none ↦ if out == "" && not (cmd == "preflight") then some no_out else none
]

-- What `cmd_run` makes of an arm: the harness is Codex or not, the model, and whether it thinks; or
-- ValueError, for a name that has not three parts, or KeyError.
pub data Reading : Type 0 where
  ready : Bool → String → Bool → Reading
  value_error : Reading
  key_error : Reading

abbrev pub reading_of : String → String → Option String → Reading
reading_of h mode none = key_error
reading_of h mode (some model) = ready (h == "codex") model (mode == "on")

abbrev pub read_parts : List String → Reading
read_parts (h ∷ m ∷ mode ∷ []) = reading_of h mode (model_of m models_by_name)
read_parts _ = value_error

unfoldable pub read_arm : String → Reading
read_arm arm = read_parts (pieces "-" arm)
