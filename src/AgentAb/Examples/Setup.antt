-- ===== src/AgentAb/Examples/Setup.antt =====
-- Command lines and lists of hidden paths, and the theorems at them.
use gpu_lab.Base.{String, ◌≡◌, refl, ◌≤◌, ◌↔◌, ◌⊎◌, true, false, ◌&&◌, not, none, some, [], ◌∷◌}
use gpu_lab.Base.{◌++◌, All, if◌then◌else◌, ◌==◌, string_eq, nat_eq}
use gpu_lab.Base.Sorting.{sorted, distinct, str_le}
use gpu_lab.Base.Text.{strip, split, starts_with, pieces}
use gpu_lab.AgentAb.Plan.{Options, arms}
use gpu_lab.AgentAb.Arms.{bad_arm, check_args, model_of, ready, value_error, read_arm}
use gpu_lab.AgentAb.Arms.Accepted.{Reads, check_args-accepts}
use gpu_lab.AgentAb.Sandbox.{hide_list}
use gpu_lab.AgentAb.Sandbox.Hidden.{Covered, IsBeneath, hide_list-covers}

abbrev two_arms : Options
two_arms = record { modes = "off,on"; arms = "codex-g6u-on, loop-g6u-on"; reps = 2 }

abbrev command_run : String
command_run = "run"

abbrev given : String
given = "/out"

check_args-accepts_example : (check_args two_arms command_run given ≡ none) ↔ (
    (1 ≤ two_arms.reps)
    × (All Reads (arms [] two_arms.arms)
        × ((given == "" && not (command_run == "preflight")) ≡ false)))
check_args-accepts_example = check_args-accepts two_arms command_run given

two_arms-accepted : check_args two_arms "run" "/out" ≡ none
unfolding check_args arms split strip model_of string_eq nat_eq
two_arms-accepted = refl

typo_refused :
    check_args (record two_arms { arms = "codex-g6u-on,loop-g6-on" }) "run" "/out"
    ≡ some (bad_arm "loop-g6-on")
unfolding check_args arms split strip model_of string_eq nat_eq
typo_refused = refl

-- An arm with a fourth part is accepted, and ends the run with an exception.
four_parts-accepted : check_args (record two_arms { arms = "codex-g6u-on-r2" }) "run" "/out" ≡ none
unfolding check_args arms split strip model_of string_eq nat_eq
four_parts-accepted = refl

four_parts-read : read_arm "codex-g6u-on-r2" ≡ value_error
unfolding read_arm split nat_eq
four_parts-read = refl

three_parts-read : read_arm "codex-g6u-on" ≡ ready true "lightning-g6u" true
unfolding read_arm split model_of string_eq nat_eq
three_parts-read = refl

abbrev real_path : String → String
real_path p = if p == "~/sealed" then "/home/u/sealed" else p

hide_list-covers_example :
    All
      (λ x.
        ((x == "") ≡ true)
        ⊎ Covered
            (hide_list real_path "~/sealed:/root/.ssh" "/home/u/sealed/v1" "/out")
            (real_path x))
      (pieces ":" "~/sealed:/root/.ssh" ++ "/home/u/sealed/v1" ∷ "/out" ∷ [])
    × All
        (λ p.
          All
            (λ q. ¬ (IsBeneath p q))
            (hide_list real_path "~/sealed:/root/.ssh" "/home/u/sealed/v1" "/out"))
        (hide_list real_path "~/sealed:/root/.ssh" "/home/u/sealed/v1" "/out")
hide_list-covers_example =
    hide_list-covers real_path "~/sealed:/root/.ssh" "/home/u/sealed/v1" "/out"

hidden_paths :
    hide_list real_path "~/sealed:/root/.ssh" "/home/u/sealed/v1" "/out"
    ≡ "/home/u/sealed" ∷ "/out" ∷ "/root/.ssh" ∷ []
unfolding hide_list split sorted distinct str_le starts_with string_eq nat_eq
hidden_paths = refl
