-- ===== src/Generator/Examples.antt =====
-- A help text and the samples built from it, with draws that take the first elements.
use gpu_lab.Base.{ℕ, zero, suc, ◌≤◌, ◌≡◌, refl, inl, true, false, List, [], ◌∷◌, length}
use gpu_lab.Base.{String, nat_eq, string_eq, some, none, arith, any}
use gpu_lab.Base.Text.{chars, starts_with, has_part}
use gpu_lab.Generator.Help.{extract_flags_from_help, get_observation_for_flag, observed_lines}
use gpu_lab.Generator.Window.{get_observation_for_flag_complete}
use gpu_lab.Generator.Draws.{first_draws}
use gpu_lab.Generator.Build.{Machine}
use gpu_lab.Generator.Domains.{Built, build_full_dataset-IsBuilt}

abbrev help : String
help =
    "usage: tool [args]\n\n  -a, --all          Show everything there is.\n  -n <N>  Rows\n  --out FILE  Write to FILE\n"

two_entries :
    extract_flags_from_help help
    ≡ record { flag = "--all"; spec = "-a, --all"; desc = "Show everything there is." }
      ∷ record { flag = "--out"; spec = "--out FILE"; desc = "Write to FILE" }
      ∷ []
unfolding extract_flags_from_help nat_eq string_eq chars starts_with
two_entries = refl

abbrev lines_before : ℕ → List String
lines_before zero = "  --far  The flag far away" ∷ []
lines_before (suc n) = "line" ∷ lines_before n

get_observation_for_flag_complete_example :
    (has_part "--far" (get_observation_for_flag (lines_before 90) (some "--far") 80) ≡ true)
    × (length (observed_lines (lines_before 90) (some "--far") 80) ≤ 80)
unfolding has_part starts_with nat_eq
get_observation_for_flag_complete_example =
    get_observation_for_flag_complete "--far" (lines_before 90) 80 (omega arith) refl

-- Of the window that may have 36 lines, the line with the flag is cut off.
window_of_36 :
    any (λ l. has_part "--far" l) (observed_lines (lines_before 90) (some "--far") 36) ≡ false
unfolding observed_lines has_part starts_with nat_eq string_eq
window_of_36 = refl

abbrev machine : Machine
machine = record {
  shell = λ cmd. some (record { succeeded = true; stdout = help; stderr = "" });
  corpus = none;
  project = record { path = "/home/me/snake-rs"; basename = "snake-rs"; has_manifest = false };
}

build_full_dataset-IsBuilt_example : Built first_draws machine 42 "devtools"
build_full_dataset-IsBuilt_example =
    build_full_dataset-IsBuilt first_draws machine 42 "devtools" (inl refl)
