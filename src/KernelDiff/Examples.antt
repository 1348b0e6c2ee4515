-- ===== src/KernelDiff/Examples.antt =====
-- Small runs of the kernel tests, and the theorems at them.
use gpu_lab.Base.{ℕ, zero, suc, String, ◌≡◌, refl, ◌&&◌, not, some, none}
use gpu_lab.Base.{List, [], ◌∷◌, ◌++◌, map, string_eq, nat_eq, contains}
use gpu_lab.Base.Text.{strip, has_part, blanked}
use gpu_lab.Base.Dict.{lookup, insert, has_key, NodupKeys}
use gpu_lab.Base.Sorting.{sorted, str_le}
use gpu_lab.KernelDiff.{TestCase, pass, fail, skip, outcome_eq, broken, cascade_in}
use gpu_lab.KernelDiff.{
  nodeid, verdict, shared, context_kill, is_hit, load, cascade, only_in, diffs, both_skip,
}
use gpu_lab.KernelDiff.Cascade.{FirstOnset, cascade_first}
use gpu_lab.KernelDiff.Partition.{last_verdict, load_last, ids, disagree, skips_apart}
use gpu_lab.KernelDiff.Partition.{report_exactly}

abbrev passing : String → TestCase
passing n = record {
  classname = some "t";
  name = some n;
  failure = none;
  errored = none;
  skipped = none;
}

abbrev failing : String → String → TestCase
failing n m = record (passing n) { failure = some (some m) }

abbrev skipping : String → String → TestCase
skipping n m = record (passing n) { skipped = some (some m) }

abbrev repeat : ℕ → TestCase → List TestCase
repeat zero c = []
repeat (suc n) c = c ∷ repeat n c

abbrev kill : TestCase
kill = failing "moe" "CUDA error: unspecified launch failure"

-- A kill that the run survives, sixty healthy tests, and a kill that ends it.
abbrev night : List TestCase
night = kill ∷ repeat 60 (passing "a") ++ repeat 55 kill

night_onset : cascade night ≡ some (61, 116, 55)
unfolding cascade cascade_in broken is_hit context_kill has_part string_eq nat_eq
night_onset = refl

cascade_first_example : FirstOnset (map broken night) 0 (cascade night)
cascade_first_example = cascade_first night

abbrev run_a : List TestCase
run_a = passing "x" ∷ skipping "y" "no\nfp8 " ∷ passing "z" ∷ failing "x" "boom" ∷ []

abbrev run_b : List TestCase
run_b = passing "x" ∷ skipping "y" "no fp4" ∷ []

run_a-load :
    load run_a ≡ ("t::x", (fail, "boom")) ∷ ("t::y", (skip, "no fp8")) ∷ ("t::z", (pass, "")) ∷ []
unfolding load nodeid verdict insert strip blanked string_eq nat_eq
run_a-load = refl

load_last_example :
    NodupKeys (load run_a) × ((i : String) → lookup i (load run_a) ≡ last_verdict i run_a)
load_last_example = load_last run_a

report_exactly_example :
    (contains (only_in (load run_a) (load run_b)) "t::z"
      ≡ (has_key "t::z" (load run_a) && not (has_key "t::z" (load run_b))))
    × (contains (ids (diffs (load run_a) (load run_b))) "t::z"
        ≡ disagree (lookup "t::z" (load run_a)) (lookup "t::z" (load run_b)))
    × (contains (ids (both_skip (load run_a) (load run_b))) "t::z"
        ≡ skips_apart (lookup "t::z" (load run_a)) (lookup "t::z" (load run_b)))
report_exactly_example = report_exactly (load run_a) (load run_b) "t::z"

run_diffs : ids (diffs (load run_a) (load run_b)) ≡ "t::x" ∷ []
unfolding diffs shared load nodeid verdict insert lookup sorted str_le strip blanked outcome_eq
    string_eq nat_eq
run_diffs = refl
