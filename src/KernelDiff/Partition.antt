-- ===== src/KernelDiff/Partition.antt =====
-- What a run's dictionary holds, and under which heading each test of two runs is reported.
use gpu_lab.Base.{contains-keep, ◌+◌, String, ◌≡◌, refl, ◌∙◌, Bool, false, ◌&&◌, not}
use gpu_lab.Base.{Option, none, some, List, [], ◌∷◌, map, arith, if◌then◌else◌}
use gpu_lab.Base.{◌==◌, string_eq, length, keep, contains}
use gpu_lab.Base.Dict.{lookup, insert, keys, has_key, NodupKeys, lookup-insert}
use gpu_lab.Base.Dict.{insert-NodupKeys, has_key-lookup}
use gpu_lab.Base.Sorting.{contains-sorted}
use gpu_lab.KernelDiff.{Outcome, pass, fail, error, skip, outcome_eq, TestCase, Results, nodeid}
use gpu_lab.KernelDiff.{
  verdict, load, load_onto, outcome_differs, reason_differs, total, only_in, shared, paired, diffs,
  both_skip,
}

-- The verdict of the last element with the id, if there is one.
abbrev pub last_verdict : String → List TestCase → Option (Outcome × String)
last_verdict i [] = none
last_verdict i (c ∷ cs) = elim (last_verdict i cs) [
  | some v ↦ some v
  | none ↦ if i == nodeid c then some (verdict c) else none
]

lookup-load_onto :
    (i : String) (out : Results) (cs : List TestCase)
    → lookup i (load_onto out cs)
      ≡ elim (last_verdict i cs) [ some v ↦ some v | none ↦ lookup i out ]
unfolding load_onto
lookup-load_onto i out [] = refl
lookup-load_onto i out (c ∷ cs) = ground (
  arith,
  lookup-load_onto i (insert (nodeid c) (verdict c) out) cs,
  lookup-insert i (nodeid c) (verdict c) out,
)

load_onto-NodupKeys :
    (out : Results) (cs : List TestCase) → NodupKeys out → NodupKeys (load_onto out cs)
unfolding load_onto
load_onto-NodupKeys out [] u = u
load_onto-NodupKeys out (c ∷ cs) u =
    load_onto-NodupKeys (insert (nodeid c) (verdict c) out) cs
      (insert-NodupKeys (nodeid c) (verdict c) out u)

-- `load` lists no test twice, and gives each the verdict of its last element in the file.
pub load_last :
    (cs : List TestCase)
    → NodupKeys (load cs) × ((i : String) → lookup i (load cs) ≡ last_verdict i cs)
unfolding load lookup
load_last cs = (load_onto-NodupKeys [] cs tt, λ i. ground (arith, lookup-load_onto i [] cs))

outcome_sum :
    (o : Outcome)
    → (if pass == o then 1 else 0)
        + (if fail == o then 1 else 0)
        + (if error == o then 1 else 0)
        + (if skip == o then 1 else 0)
      ≡ 1
unfolding outcome_eq
outcome_sum pass = refl
outcome_sum fail = refl
outcome_sum error = refl
outcome_sum skip = refl

-- The four totals of a run add up to its number of tests.
pub totals-add :
    (d : Results) → total pass d + total fail d + total error d + total skip d ≡ length d
unfolding total
totals-add [] = omega arith
totals-add ((i, (o, r)) ∷ d) = ground (arith, totals-add d, outcome_sum o)

abbrev pub ids : List (String × (Outcome × String) × (Outcome × String)) → List String
ids = map (λ e. e.0)

-- The runs have different outcomes for a test that both have.
abbrev pub disagree : Option (Outcome × String) → Option (Outcome × String) → Bool
disagree (some (o, _)) (some (p, _)) = not (o == p)
disagree _ _ = false

-- The test is skipped in both runs, for different reasons.
abbrev pub skips_apart : Option (Outcome × String) → Option (Outcome × String) → Bool
skips_apart (some (o, r)) (some (p, q)) = (o == skip && p == skip) && not (r == q)
skips_apart _ _ = false

abbrev on_both {ℓ} : {A : Type ℓ} → (A → A → Bool) → Option A → Option A → Bool
on_both f (some x) (some y) = f x y
on_both f (some x) none = false
on_both f none y = false

contains-paired :
    (f : Outcome × String → Outcome × String → Bool) (a b : Results) (l : List String) (i : String)
    → contains (ids (paired f a b l)) i ≡ (contains l i && on_both f (lookup i a) (lookup i b))
unfolding paired
contains-paired f a b [] i = refl
contains-paired f a b (j ∷ l) i = ground (arith, contains-paired f a b l i)

contains-shared :
    (a b : Results) (i : String) → contains (shared a b) i ≡ (has_key i a && has_key i b)
unfolding shared
contains-shared a b i =
    contains-sorted (keep (λ j. has_key j b) (keys a)) i
    ∙ contains-keep (λ j. has_key j b) (keys a) i

-- Where a test is reported follows from the two runs alone: under MISSING of the first run exactly
-- if only the first has it, under OUTCOME exactly if both have it with different outcomes, and
-- under SKIPREASON exactly if both skip it for different reasons.
pub report_exactly :
    (a b : Results) (i : String)
    → (contains (only_in a b) i ≡ (has_key i a && not (has_key i b)))
      × (contains (ids (diffs a b)) i ≡ disagree (lookup i a) (lookup i b))
      × (contains (ids (both_skip a b)) i ≡ skips_apart (lookup i a) (lookup i b))
unfolding only_in diffs both_skip
report_exactly a b i = (
  contains-sorted (keep (λ j. not (has_key j b)) (keys a)) i
      ∙ contains-keep (λ j. not (has_key j b)) (keys a) i,
  ground (
    arith,
    contains-paired outcome_differs a b (shared a b) i,
    contains-shared a b i,
    has_key-lookup i a,
    has_key-lookup i b,
  ),
  ground (
    arith,
    contains-paired reason_differs a b (shared a b) i,
    contains-shared a b i,
    has_key-lookup i a,
    has_key-lookup i b,
  ),
)
