-- ===== src/KernelDiff.antt =====
-- kernels/compare.py: the comparison of two runs of the kernel tests. A run is its list of
-- `testcase` elements; reading the XML and printing are left out.
pub mod Cascade
pub mod Partition
mod Examples
use gpu_lab.Base.{ℕ, zero, suc, ◌+◌, ◌*◌, String, ◌<>◌, Bool, true, false, ◌&&◌, ◌||◌, not}
use gpu_lab.Base.{Option, none, some, List, [], ◌∷◌, map, leb, if◌then◌else◌}
use gpu_lab.Base.{Eq, ◌==◌, nat_eq, string_eq, length, drop, keep, count_if}
use gpu_lab.Base.Text.{strip, has_part, blanked}
use gpu_lab.Base.Dict.{Dict, lookup, insert, keys, has_key}
use gpu_lab.Base.Sorting.{sorted}

pub data Outcome : Type 0 where
  pass fail error skip : Outcome

outcome_dec : Discrete Outcome
outcome_dec = hlevel

instance unfoldable pub outcome_eq : Eq Outcome
unfolding outcome_dec
outcome_eq = record { dec = outcome_dec }

-- An element: its attributes, and the `message` of its first child of each of the three tags.
-- `none` is a missing attribute or child.
pub record TestCase : Type 0 where
  pub classname : Option String
  pub name : Option String
  pub failure : Option (Option String)
  pub errored : Option (Option String)
  pub skipped : Option (Option String)

abbrev or_empty : Option String → String
or_empty none = ""
or_empty (some s) = s

pub nodeid : TestCase → String
nodeid c = or_empty c.classname <> ("::" <> or_empty c.name)

-- (child.get("message") or "").strip().replace("\n", " ")
reason_of : Option String → String
reason_of message = blanked (strip (or_empty message))

-- The first of `failure`, `error` and `skipped` that the element has decides.
pub verdict : TestCase → Outcome × String
unfolding reason_of
verdict c = elim c.failure [
  | some m ↦ (fail, reason_of m)
  | none ↦ elim c.errored [
    | some m ↦ (error, reason_of m)
    | none ↦ elim c.skipped [ some m ↦ (skip, reason_of m) | none ↦ (pass, "") ]
  ]
]

abbrev pub Results : Type 0
Results = Dict String (Outcome × String)

load_onto : Results → List TestCase → Results
load_onto out [] = out
load_onto out (c ∷ cs) = load_onto (insert (nodeid c) (verdict c) out) cs

-- `load`: a later element of the same id wins.
pub load : List TestCase → Results
unfolding load_onto
load cs = load_onto [] cs

-- What `cascade` keeps of an element.
pub broken : TestCase → Bool × String
broken c = elim c.failure [
  | some m ↦ (true, or_empty m)
  | none ↦ elim c.errored [ some m ↦ (true, or_empty m) | none ↦ (false, "") ]
]

pub context_kill : String → Bool
context_kill m =
    has_part "unspecified launch failure" m || has_part "CUDA error: an illegal memory access" m

-- The test under which an index stands in `hits`.
pub is_hit : Bool × String → Bool
is_hit (bad, m) = bad && context_kill m

hits : ℕ → List (Bool × String) → List ℕ
hits i [] = []
hits i (o ∷ os) = let rest = hits (suc i) os in if is_hit o then i ∷ rest else rest

abbrev pub bad_of : Bool × String → Bool
bad_of (bad, m) = bad

-- `poisoned >= 0.7 * len(after)` is 10 * poisoned ≥ 7 * len(after): the nearest double to a
-- multiple of 0.7 lies between the same two integers, or on one, at any length that a list has.
onset : List (Bool × String) → List ℕ → Option (ℕ × ℕ × ℕ)
onset os [] = none
onset os (i ∷ is) =
    let after = drop i os in
    let poisoned = count_if bad_of after in
    let later = onset os is in
    if leb 50 poisoned && leb (7 * length after) (10 * poisoned)
    then some (i, length os, poisoned)
    else later

-- The loop of `cascade` over the outcomes, and `cascade`.
pub cascade_in : List (Bool × String) → Option (ℕ × ℕ × ℕ)
unfolding hits onset
cascade_in os = onset os (hits 0 os)

pub cascade : List TestCase → Option (ℕ × ℕ × ℕ)
cascade cs = cascade_in (map broken cs)

-- Counter(o for o, _ in d.values())[o]
pub total : Outcome → Results → ℕ
total o d = count_if (λ e. o == e.1.0) d

-- sorted(set(a) - set(b)) and sorted(set(a) & set(b))
pub only_in : Results → Results → List String
only_in a b = sorted (keep (λ i. not (has_key i b)) (keys a))

pub shared : Results → Results → List String
shared a b = sorted (keep (λ i. has_key i b) (keys a))

-- The entry of a test that both runs have, if `differs` holds of the two.
paired :
    (Outcome × String → Outcome × String → Bool)
    → Results
    → Results
    → List String
    → List (String × (Outcome × String) × (Outcome × String))
paired differs a b [] = []
paired differs a b (i ∷ is) =
    let rest = paired differs a b is in
    elim (lookup i a) [
      | none ↦ rest
      | some x ↦ elim (lookup i b) [
        | none ↦ rest
        | some y ↦ if differs x y then (i, x, y) ∷ rest else rest
      ]
    ]

abbrev outcome_differs : Outcome × String → Outcome × String → Bool
outcome_differs (o, _) (p, _) = not (o == p)

abbrev reason_differs : Outcome × String → Outcome × String → Bool
reason_differs (o, r) (p, q) = (o == skip && p == skip) && not (r == q)

-- The tests under OUTCOME and under SKIPREASON.
pub diffs : Results → Results → List (String × (Outcome × String) × (Outcome × String))
unfolding paired
diffs a b = paired outcome_differs a b (shared a b)

pub both_skip : Results → Results → List (String × (Outcome × String) × (Outcome × String))
unfolding paired
both_skip a b = paired reason_differs a b (shared a b)
