-- ===== src/RunCompare.antt =====
-- bench/compare.py: saved runs of the eval compared item by item. A score value stands as its
-- truth value. Rates, intervals and the bootstrap are floats and random draws, and are left out.
pub mod Sign
pub mod Rows
pub mod Pairs
pub mod Flips
mod Examples
use gpu_lab.Base.{ℕ, zero, suc, ◌+◌, ◌*◌, ◌^◌, min, String, Bool, true, false, ◌&&◌, ◌||◌, not}
use gpu_lab.Base.{
  Option, none, some, List, [], ◌∷◌, map, ltb, if◌then◌else◌, ◌==◌, nat_eq, string_eq, bool_eq,
}
use gpu_lab.Base.{length, keep, count_if, contains, any}
use gpu_lab.Base.Text.{starts_with, lstrip_of}
use gpu_lab.Base.Dict.{Dict, lookup, insert, keys, has_key}
use gpu_lab.Base.Sorting.{sorted}

-- math.comb
unfoldable pub comb : ℕ → ℕ → ℕ
comb n zero = 1
comb zero (suc k) = 0
comb (suc n) (suc k) = comb n k + comb n (suc k)

-- sum(math.comb(n, i) for i in range(m + 1))
unfoldable pub comb_sum : ℕ → ℕ → ℕ
unfolding comb
comb_sum n zero = comb n 0
comb_sum n (suc m) = comb_sum n m + comb n (suc m)

-- A p-value, as the exact quotient that the division by 2 ** n rounds.
pub record Quotient : Type 0 where
  pub over : ℕ
  pub under : ℕ

-- `mcnemar_exact`
unfoldable pub mcnemar_exact : ℕ → ℕ → Quotient
mcnemar_exact b c =
    let n = b + c in
    if n == 0
    then record { over = 1; under = 1 }
    else record { over = min (2 ^ n) (2 * comb_sum n (min b c)); under = 2 ^ n }

-- An item of a run: the keys of its score with their truth values.
pub record Result : Type 0 where
  pub id : String
  pub split : String
  pub question : String
  pub score : Dict String Bool

-- The write that one result makes, if it is in a split and its score has the key.
add_value : List String → String → Bool → Dict String Bool → Result → Dict String Bool
add_value splits key neg out r =
    if contains splits r.split
    then (elim (lookup key r.score) [
      | none ↦ out
      | some v ↦ insert r.id (if neg then not v else v) out
    ])
    else out

values_onto : List String → String → Bool → Dict String Bool → List Result → Dict String Bool
values_onto splits key neg out [] = out
values_onto splits key neg out (r ∷ rs) =
    values_onto splits key neg (add_value splits key neg out r) rs

-- `values`: a key behind `!` is read negated.
pub values : List Result → List String → String → Dict String Bool
unfolding values_onto add_value
values run splits key = values_onto splits (lstrip_of "!" key) (starts_with key "!") [] run

questions_onto : Dict String String → List Result → Dict String String
questions_onto out [] = out
questions_onto out (r ∷ rs) = questions_onto (insert r.id r.question out) rs

-- {r["id"]: r["question"] for r in run["results"]}
pub questions : List Result → Dict String String
unfolding questions_onto
questions rs = questions_onto [] rs

other_question : Dict String String → String × String → Bool
other_question qb (i, q) = elim (lookup i qb) [ none ↦ false | some p ↦ not (q == p) ]

-- `check_paired`: the shared ids, or `none` where the program refuses the two runs.
pub check_paired : List Result → List Result → Option (List String)
unfolding other_question
check_paired a b =
    let qa = questions a in
    let qb = questions b in
    let shared = keep (λ i. has_key i qb) (keys qa) in
    if ltb 0 (length shared) && not (any (other_question qb) qa) then some shared else none

-- The values of the ids, in pairs; every id has both.
paired_values : Dict String Bool → Dict String Bool → List String → List (Bool × Bool)
paired_values va vb [] = []
paired_values va vb (i ∷ is) =
    let rest = paired_values va vb is in
    elim (lookup i va) [
      | none ↦ rest
      | some x ↦ elim (lookup i vb) [ none ↦ rest | some y ↦ (x, y) ∷ rest ]
    ]

-- What `pair` prints of one metric, as counts.
pub record Row : Type 0 where
  pub n : ℕ
  pub sum_a : ℕ
  pub sum_b : ℕ
  pub only_a : ℕ
  pub only_b : ℕ
  pub p : Quotient

count_row : List (Bool × Bool) → Row
count_row xs =
    let only_a = count_if (λ x. x.0 && not x.1) xs in
    let only_b = count_if (λ x. x.1 && not x.0) xs in
    record {
      n = length xs;
      sum_a = count_if (λ x. x.0) xs;
      sum_b = count_if (λ x. x.1) xs;
      only_a = only_a;
      only_b = only_b;
      p = mcnemar_exact only_a only_b;
    }

-- One metric of `pair`, if the two runs share an item that carries it.
pub pair_row : List Result → List Result → List String → String → Option Row
unfolding paired_values count_row
pair_row a b splits key =
    let va = values a splits key in
    let vb = values b splits key in
    let ids = sorted (keep (λ i. has_key i vb) (keys va)) in
    if length ids == 0 then none else some (count_row (paired_values va vb ids))

-- The splits that `flips` reads: the one asked for, or every split of the first run.
pub flip_splits : List Result → String → List String
flip_splits a split = if split == "" then map (λ r. r.split) a else split ∷ []

-- {i : (va[i], vb[i]) == want}, in the order of the ids.
flipped : Dict String Bool → Dict String Bool → Bool → Bool → List String → List String
flipped va vb want_a want_b [] = []
flipped va vb want_a want_b (i ∷ is) =
    let rest = flipped va vb want_a want_b is in
    elim (lookup i va) [
      | none ↦ rest
      | some x ↦ elim (lookup i vb) [
        | none ↦ rest
        | some y ↦ if x == want_a && y == want_b then i ∷ rest else rest
      ]
    ]

-- `flips`: the items that only the first run passes, and those that only the second passes.
pub flips : List Result → List Result → String → String → Option (List String × List String)
unfolding flip_splits flipped
flips a b key split =
    let splits = flip_splits a split in
    let va = values a splits key in
    let vb = values b splits key in
    let ids = sorted (keep (λ i. has_key i vb) (keys va)) in
    elim (check_paired a b) [
      | none ↦ none
      | some shared ↦ some (flipped va vb true false ids, flipped va vb false true ids)
    ]
