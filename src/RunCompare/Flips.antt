-- ===== src/RunCompare/Flips.antt =====
-- The items that `flips` lists are those that `pair` counts.
use gpu_lab.Base.{inl, inr, ◌≡◌, refl, subst, String, Bool, true, false, ◌&&◌, not}
use gpu_lab.Base.{none, some, List, [], ◌∷◌, arith, if◌then◌else◌, ◌==◌, nat_eq, string_eq, bool_eq}
use gpu_lab.Base.{length, keep, count_if, Option-cases, Bool-cases}
use gpu_lab.Base.Dict.{Dict, lookup, keys, has_key}
use gpu_lab.Base.Sorting.{sorted}
use gpu_lab.RunCompare.{Result, Row, values, check_paired, paired_values, count_row, pair_row}
use gpu_lab.RunCompare.{flip_splits, flipped, flips}

flipped-count :
    (va vb : Dict String Bool) (ids : List String)
    → (length (flipped va vb true false ids)
        ≡ count_if (λ x. x.0 && not x.1) (paired_values va vb ids))
      × (length (flipped va vb false true ids)
          ≡ count_if (λ x. x.1 && not x.0) (paired_values va vb ids))
unfolding flipped paired_values
flipped-count va vb [] = (refl, refl)
flipped-count va vb (i ∷ ids) =
    let ih = flipped-count va vb ids in
    elim (Option-cases (lookup i va)) [
      | inl e ↦ ground (arith, ih, e)
      | inr (x, e) ↦ elim (Option-cases (lookup i vb)) [
        | inl f ↦ ground (arith, ih, e, f)
        | inr (y, f) ↦ rw (flipped, paired_values, e, f) (ground (arith, ih))
      ]
    ]

-- Where two runs are paired and `pair` prints a metric over the splits that `flips` reads, `flips`
-- lists as many items for the first run only as the row counts, and as many for the second only.
pub flips-counted :
    (a b : List Result) (key split : String) (only_a only_b : List String) (r : Row)
    → flips a b key split ≡ some (only_a, only_b)
    → pair_row a b (flip_splits a split) key ≡ some r
    → (length only_a ≡ r.only_a) × (length only_b ≡ r.only_b)
unfolding flips pair_row count_row
flips-counted a b key split only_a only_b r listed printed =
    let splits = flip_splits a split in
    let va = values a splits key in
    let vb = values b splits key in
    let ids = sorted (keep (λ i. has_key i vb) (keys va)) in
    let row : (if length ids == 0 then none else some (count_row (paired_values va vb ids)))
        ≡ some r =
      printed in
    let counts = flipped-count va vb ids in
    elim (Option-cases (check_paired a b)) [
      | inl refused ↦ ground (arith, rw (flips, refused) at listed)
      | inr (shared, e) ↦ elim (Bool-cases (length ids == 0)) [
        | inl empty ↦ ground (arith, rw empty at row)
        | inr some_ids ↦
            let xs = paired_values va vb ids in
            let found = flipped va vb true false ids in
            let lost = flipped va vb false true ids in
            let l : some (found, lost) ≡ some (only_a, only_b) = rw (flips, e) at listed in
            let p : some (count_row xs) ≡ some r = rw some_ids at row in
            let lists : ◌≡◌ {A = List String × List String} (found, lost) (only_a, only_b) = cc l in
            let as_counted : count_row xs ≡ r = cc p in
            subst (λ q. (length q.0 ≡ r.only_a) × (length q.1 ≡ r.only_b)) lists
              (subst (λ q. (length found ≡ q.only_a) × (length lost ≡ q.only_b)) as_counted counts)
      ]
    ]
