-- ===== src/RunCompare/Pairs.antt =====
-- What `pair` counts: the items that both runs have, by the values that the runs give them.
use gpu_lab.Base.{inl, inr, ◌<◌, ◌≡◌, refl, sym, subst, ap, ◌∙◌, String, Bool, true, false}
use gpu_lab.Base.{
  ◌&&◌, not, Option, none, some, List, [], ◌∷◌, arith, if◌then◌else◌, ◌==◌, string_eq,
}
use gpu_lab.Base.{nat_eq, length, keep, count_if, contains, Option-cases, Bool-cases, eq_of_==}
use gpu_lab.Base.{contains-keep}
use gpu_lab.Base.Alls.{All-every}
use gpu_lab.Base.Perms.{count_if-same}
use gpu_lab.Base.Text.{starts_with, lstrip_of}
use gpu_lab.Base.Dict.{
  Dict, lookup, keys, has_key, has_key-lookup, has_key-of_lookup, NodupKeys, insert-NodupKeys,
}
use gpu_lab.Base.Sorting.{sorted, count_if-sorted, contains-sorted}
use gpu_lab.RunCompare.{
  Result, Row, mcnemar_exact, values, add_value, values_onto, paired_values, count_row, pair_row,
}
use gpu_lab.RunCompare.Rows.{last_value, values_last}

-- The value that a run gives an item for a key.
abbrev pub value : List Result → List String → String → String → Option Bool
value run splits key i = last_value splits (lstrip_of "!" key) (starts_with key "!") i run

-- Both have a value, and the test holds of them.
abbrev pub on_both : (Bool → Bool → Bool) → Option Bool → Option Bool → Bool
on_both f (some x) (some y) = f x y
on_both f (some x) none = false
on_both f none y = false

-- A row counts the items that both runs give a value, each once.
pub record IsCounted (a b : String → Option Bool) (r : Row) : Type 0 where
  pub ids : List String
  pub nonempty : 0 < length ids
  pub once :
      (i : String)
      → count_if (λ j. i == j) ids ≡ (if on_both (λ x y. true) (a i) (b i) then 1 else 0)
  pub n : r.n ≡ length ids
  pub sum_a : r.sum_a ≡ count_if (λ i. on_both (λ x y. x) (a i) (b i)) ids
  pub sum_b : r.sum_b ≡ count_if (λ i. on_both (λ x y. y) (a i) (b i)) ids
  pub only_a : r.only_a ≡ count_if (λ i. on_both (λ x y. x && not y) (a i) (b i)) ids
  pub only_b : r.only_b ≡ count_if (λ i. on_both (λ x y. y && not x) (a i) (b i)) ids
  pub p_value : r.p ≡ mcnemar_exact r.only_a r.only_b

has_key-value :
    (d : Dict String Bool) (i : String) → has_key i d ≡ true → (v : Bool) × (lookup i d ≡ some v)
has_key-value d i h = elim (Option-cases (lookup i d)) [
  | inl e ↦ ground (arith, (has_key-lookup i d).1 e, h)
  | inr found ↦ found
]

-- Every id with a value in both runs makes a pair.
length-paired_values :
    (va vb : Dict String Bool) (ids : List String)
    → ((i : String) → contains ids i ≡ true → (has_key i va && has_key i vb) ≡ true)
    → length (paired_values va vb ids) ≡ length ids
unfolding paired_values
length-paired_values va vb [] all = refl
length-paired_values va vb (i ∷ ids) all =
    let ih = length-paired_values va vb ids (λ j m. all j (ground (arith, m))) in
    let both = all i (ground arith) in
    let (x, in_a) = has_key-value va i (ground (arith, both)) in
    let (y, in_b) = has_key-value vb i (ground (arith, both)) in
    rw (paired_values, in_a, in_b) (omega (arith, ih))

count_if-paired :
    (f : Bool → Bool → Bool) (va vb : Dict String Bool) (ids : List String)
    → count_if (λ x. f x.0 x.1) (paired_values va vb ids)
      ≡ count_if (λ i. on_both f (lookup i va) (lookup i vb)) ids
unfolding paired_values
count_if-paired f va vb [] = refl
count_if-paired f va vb (i ∷ ids) =
    let ih = count_if-paired f va vb ids in
    elim (Option-cases (lookup i va)) [
      | inl e ↦ rw (paired_values, e) (omega (arith, ih))
      | inr (x, e) ↦ elim (Option-cases (lookup i vb)) [
        | inl g ↦ rw (paired_values, e, g) (omega (arith, ih))
        | inr (y, g) ↦ rw (paired_values, e, g) (omega (arith, ih))
      ]
    ]

add_value-NodupKeys :
    (splits : List String) (key : String) (neg : Bool) (out : Dict String Bool) (r : Result)
    → NodupKeys out
    → NodupKeys (add_value splits key neg out r)
unfolding add_value
add_value-NodupKeys splits key neg out r u = elim (Bool-cases (contains splits r.split)) [
  | inr e ↦ rw (add_value, e) u
  | inl e ↦ elim (Option-cases (lookup key r.score)) [
    | inl g ↦ rw (add_value, e, g) u
    | inr (v, g) ↦ rw (add_value, e, g) (insert-NodupKeys r.id (if neg then not v else v) out u)
  ]
]

values_onto-NodupKeys :
    (splits : List String) (key : String) (neg : Bool) (out : Dict String Bool) (rs : List Result)
    → NodupKeys out
    → NodupKeys (values_onto splits key neg out rs)
unfolding values_onto
values_onto-NodupKeys splits key neg out [] u = u
values_onto-NodupKeys splits key neg out (r ∷ rs) u =
    values_onto-NodupKeys splits key neg (add_value splits key neg out r) rs
      (add_value-NodupKeys splits key neg out r u)

count_if-keys :
    (i : String) (d : Dict String Bool)
    → NodupKeys d
    → count_if (λ j. i == j) (keys d) ≡ (if has_key i d then 1 else 0)
count_if-keys i [] u = refl
count_if-keys i ((k, v) ∷ d) u =
    let ih = count_if-keys i d u.1 in
    elim (Bool-cases (i == k)) [
      | inl e ↦
          let gone : has_key i d ≡ false = ap (λ j. has_key j d) (eq_of_== i k e) ∙ u.0 in
          ground (arith, ih, e, gone)
      | inr e ↦ ground (arith, ih, e)
    ]

count_if-keep :
    (i : String) (q : String → Bool) (xs : List String)
    → count_if (λ j. i == j) (keep q xs) ≡ (if q i then count_if (λ j. i == j) xs else 0)
count_if-keep i q [] = ground arith
count_if-keep i q (x ∷ xs) =
    let ih = count_if-keep i q xs in
    elim (Bool-cases (i == x)) [
      | inl e ↦ let same = ap q (eq_of_== i x e) in ground (arith, ih, e, same)
      | inr e ↦ ground (arith, ih, e)
    ]

has_both :
    (i : String) (va vb : Dict String Bool)
    → (has_key i vb && has_key i va) ≡ on_both (λ x y. true) (lookup i va) (lookup i vb)
has_both i va vb = elim (Option-cases (lookup i va)) [
  | inl e ↦ let out = (has_key-lookup i va).1 e in ground (arith, out, e)
  | inr (x, e) ↦ elim (Option-cases (lookup i vb)) [
    | inl g ↦ let out = (has_key-lookup i vb).1 g in ground (arith, out, g, e)
    | inr (y, g) ↦
        let in_a = has_key-of_lookup i x va e in
        let in_b = has_key-of_lookup i y vb g in ground (arith, in_a, in_b, e, g)
  ]
]

module _ (a b : List Result) (splits : List String) (key : String) where
  shared_ids : List String
  shared_ids = sorted (keep (λ i. has_key i (values b splits key)) (keys (values a splits key)))

  same_values :
      (f : Bool → Bool → Bool) (i : String)
      → on_both f (lookup i (values a splits key)) (lookup i (values b splits key))
        ≡ on_both f (value a splits key i) (value b splits key i)
  same_values f i =
      ap (λ v. on_both f v (lookup i (values b splits key))) (values_last a splits key i)
      ∙ ap (on_both f (value a splits key i)) (values_last b splits key i)

  count_if-values :
      (f : Bool → Bool → Bool) (ids : List String)
      → count_if (λ x. f x.0 x.1) (paired_values (values a splits key) (values b splits key) ids)
        ≡ count_if (λ i. on_both f (value a splits key i) (value b splits key i)) ids
  count_if-values f ids =
      count_if-paired f (values a splits key) (values b splits key) ids
      ∙ count_if-same _ _ ids (All-every _ ids (same_values f))

  values-NodupKeys : NodupKeys (values a splits key)
  unfolding values
  values-NodupKeys = values_onto-NodupKeys splits (lstrip_of "!" key) (starts_with key "!") [] a tt

  shared_once :
      (i : String)
      → count_if (λ j. i == j) shared_ids
        ≡ (if on_both (λ x y. true) (value a splits key i) (value b splits key i) then 1 else 0)
  unfolding shared_ids
  shared_once i =
      let va = values a splits key in
      let vb = values b splits key in
      let q : String → Bool = λ j. has_key j vb in
      let kept = count_if-sorted (λ j. i == j) (keep q (keys va)) ∙ count_if-keep i q (keys va) in
      let listed = count_if-keys i va values-NodupKeys in
      let both = has_both i va vb ∙ same_values (λ x y. true) i in
      ground (arith, kept, listed, both)

  pairs_all :
      length (paired_values (values a splits key) (values b splits key) shared_ids)
      ≡ length shared_ids
  unfolding shared_ids
  pairs_all =
      let va = values a splits key in
      let vb = values b splits key in
      length-paired_values va vb shared_ids (λ i m.
        sym (contains-keep (λ i. has_key i vb) (keys va) i)
        ∙ sym (contains-sorted (keep (λ i. has_key i vb) (keys va)) i)
        ∙ m)

  count_row-IsCounted :
      0 < length shared_ids
      → IsCounted
          (value a splits key)
          (value b splits key)
          (count_row (paired_values (values a splits key) (values b splits key) shared_ids))
  unfolding count_row
  count_row-IsCounted some_ids = record {
    ids = shared_ids;
    nonempty = some_ids;
    once = shared_once;
    n = pairs_all;
    sum_a = count_if-values (λ x y. x) shared_ids;
    sum_b = count_if-values (λ x y. y) shared_ids;
    only_a = count_if-values (λ x y. x && not y) shared_ids;
    only_b = count_if-values (λ x y. y && not x) shared_ids;
    p_value = refl;
  }

  -- A metric is printed only if some item has a value in both runs, that of the last result with its
  -- id. The row counts each such item once: all of them, those that a run passes, and those that only
  -- the first or only the second passes; and its p-value is that of the last two numbers.
  pub pair_row-IsCounted :
      (r : Row)
      → pair_row a b splits key ≡ some r
      → IsCounted (value a splits key) (value b splits key) r
  unfolding pair_row shared_ids
  pair_row-IsCounted r h =
      let xs = paired_values (values a splits key) (values b splits key) shared_ids in
      let printed : (if length shared_ids == 0 then none else some (count_row xs)) ≡ some r = h in
      elim (Bool-cases (length shared_ids == 0)) [
        | inl empty ↦ let never : none ≡ some r = rw empty at printed in ground arith
        | inr some_ids ↦
            let e : some (count_row xs) ≡ some r = rw some_ids at printed in
            subst (IsCounted (value a splits key) (value b splits key)) (cc e)
              (count_row-IsCounted (ground arith))
      ]
