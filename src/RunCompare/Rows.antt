-- ===== src/RunCompare/Rows.antt =====
-- What the rows of a comparison count.
use gpu_lab.Base.{inl, inr, ◌≡◌, refl, ◌∙◌, String, Bool, ◌&&◌, not}
use gpu_lab.Base.{Option, none, some, List, [], ◌∷◌, arith, if◌then◌else◌, ◌==◌, string_eq, nat_eq}
use gpu_lab.Base.{contains, Option-cases}
use gpu_lab.Base.Text.{starts_with, lstrip_of}
use gpu_lab.Base.Dict.{Dict, lookup, lookup-insert}
use gpu_lab.RunCompare.{Result, values, add_value, values_onto}

-- The value that a run gives an item: that of the last result with the id, in one of the splits,
-- whose score has the key.
abbrev pub last_value : List String → String → Bool → String → List Result → Option Bool
last_value splits key neg i [] = none
last_value splits key neg i (r ∷ rs) = elim (last_value splits key neg i rs) [
  | some v ↦ some v
  | none ↦
      if i == r.id && contains splits r.split
      then (elim (lookup key r.score) [ none ↦ none | some v ↦ some (if neg then not v else v) ])
      else none
]

lookup-add_value :
    (splits : List String) (key : String) (neg : Bool) (out : Dict String Bool) (r : Result)
    (i : String)
    → lookup i (add_value splits key neg out r)
      ≡ elim (last_value splits key neg i (r ∷ [])) [ some v ↦ some v | none ↦ lookup i out ]
unfolding add_value
lookup-add_value splits key neg out r i = elim (Option-cases (lookup key r.score)) [
  | inl e ↦ ground arith
  | inr (v, e) ↦ ground (arith, lookup-insert i r.id (if neg then not v else v) out)
]

last_value-cons :
    (splits : List String) (key : String) (neg : Bool) (i : String) (r : Result) (rs : List Result)
    → last_value splits key neg i (r ∷ rs) ≡ elim (last_value splits key neg i rs) [
      | some v ↦ some v
      | none ↦ last_value splits key neg i (r ∷ [])
    ]
last_value-cons splits key neg i r rs = elim (Option-cases (last_value splits key neg i rs)) [
  | inl e ↦ rw e
  | inr (v, e) ↦ rw e
]

lookup-values_onto :
    (splits : List String) (key : String) (neg : Bool) (out : Dict String Bool) (rs : List Result)
    (i : String)
    → lookup i (values_onto splits key neg out rs)
      ≡ elim (last_value splits key neg i rs) [ some v ↦ some v | none ↦ lookup i out ]
unfolding values_onto
lookup-values_onto splits key neg out [] i = refl
lookup-values_onto splits key neg out (r ∷ rs) i =
    let ih = lookup-values_onto splits key neg (add_value splits key neg out r) rs i in
    let one = lookup-add_value splits key neg out r i in
    elim (Option-cases (last_value splits key neg i rs)) [
      | inl e ↦ rw e (rw e at ih ∙ one)
      | inr (v, e) ↦ rw e (rw e at ih)
    ]

-- `values` gives an item the value of the last result with its id that is in one of the splits
-- and has the key in its score, negated if the key is written behind `!`.
pub values_last :
    (run : List Result) (splits : List String) (key i : String)
    → lookup i (values run splits key)
      ≡ last_value splits (lstrip_of "!" key) (starts_with key "!") i run
unfolding values lookup
values_last run splits key i =
    let last = last_value splits (lstrip_of "!" key) (starts_with key "!") i run in
    let onto = lookup-values_onto splits (lstrip_of "!" key) (starts_with key "!") [] run i in
    elim (Option-cases last) [ inl e ↦ rw e (rw e at onto) | inr (v, e) ↦ rw e (rw e at onto) ]
