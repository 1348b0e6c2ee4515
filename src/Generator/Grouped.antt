-- ===== src/Generator/Grouped.antt =====
-- training/dataset_generator.py: the grouping of the corpus by lint.
use gpu_lab.Base.{String, ◌≡◌, refl, sym, subst, ap, ◌∙◌, inl, inr, true}
use gpu_lab.Base.{none, some, List, [], ◌∷◌, ◌++◌, append-nil, append_assoc, ◌==◌}
use gpu_lab.Base.{nat_eq, string_eq, keep, All, Bool-cases, eq_of_==}
use gpu_lab.Base.{if◌then◌else◌}
use gpu_lab.Base.Dict.{Dict, lookup, insert, lookup-insert}
use gpu_lab.Base.Alls.{All-append}
use gpu_lab.Base.Format.{after_first}
use gpu_lab.DatasetAudit.Gates.{is_command}
use gpu_lab.Generator.Clippy.{Diagnostic, group_onto, clippy_cmd}
use gpu_lab.Generator.Harvested.{IsVerified}

-- The records under a key.
abbrev pub under : String → Dict String (List Diagnostic) → List Diagnostic
under lint by_lint = elim (lookup lint by_lint) [ none ↦ [] | some recs ↦ recs ]

under-insert :
    (j k : String) (v : List Diagnostic) (by_lint : Dict String (List Diagnostic))
    → under j (insert k v by_lint) ≡ (if j == k then v else under j by_lint)
under-insert j k v by_lint = elim (Bool-cases (j == k)) [
  | inl e ↦ rw (under, lookup-insert j k v by_lint, e) refl
  | inr e ↦ rw (under, lookup-insert j k v by_lint, e) refl
]

group_onto-under :
    (lint : String) (ds : List Diagnostic) (by_lint : Dict String (List Diagnostic))
    → under lint (group_onto ds by_lint) ≡ under lint by_lint ++ keep (λ d. lint == d.lint) ds
unfolding group_onto
group_onto-under lint [] by_lint = sym (append-nil (under lint by_lint))
group_onto-under lint (d ∷ ds) by_lint =
    let old = under d.lint by_lint in
    let next = insert d.lint (old ++ d ∷ []) by_lint in
    let rest = group_onto-under lint ds next in
    let later = keep (λ k. lint == k.lint) ds in
    let step = under-insert lint d.lint (old ++ d ∷ []) by_lint in
    elim (Bool-cases (lint == d.lint)) [
      | inl e ↦
          let placed : under lint next ≡ old ++ d ∷ [] = rw e at step in
          let place : old ≡ under lint by_lint =
            ap (λ l. under l by_lint) (sym (eq_of_== lint d.lint e)) in
          rw e (
            rest
            ∙ ap (λ x. x ++ later) placed
            ∙ append_assoc old (d ∷ []) later
            ∙ ap (λ x. x ++ (d ∷ later)) place)
      | inr e ↦
          let kept : under lint next ≡ under lint by_lint = rw e at step in
          rw e (rest ∙ ap (λ x. x ++ later) kept)
    ]

-- The dict of the corpus gives for every lint its records, in the order of the corpus.
pub group_onto-refines :
    (lint : String) (corpus : List Diagnostic)
    → under lint (group_onto corpus []) ≡ keep (λ d. lint == d.lint) corpus
unfolding lookup
group_onto-refines lint corpus = group_onto-under lint corpus []

-- A record whose short name is shown, and whose command passes the audit's check.
abbrev pub IsReady : String → Diagnostic → Type 0
IsReady lint d = (d.lint ≡ lint) × IsVerified d × (is_command (clippy_cmd d) ≡ true)

abbrev pub IsGroup : String × List Diagnostic → Type 0
IsGroup (lint, recs) =
    ((short : String) × (after_first "::" lint ≡ some short)) × All (IsReady lint) recs

insert-IsGroup :
    (lint : String) (v : List Diagnostic) (by_lint : Dict String (List Diagnostic))
    → IsGroup (lint, v)
    → All IsGroup by_lint
    → All IsGroup (insert lint v by_lint)
unfolding insert
insert-IsGroup lint v [] g h = (g, tt)
insert-IsGroup lint v ((k, w) ∷ by_lint) g h = elim (Bool-cases (lint == k)) [
  | inl e ↦ rw (insert, e) (subst (λ j. IsGroup (j, v)) (eq_of_== lint k e) g, h.1)
  | inr e ↦ rw (insert, e) (h.0, insert-IsGroup lint v by_lint g h.1)
]

under-IsReady :
    (lint : String) (by_lint : Dict String (List Diagnostic))
    → All IsGroup by_lint
    → All (IsReady lint) (under lint by_lint)
unfolding lookup
under-IsReady lint [] h = tt
under-IsReady lint ((k, w) ∷ by_lint) h = elim (Bool-cases (lint == k)) [
  | inl e ↦ rw (under, lookup, e) (subst (λ j. All (IsReady j) w) (sym (eq_of_== lint k e)) h.0.1)
  | inr e ↦ rw (under, lookup, e) (under-IsReady lint by_lint h.1)
]

pub group_onto-IsGroup :
    (ds : List Diagnostic) (by_lint : Dict String (List Diagnostic))
    → All (λ d. IsVerified d × (is_command (clippy_cmd d) ≡ true)) ds
    → All IsGroup by_lint
    → All IsGroup (group_onto ds by_lint)
unfolding group_onto
group_onto-IsGroup [] by_lint h g = g
group_onto-IsGroup (d ∷ ds) by_lint h g =
    let old = under d.lint by_lint in
    let (short, e, shown) = h.0.0 in
    let here : IsReady d.lint d = (refl, h.0.0, h.0.1) in
    let group : IsGroup (d.lint, old ++ d ∷ []) = (
      (short, e),
      All-append (IsReady d.lint) old (d ∷ []) (under-IsReady d.lint by_lint g) (here, tt),
    ) in
    group_onto-IsGroup ds (insert d.lint (old ++ d ∷ []) by_lint) h.1
      (insert-IsGroup d.lint (old ++ d ∷ []) by_lint group g)
