-- ===== src/AgentAb/Summary/Majority.antt =====
-- The verdicts of cmd_summary are majorities of enough valid runs.
use gpu_lab.Base.{◌⊎◌, inl, inr, ℕ, ◌≤◌, ◌≡◌, sym, ap, subst, ◌∙◌, String, Bool, false}
use gpu_lab.Base.{none, some, List, [], ◌∷◌, map, arith, ltb, ◌==◌, nat_eq, string_eq}
use gpu_lab.Base.{length, any, or-false, Option-cases, Bool-cases}
use gpu_lab.Base.Dict.{Dict, lookup}
use gpu_lab.AgentAb.Runs.{Row}
use gpu_lab.AgentAb.Summary.{Amendment, amended, ByArm, or_empty, tasks_of, by_arm, is_short}
use gpu_lab.AgentAb.Summary.{majority, verdict_of, summary}
use gpu_lab.AgentAb.Summary.Passes.{runs_of, passes, passes-by_arm}

any-lookup :
    (f : Dict String (List Bool) → Bool) (by : ByArm) (arm : String) (v : Dict String (List Bool))
    → any (λ e. f e.1) by ≡ false
    → lookup arm by ≡ some v
    → f v ≡ false
unfolding lookup
any-lookup f [] arm v h found = ground arith
any-lookup f ((k, w) ∷ by) arm v h found =
    let split = (or-false (f w) (any (λ e. f e.1) by)).0 h in
    elim (Bool-cases (arm == k)) [
      | inl same ↦
          let is : some w ≡ some v = rw (lookup, same) at found in
          let p : w ≡ v = cc is in subst (λ x. f x ≡ false) p split.0
      | inr other ↦
          let later : lookup arm by ≡ some v = rw (lookup, other) at found in
          any-lookup f by arm v split.1 later
    ]

-- What holds of a verdict, given the passes of each arm on the task.
pub record IsMajority (reps : ℕ) (runs : String → List Bool) (arm : String) (m : Bool)
    : Type 0 where
  pub decides : m ≡ majority (runs arm)
  pub enough : reps ≤ length (runs arm)
  pub others : (other : String) → (runs other ≡ []) ⊎ (reps ≤ length (runs other))

enough_passes :
    (reps : ℕ) (by : ByArm) (arm task : String) (ps : List Bool)
    → is_short reps by task ≡ false
    → lookup task (tasks_of by arm) ≡ some ps
    → reps ≤ length ps
unfolding is_short lookup
enough_passes reps by arm task ps full found = elim (Option-cases (lookup arm by)) [
  | inl e ↦ let never : none ≡ some ps = rw e at found in ground arith
  | inr (v, e) ↦
      let here : lookup task v ≡ some ps = rw e at found in
      let told =
        any-lookup (λ w. elim (lookup task w) [ none ↦ false | some qs ↦ ltb (length qs) reps ]) by
          arm v full e in
      let big : ltb (length ps) reps ≡ false = rw here at told in ground arith
]

verdict_of-IsMajority :
    (reps : ℕ) (by : ByArm) (arm task : String) (m : Bool)
    → verdict_of reps by arm task ≡ some m
    → IsMajority reps (λ a. passes by a task) arm m
unfolding verdict_of
verdict_of-IsMajority reps by arm task m h = elim (Bool-cases (is_short reps by task)) [
  | inl short ↦ ground (arith, rw (verdict_of, short) at h)
  | inr full ↦ elim (Option-cases (lookup task (tasks_of by arm))) [
    | inl e ↦ let never : none ≡ some m = rw (verdict_of, full, e) at h in ground arith
    | inr (ps, e) ↦
        let is : some (majority ps) ≡ some m = rw (verdict_of, full, e) at h in
        let same : majority ps ≡ m = cc is in
        let read : passes by arm task ≡ ps = ap or_empty e in
        let size = enough_passes reps by arm task ps full e in
        record {
          decides = sym same ∙ ap majority (sym read);
          enough = subst (λ q. reps ≤ length q) (sym read) size;
          others = λ other. elim (Option-cases (lookup task (tasks_of by other))) [
            | inl f ↦ inl (ap or_empty f)
            | inr (qs, f) ↦ inr (
                subst (λ q. reps ≤ length q) (sym (ap or_empty f))
                  (enough_passes reps by other task qs full f))
          ];
        }
  ]
]

-- A verdict of an arm on a task is the majority of the passes of its runs on file that are no infra
-- failure, after the regrades, on a task that is not void. These are at least as many as asked for,
-- and so are those of every other arm that has any.
pub summary-IsMajority :
    (reps : ℕ) (amendments : List Amendment) (void : List String) (rows : List Row)
    (arm task : String) (m : Bool)
    → summary reps amendments void rows arm task ≡ some m
    → IsMajority reps (λ a. runs_of void a task (map (amended amendments) rows)) arm m
unfolding summary lookup
summary-IsMajority reps amendments void rows arm task m h =
    let graded = map (amended amendments) rows in
    let by = by_arm void [] graded in
    let stored = verdict_of-IsMajority reps by arm task m h in
    let read = λ (a : String). passes-by_arm void [] graded a task in
    record {
      decides = stored.decides ∙ ap majority (read arm);
      enough = subst (λ q. reps ≤ length q) (read arm) stored.enough;
      others = λ other. elim (stored.others other) [
        | inl e ↦ inl (sym (read other) ∙ e)
        | inr e ↦ inr (subst (λ q. reps ≤ length q) (read other) e)
      ];
    }
