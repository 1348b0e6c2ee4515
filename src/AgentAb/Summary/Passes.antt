-- ===== src/AgentAb/Summary/Passes.antt =====
-- What cmd_summary has of an arm on a task: the passes of its valid runs, in the order of the file.
use gpu_lab.Base.{inl, inr, ◌≡◌, refl, sym, ap, ◌∙◌, String, Bool, true, false, ◌&&◌}
use gpu_lab.Base.{
  Option, some, List, [], ◌∷◌, ◌++◌, append-nil, append_assoc, if◌then◌else◌, ◌==◌, nat_eq,
  string_eq, eq_of_==,
}
use gpu_lab.Base.{Bool-cases}
use gpu_lab.Base.Dict.{Dict, lookup, insert, lookup-insert}
use gpu_lab.AgentAb.Runs.{Row}
use gpu_lab.AgentAb.Summary.{ByArm, tasks_of, passes_of, or_empty, add_pass, is_counted, by_arm}

-- The passes of the lines that count for an arm on a task.
abbrev pub runs_of : List String → String → String → List Row → List Bool
runs_of void arm task [] = []
runs_of void arm task (r ∷ rs) =
    let rest = runs_of void arm task rs in
    if is_counted void r && (arm == r.slot.arm && task == r.slot.task)
    then r.passed ∷ rest
    else rest

abbrev pub passes : ByArm → String → String → List Bool
passes by arm task = passes_of (tasks_of by arm) task

or_empty-if {ℓ} :
    {A : Type ℓ} (b : Bool) (xs : List A) (o : Option (List A))
    → or_empty (if b then some xs else o) ≡ (if b then xs else or_empty o)
or_empty-if true xs o = refl
or_empty-if false xs o = refl

tasks_of-insert :
    (arm k : String) (v : Dict String (List Bool)) (by : ByArm)
    → tasks_of (insert k v by) arm ≡ (if arm == k then v else tasks_of by arm)
tasks_of-insert arm k v by =
    ap or_empty (lookup-insert arm k v by) ∙ or_empty-if (arm == k) v (lookup arm by)

passes_of-insert :
    (task k : String) (ps : List Bool) (v : Dict String (List Bool))
    → passes_of (insert k ps v) task ≡ (if task == k then ps else passes_of v task)
passes_of-insert task k ps v =
    ap or_empty (lookup-insert task k ps v) ∙ or_empty-if (task == k) ps (lookup task v)

passes-add_pass :
    (by : ByArm) (r : Row) (arm task : String)
    → passes (add_pass by r) arm task ≡ (
        if arm == r.slot.arm && task == r.slot.task
        then passes by arm task ++ (r.passed ∷ [])
        else passes by arm task)
unfolding add_pass
passes-add_pass by r arm task =
    let v = tasks_of by r.slot.arm in
    let ps = passes_of v r.slot.task ++ (r.passed ∷ []) in
    let outer = tasks_of-insert arm r.slot.arm (insert r.slot.task ps v) by in
    let inner = passes_of-insert task r.slot.task ps v in
    elim (Bool-cases (arm == r.slot.arm)) [
      | inl e ↦
          let same = eq_of_== arm r.slot.arm e in
          elim (Bool-cases (task == r.slot.task)) [
            | inl f ↦
                let also = eq_of_== task r.slot.task f in
                rw (e, f)
                  (ap (λ d. passes_of d task) (rw e at outer)
                    ∙ rw f at inner
                    ∙ ap (λ a. passes_of (tasks_of by a) r.slot.task ++ (r.passed ∷ [])) (sym same)
                    ∙ ap (λ t. passes_of (tasks_of by arm) t ++ (r.passed ∷ [])) (sym also))
            | inr f ↦
                rw (e, f)
                  (ap (λ d. passes_of d task) (rw e at outer)
                    ∙ rw f at inner
                    ∙ ap (λ a. passes_of (tasks_of by a) task) (sym same))
          ]
      | inr e ↦ rw e (ap (λ d. passes_of d task) (rw e at outer))
    ]

pub passes-by_arm :
    (void : List String) (by : ByArm) (rows : List Row) (arm task : String)
    → passes (by_arm void by rows) arm task ≡ passes by arm task ++ runs_of void arm task rows
unfolding by_arm
passes-by_arm void by [] arm task = sym (append-nil (passes by arm task))
passes-by_arm void by (r ∷ rs) arm task =
    let rest = runs_of void arm task rs in
    passes-by_arm void (if is_counted void r then add_pass by r else by) rs arm task
    ∙ elim (Bool-cases (is_counted void r)) [
      | inl c ↦
          let one = passes-add_pass by r arm task in
          elim (Bool-cases (arm == r.slot.arm && task == r.slot.task)) [
            | inl m ↦
                rw (c, m)
                  (ap (λ ps. ps ++ rest) (rw m at one)
                    ∙ append_assoc (passes by arm task) (r.passed ∷ []) rest)
            | inr m ↦ rw (c, m) (ap (λ ps. ps ++ rest) (rw m at one))
          ]
      | inr c ↦ rw c refl
    ]
