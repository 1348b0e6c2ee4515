-- ===== src/AgentAb/Arms/Accepted.antt =====
-- Which command lines are accepted, and which of their arms can be read.
use gpu_lab.Base.{
  String, ◌≡◌, refl, sym, ap, ◌∙◌, ◌≤◌, ◌↔◌, ◌⊎◌, inl, inr, arith, true, false, ◌&&◌, ◌||◌, not,
}
use gpu_lab.Base.{Option, none, some, List, [], ◌∷◌, ◌++◌, ◌==◌, string_eq, nat_eq}
use gpu_lab.Base.{take, contains, length, All, Bool-cases, Option-cases, and-true}
use gpu_lab.Base.Text.{pieces}
use gpu_lab.AgentAb.Plan.{Options, arms, harnesses}
use gpu_lab.AgentAb.Arms.{
  models_by_name, model_of, is_some, reading_of, is_named, is_arm, first_bad, check_args, ready,
  value_error, read_parts, read_arm,
}

-- A fourth part is too many.
abbrev pub IsReading : String → String → String → String → List String → Type 0
IsReading arm h mode model rest =
    ((rest ≡ []) × (read_arm arm ≡ ready (h == "codex") model (mode == "on")))
    ⊎ ((1 ≤ length rest) × (read_arm arm ≡ value_error))

-- An arm whose first three parts are a harness, a model and a mode, and what a run reads of it.
abbrev pub Reads : String → Type 0
Reads arm =
    (h : String) × (m : String) × (mode : String) × (rest : List String) × (model : String)
    × (pieces "-" arm ≡ h ∷ m ∷ mode ∷ rest)
    × (contains harnesses h ≡ true)
    × (model_of m models_by_name ≡ some model)
    × ((mode == "off" || mode == "on") ≡ true)
    × IsReading arm h mode model rest

some-of_is_some : (o : Option String) → is_some o ≡ true → (a : String) × (o ≡ some a)
some-of_is_some none h = absurd (ground (arith, h))
some-of_is_some (some a) h = (a, refl)

IsReading-read :
    (arm h m mode model : String) (rest : List String)
    → pieces "-" arm ≡ h ∷ m ∷ mode ∷ rest
    → model_of m models_by_name ≡ some model
    → IsReading arm h mode model rest
unfolding read_arm
IsReading-read arm h m mode model [] e found =
    inl (refl, ap read_parts e ∙ ap (reading_of h mode) found)
IsReading-read arm h m mode model (x ∷ rest) e found = inr (omega arith, ap read_parts e)

named-parts :
    (h m mode : String)
    → is_named (h ∷ m ∷ mode ∷ []) ≡ true
    → (contains harnesses h ≡ true)
      × ((is_some (model_of m models_by_name) ≡ true) × ((mode == "off" || mode == "on") ≡ true))
named-parts h m mode e =
    let model = is_some (model_of m models_by_name) in
    let is_mode = mode == "off" || mode == "on" in
    let parts = and-true (contains harnesses h && model) is_mode e in
    let known = and-true (contains harnesses h) model parts.0 in (known.0, (known.1, parts.1))

no_mode : (h m : String) → is_named (h ∷ m ∷ "" ∷ []) ≡ true → ⊥
unfolding string_eq
no_mode h m e = ground (arith, (named-parts h m "" e).1.1)

Reads-named :
    (arm : String) (ps : List String)
    → pieces "-" arm ≡ ps
    → is_named (take 3 (ps ++ "" ∷ "" ∷ [])) ≡ true
    → Reads arm
Reads-named arm [] e h = absurd (ground (arith, h))
Reads-named arm (x ∷ []) e h = absurd (no_mode x "" h)
Reads-named arm (x ∷ y ∷ []) e h = absurd (no_mode x y h)
Reads-named arm (x ∷ y ∷ z ∷ rest) e h =
    let known = named-parts x y z h in
    let (model, found) = some-of_is_some (model_of y models_by_name) known.1.0 in
    (
      x,
      y,
      z,
      rest,
      model,
      e,
      known.0,
      found,
      known.1.1,
      IsReading-read arm x y z model rest e found,
    )

first_bad-none : (ss : List String) → first_bad ss ≡ none → All Reads ss
first_bad-none [] h = tt
first_bad-none (arm ∷ ss) h = elim (Bool-cases (is_arm arm)) [
  | inl e ↦ (Reads-named arm (pieces "-" arm) refl e, first_bad-none ss (ground (arith, h, e)))
  | inr e ↦ let bad : some arm ≡ none = rw (first_bad, e) at h in ground (arith, bad)
]

is_arm-Reads : (arm : String) → Reads arm → is_arm arm ≡ true
is_arm-Reads arm (h, m, mode, rest, model, e, harness, found, is_mode, _) =
    let known : is_some (model_of m models_by_name) ≡ true = ap is_some found in
    let named : is_named (h ∷ m ∷ mode ∷ []) ≡ true = ground (arith, harness, known, is_mode) in
    ap (λ ps. is_named (take 3 (ps ++ "" ∷ "" ∷ []))) e ∙ named

none-of_Reads : (ss : List String) → All Reads ss → first_bad ss ≡ none
none-of_Reads [] h = refl
none-of_Reads (arm ∷ ss) h =
    let good = is_arm-Reads arm h.0 in ground (arith, good, none-of_Reads ss h.1)

-- The command line is accepted exactly if --reps is at least 1, the first three parts of each arm that
-- it names are a harness, a model and a mode, and --out is given or only the walls are asked for. A
-- run reads such an arm as what it names if it has no fourth part, and raises ValueError otherwise.
pub check_args-accepts :
    (a : Options) (cmd out : String)
    → (check_args a cmd out ≡ none) ↔ (
        (1 ≤ a.reps)
        × (All Reads (arms [] a.arms) × ((out == "" && not (cmd == "preflight")) ≡ false)))
unfolding check_args
check_args-accepts a cmd out = elim (Option-cases (first_bad (arms [] a.arms))) [
  | inl e ↦
      let named = first_bad-none (arms [] a.arms) e in
      (
        λ h.
            let here = rw (check_args, e) at h in
            (ground (arith, here), (named, ground (arith, here))),
        λ h. let given = h.1.1 in let some_reps = h.0 in rw e (ground (arith, given, some_reps)),
      )
  | inr (arm, e) ↦ (
    λ h. let here = rw (check_args, e) at h in absurd (ground (arith, here)),
    λ h.
        let good = none-of_Reads (arms [] a.arms) h.1.0 in
        let bad : Path (Option String) none (some arm) = sym good ∙ e in
        absurd (ground (arith, bad)),
  )
]
