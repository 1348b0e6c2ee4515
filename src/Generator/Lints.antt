-- ===== src/Generator/Lints.antt =====
-- The samples that are built from the corpus.
use gpu_lab.Base.{String, ◌≡◌, refl, sym, subst, ap, ◌∙◌, inl, inr, true}
use gpu_lab.Base.{some, List, [], ◌∷◌}
use gpu_lab.Base.{nat_eq, string_eq, take, All, Option-cases}
use gpu_lab.Base.Alls.{All-imp, All-take}
use gpu_lab.Base.Text.{has_part}
use gpu_lab.Base.Format.{format, after_first}
use gpu_lab.Base.Random.{Random, ◌>>=◌, Returns}
use gpu_lab.Base.Collected.{Counted, Pieces, Returns-Pieces}
use gpu_lab.DatasetAudit.Samples.{require}
use gpu_lab.DatasetAudit.Gates.{audit_sample, is_command}
use gpu_lab.Generator.Records.{Trajectory}
use gpu_lab.Generator.Clippy.{
  Diagnostic, group_onto, ask, ask_fix, asks_for, clippy_prompt, clippy_cmd, clippy_answer,
  clippy_trajectory, record_samples, lint_samples, generate_clippy_samples,
}
use gpu_lab.Generator.Harvested.{IsVerified, HasSolidName, extract-IsVerified}
use gpu_lab.Generator.Grouped.{IsReady, IsGroup, group_onto-IsGroup}
use gpu_lab.Generator.Harvest.{CompilerMessage, extract}
use gpu_lab.Generator.Audited.{cites_shown, grounded-audit}

-- A sample built from a record: it shows the lint's short name, and the audit passes it if the
-- flags that its answer cites are shown.
abbrev pub IsSampleOf : String → Diagnostic → Trajectory → Type 0
IsSampleOf lint d x =
    (short : String) × (prompt : String) × (after_first "::" lint ≡ some short)
    × (x ≡ clippy_trajectory lint short d prompt)
    × (has_part short d.rendered ≡ true)
    × (audit_sample x.sample ≡ require 4 (cites_shown d.rendered (clippy_answer lint d)))

-- The samples of a lint: one for each of its first fourteen records.
abbrev pub IsLintOf : String × List Diagnostic → List Trajectory → Type 0
IsLintOf group = Pieces (λ d. Counted (IsSampleOf group.0 d) 1) (take 14 group.1)

abbrev tail_of : List String → List String
tail_of [] = []
tail_of (x ∷ xs) = xs

abbrev Fills : String → Diagnostic → String → Type 0
Fills short d t = (p : String) × (clippy_prompt short d t ≡ some p)

ask-Fills : (short : String) (d : Diagnostic) → All (Fills short d) ask
unfolding format string_eq nat_eq
ask-Fills short d = ((_, refl), ((_, refl), ((_, refl), ((_, refl), tt))))

ask_fix-Fills : (short : String) (d : Diagnostic) → All (Fills short d) ask_fix
unfolding format string_eq nat_eq
ask_fix-Fills short d = ((_, refl), ((_, refl), ((_, refl), tt)))

module _ (r : Random) where
  -- A draw from the templates for a record gives a prompt that can be filled in.
  drawn_prompt :
      (short : String) (d : Diagnostic) (s : r.State)
      → (drawn : String × r.State) × (r.choice (asks_for d) s ≡ some drawn) × Fills short d drawn.0
  drawn_prompt short d s = elim (Option-cases d.suggestion) [
    | inl e ↦
        let (drawn, got) =
          r.choice-returns "What does clippy flag at {file}:{line}?" (tail_of ask) s in
        rw (asks_for, e)
          (drawn, got, r.choice-from (Fills short d) ask s drawn got (ask-Fills short d))
    | inr (fix, e) ↦
        let (drawn, got) =
          r.choice-returns "How should I fix the {short} warning in {file}?" (tail_of ask_fix) s in
        rw (asks_for, e)
          (drawn, got, r.choice-from (Fills short d) ask_fix s drawn got (ask_fix-Fills short d))
  ]

  record_samples-IsSampleOf :
      (lint short : String) (d : Diagnostic) (s : r.State)
      → after_first "::" lint ≡ some short
      → IsReady lint d
      → Returns (Counted (IsSampleOf lint d) 1) (record_samples r lint short d) s
  unfolding record_samples
  record_samples-IsSampleOf lint short d s named (same, (found, e, shown), vetted) =
      let both : some found ≡ some short = sym e ∙ ap (after_first "::") same ∙ named in
      let has : has_part short d.rendered ≡ true =
        subst (λ x. has_part x d.rendered ≡ true) (cc both) shown in
      let (drawn, got, fill) = drawn_prompt short d s in
      let (p, filled) = fill in
      let judged =
        grounded-audit (some lint) short p (clippy_cmd d) d.rendered (clippy_answer lint d) vetted
          has in
      (
        clippy_trajectory lint short d p ∷ [],
        drawn.1,
        rw (record_samples, ◌>>=◌, got, filled) refl,
        (refl, ((short, p, named, refl, has, judged), tt)),
      )

  lint_samples-IsLintOf :
      (group : String × List Diagnostic) (s : r.State)
      → IsGroup group
      → Returns (IsLintOf group) (lint_samples r group) s
  unfolding lint_samples
  lint_samples-IsLintOf (lint, recs) s ((short, named), ready) =
      let used = take 14 recs in
      let (xs, t, run, held) =
        Returns-Pieces (λ d. Counted (IsSampleOf lint d) 1) (record_samples r lint short) used s
          (All-imp (IsReady lint) used (λ d h u. record_samples-IsSampleOf lint short d u named h)
            (All-take (IsReady lint) 14 recs ready)) in
      (xs, t, rw (lint_samples, named, ◌>>=◌) run, held)

pub generate_clippy_samples-IsLintOf :
    (r : Random) (corpus : List Diagnostic) (s : r.State)
    → All (λ d. IsVerified d × (is_command (clippy_cmd d) ≡ true)) corpus
    → Returns (Pieces IsLintOf (group_onto corpus [])) (generate_clippy_samples r (some corpus)) s
unfolding generate_clippy_samples
generate_clippy_samples-IsLintOf r corpus s ready =
    let groups = group_onto-IsGroup corpus [] ready tt in
    Returns-Pieces IsLintOf (lint_samples r) (group_onto corpus []) s (
      All-imp IsGroup (group_onto corpus []) (λ group h t. lint_samples-IsLintOf r group t h)
        groups)

All-both {ℓ κ μ} :
    {A : Type ℓ} (P : A → Type κ) (Q : A → Type μ) (xs : List A)
    → All P xs
    → All Q xs
    → All (λ x. P x × Q x) xs
All-both P Q [] p q = tt
All-both P Q (x ∷ xs) p q = ((p.0, q.0), All-both P Q xs p.1 q.1)

-- From the records that `extract` returns, where the short name of every lint is not empty and has
-- no blank at its end and the commands pass the audit's check, the generator returns one sample for
-- each of the first fourteen records of every lint, lint after lint and record after record. Each is
-- built from its record and shows the part of its lint's name behind `::`, and the audit passes it
-- exactly if the flags that its answer cites are shown.
pub generate_clippy_samples-extract :
    (r : Random) (ms : List CompilerMessage) (name : String) (corpus : List Diagnostic)
    (s : r.State)
    → All HasSolidName ms
    → extract ms name ≡ some corpus
    → All (λ d. is_command (clippy_cmd d) ≡ true) corpus
    → Returns (Pieces IsLintOf (group_onto corpus [])) (generate_clippy_samples r (some corpus)) s
generate_clippy_samples-extract r ms name corpus s solid run vetted =
    generate_clippy_samples-IsLintOf r corpus s (
      All-both IsVerified (λ d. is_command (clippy_cmd d) ≡ true) corpus
        (extract-IsVerified ms name corpus solid run) vetted)
