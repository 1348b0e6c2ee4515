-- ===== src/Generator/Judged.antt =====
-- What the generated samples have, and how many there are.
use Prim.Native.String.{String}
use gpu_lab.Base.{◌*◌, ◌≡◌, refl, sym, subst, inl, inr, true}
use gpu_lab.Base.{none, some, List, [], ◌∷◌}
use gpu_lab.Base.{arith, ◌==◌, nat_eq, string_eq, All, eq_of_==, Bool-cases, Option-cases}
use gpu_lab.Base.{length, take}
use gpu_lab.Base.Text.{has_part}
use gpu_lab.Base.Format.{splitlines, format}
use gpu_lab.Base.Alls.{All-imp, All-take}
use gpu_lab.Base.Parts.{}
use gpu_lab.Base.Random.{Random, ◌>>=◌, Returns}
use gpu_lab.Base.Collected.{
  Counted, total, total_ones, total_twos, Returns-collect, Pieces, Returns-Pieces, Pieces-Counted,
}
use gpu_lab.DatasetAudit.Samples.{require}
use gpu_lab.DatasetAudit.Gates.{audit_sample, is_command}
use gpu_lab.Generator.Specs.{CliSpec}
use gpu_lab.Generator.Traps.{cli_prompt_templates}
use gpu_lab.Generator.Help.{Entry, extract_flags_from_help, get_observation_for_flag}
use gpu_lab.Generator.Window.{get_observation_for_flag-shows}
use gpu_lab.Generator.Extracted.{IsShown, extract_flags_from_help-IsShown}
use gpu_lab.Generator.Records.{Shell, run_cmd, Trajectory}
use gpu_lab.Generator.Cli.{
  cli_prompt, cli_trajectory, grounded_answer, template_samples, entry_samples, found_samples,
  tool_samples, generate_cli_samples,
}
use gpu_lab.Generator.Audited.{cites_shown, grounded-audit}

-- The prompt of a template can be filled in.
abbrev Fills : CliSpec → Entry → String → Type 0
Fills spec e t = (p : String) × (cli_prompt spec e t ≡ some p)

templates-Fills : (spec : CliSpec) (e : Entry) → All (Fills spec e) cli_prompt_templates
unfolding format string_eq nat_eq
templates-Fills spec e =
    ((_, refl), ((_, refl), ((_, refl), ((_, refl), ((_, refl), ((_, refl), tt))))))

-- A sample built from an entry: it shows the entry's flag, and the audit passes it if the flags
-- that its answer cites are shown.
abbrev pub IsSampleOf : CliSpec → Entry → Trajectory → Type 0
IsSampleOf spec e x =
    (shown : String) × (prompt : String) × (x ≡ cli_trajectory spec e shown prompt)
    × (has_part e.flag shown ≡ true)
    × (audit_sample x.sample ≡ require 4 (cites_shown shown (grounded_answer spec e)))

abbrev pub IsJudged : Trajectory → Type 0
IsJudged x = (spec : CliSpec) × (e : Entry) × IsSampleOf spec e x

-- The entries from which samples of a tool are built.
abbrev pub entries_used : Shell → CliSpec → List Entry
entries_used shell spec = elim (run_cmd shell spec.help_cmd) [
  | none ↦ []
  | some raw_help ↦ take 12 (extract_flags_from_help raw_help)
]

no_entries : extract_flags_from_help "" ≡ []
unfolding extract_flags_from_help
no_entries = refl

template_samples-IsJudged :
    {S : Type 0} (spec : CliSpec) (e : Entry) (obs t : String) (s : S)
    → is_command spec.help_cmd ≡ true
    → has_part e.flag obs ≡ true
    → Fills spec e t
    → Returns (Counted (IsSampleOf spec e) 1) (template_samples spec e obs t) s
template_samples-IsJudged spec e obs t s vetted has (p, f) =
    let judged =
      grounded-audit (some spec.tool_name) e.flag p spec.help_cmd obs (grounded_answer spec e)
        vetted has in
    (
      cli_trajectory spec e obs p ∷ [],
      s,
      rw (f, ◌>>=◌) refl,
      (refl, ((obs, p, refl, has, judged), tt)),
    )

-- The samples of a tool: two for each of its entries.
abbrev pub IsToolOf : Shell → CliSpec → List Trajectory → Type 0
IsToolOf shell spec = Pieces (λ e. Counted (IsSampleOf spec e) 2) (entries_used shell spec)

module _ (r : Random) (shell : Shell) where
  entry_samples-IsJudged :
      (spec : CliSpec) (lines : List String) (e : Entry) (s : r.State)
      → is_command spec.help_cmd ≡ true
      → IsShown lines e
      → Returns (Counted (IsSampleOf spec e) 2) (entry_samples r shell spec lines e) s
  unfolding entry_samples
  entry_samples-IsJudged spec lines e s vetted shown =
      let obs = get_observation_for_flag lines (some e.flag) 80 in
      let has = get_observation_for_flag-shows e.flag lines 80 (omega arith) shown.0 in
      let (drawn, got, two) = r.sample-returns 2 cli_prompt_templates s (omega arith) in
      let fills =
        r.sample-from (Fills spec e) 2 cli_prompt_templates s drawn got (templates-Fills spec e) in
      let built =
        Returns-collect (IsSampleOf spec e) (template_samples spec e obs) (λ _. 1) drawn.0 drawn.1
          (All-imp (Fills spec e) drawn.0
            (λ t f u. template_samples-IsJudged spec e obs t u vetted has f) fills) in
      let (ys, u, run, held) = built in
      (ys, u, rw (has, got, ◌>>=◌) run, (omega (arith, held.0, two, total_ones drawn.0), held.1))

  found_samples-IsJudged :
      (spec : CliSpec) (lines : List String) (es : List Entry) (s : r.State)
      → is_command spec.help_cmd ≡ true
      → All (IsShown lines) es
      → Returns
          (Pieces (λ e. Counted (IsSampleOf spec e) 2) (take 12 es))
          (found_samples r shell spec lines es)
          s
  unfolding found_samples
  found_samples-IsJudged spec lines [] s vetted shown = ([], s, refl, refl)
  found_samples-IsJudged spec lines (e ∷ es) s vetted shown =
      let used = take 12 (e ∷ es) in
      Returns-Pieces (λ k. Counted (IsSampleOf spec k) 2) (entry_samples r shell spec lines) used s
        (All-imp (IsShown lines) used (λ k h u. entry_samples-IsJudged spec lines k u vetted h)
          (All-take (IsShown lines) 12 (e ∷ es) shown))

  tool_samples-IsJudged :
      (spec : CliSpec) (s : r.State)
      → is_command spec.help_cmd ≡ true
      → Returns (IsToolOf shell spec) (tool_samples r shell spec) s
  unfolding tool_samples
  tool_samples-IsJudged spec s vetted = elim (Option-cases (run_cmd shell spec.help_cmd)) [
    | inl e ↦ rw (entries_used, tool_samples, e) ([], s, refl, refl)
    | inr (raw, e) ↦
        let lines = splitlines raw in
        let es = extract_flags_from_help raw in
        elim (Bool-cases (raw == "")) [
          | inl f ↦
              let none_found : es ≡ [] =
                subst (λ x. extract_flags_from_help x ≡ []) (sym (eq_of_== raw "" f)) no_entries in
              rw (entries_used, tool_samples, e, f, none_found) ([], s, refl, refl)
          | inr f ↦
              rw (entries_used, tool_samples, e, f)
                (found_samples-IsJudged spec lines es s vetted
                  (extract_flags_from_help-IsShown raw))
        ]
  ]

  -- Where every command of the table passes the audit's check, the loop returns, with two samples
  -- for each of the first twelve flags of each help text, and each shows its flag.
  pub generate_cli_samples-IsJudged :
      (specs : List CliSpec) (s : r.State)
      → All (λ spec. is_command spec.help_cmd ≡ true) specs
      → Returns (Pieces (IsToolOf shell) specs) (generate_cli_samples r shell specs) s
  unfolding generate_cli_samples
  generate_cli_samples-IsJudged specs s vetted =
      Returns-Pieces (IsToolOf shell) (tool_samples r shell) specs s (
        All-imp (λ spec. is_command spec.help_cmd ≡ true) specs
          (λ spec h t. tool_samples-IsJudged spec t h) vetted)

  -- What this says of their number.
  pub Pieces-IsJudged :
      (specs : List CliSpec) (cli : List Trajectory)
      → Pieces (IsToolOf shell) specs cli
      → Counted IsJudged (total (λ spec. 2 * length (entries_used shell spec)) specs) cli
  Pieces-IsJudged specs cli h =
      Pieces-Counted (IsToolOf shell) IsJudged (λ spec. 2 * length (entries_used shell spec)) specs
        cli
        (λ spec us tool.
          let es = entries_used shell spec in
          let (n, held) =
            Pieces-Counted (λ e. Counted (IsSampleOf spec e) 2) IsJudged (λ _. 2) es us
              (λ e vs c. (c.0, All-imp (IsSampleOf spec e) vs (λ x k. (spec, e, k)) c.1)) tool in
          (omega (arith, n, total_twos es), held))
        h
