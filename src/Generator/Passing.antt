-- ===== src/Generator/Passing.antt =====
-- The traps, the web samples and the replay pass the audit.
use Prim.Native.String.{String}
use gpu_lab.Base.{ℕ, zero, suc, ◌%◌, ◌<>◌, ◌<◌, ◌≡◌, refl, inl, inr, true}
use gpu_lab.Base.{none, some, List, [], ◌∷◌}
use gpu_lab.Base.{arith, if◌then◌else◌, ◌==◌, nat_eq, string_eq, any, All, Bool-cases, Option-cases}
use gpu_lab.Base.{length, take, get_elem?, length-append}
use gpu_lab.Base.Text.{has_part_lower, starts_lower}
use gpu_lab.Base.Format.{splitlines, join_lines, format}
use gpu_lab.Base.Alls.{All-imp, All-every, All-append, All-mapped}
use gpu_lab.Base.Parts.{IsPart, IsPart-right, IsPart-left, has_part_lower-of_IsPart}
use gpu_lab.Base.Random.{Random, ◌>>=◌, Returns}
use gpu_lab.Base.Collected.{Counted, total, Pieces, Returns-Pieces, Pieces-Counted}
use gpu_lab.DatasetAudit.Samples.{pass, each}
use gpu_lab.DatasetAudit.Samples.{
  arguments_ok, call_ok, calls_ok, tool_calls_ok, message_ok, audit_schema_and_roles,
}
use gpu_lab.DatasetAudit.Gates.{
  audit_sample, is_command, refusal_cues, tally, is_technical, uses_tools,
}
use gpu_lab.DatasetAudit.Gates.{audit_strict_grounding, audit_trap_refusal}
use gpu_lab.DatasetAudit.Gates.{command_ok, commands_in, audit_empirical_commands}
use gpu_lab.Generator.Specs.{TrapSpec, WebSpec}
use gpu_lab.Generator.Traps.{trap_prompt_templates}
use gpu_lab.Generator.Records.{Shell, run_cmd, Trajectory}
use gpu_lab.Generator.Refusals.{
  trap_answer, trap_trajectory, trap_prompt, trap_samples, generate_trap_samples, web_trajectory,
  generate_web_samples, conversations, replay_at, generate_conversational_replay,
}
use gpu_lab.Generator.Audited.{refused-audit}

-- The audit passes the sample, and it calls a tool exactly if it is technical.
abbrev pub Passes : Trajectory → Type 0
Passes x = (audit_sample x.sample ≡ pass) × (is_technical x.sample ≡ uses_tools x.sample)

refutes_lower : starts_lower "does not have" "does not have" ≡ true
unfolding starts_lower nat_eq
refutes_lower = refl

cue_in_text : IsPart "does not have" "` does not have a `"
cue_in_text = ("` ", " a `", refl)

trap_answer-refutes :
    (spec : TrapSpec) → any (λ cue. has_part_lower cue (trap_answer spec)) refusal_cues ≡ true
trap_answer-refutes spec =
    let tail : String =
      spec.fake_flag
      <> ("` flag.\n\nThe documentation for `"
          <> (spec.tool_name
              <> ("` does not list any `"
                  <> (spec.fake_flag
                      <> ("` option. Please run `"
                          <> (spec.help_cmd <> "` to see the supported options.")))))) in
    let cue : String = "does not have" in
    let a = IsPart-left cue "` does not have a `" tail cue_in_text in
    let b = IsPart-right cue spec.tool_name ("` does not have a `" <> tail) a in
    let c = IsPart-right cue "` to verify available options. `" _ b in
    let d = IsPart-right cue spec.help_cmd _ c in
    let e = IsPart-right cue "I checked `" _ d in
    let told = has_part_lower-of_IsPart cue (trap_answer spec) refutes_lower e in rw told refl

abbrev TrapFills : TrapSpec → String → Type 0
TrapFills spec t = (p : String) × (trap_prompt spec t ≡ some p)

trap_templates-TrapFills : (spec : TrapSpec) → All (TrapFills spec) trap_prompt_templates
unfolding format string_eq nat_eq
trap_templates-TrapFills spec = ((_, refl), ((_, refl), ((_, refl), ((_, refl), tt))))

-- Whether a sample is built from a row: its command has an output.
abbrev pub has_help : Shell → TrapSpec → ℕ
has_help shell spec = elim (run_cmd shell spec.help_cmd) [
  | none ↦ 0
  | some raw_help ↦ if raw_help == "" then 0 else 1
]

-- A sample built from a row: it passes the audit.
abbrev pub IsTrapOf : TrapSpec → Trajectory → Type 0
IsTrapOf spec x =
    Passes x × ((shown : String) × (prompt : String) × (x ≡ trap_trajectory spec shown prompt))

module _ (r : Random) (shell : Shell) where
  trap_samples-Passes :
      (spec : TrapSpec) (s : r.State)
      → is_command spec.help_cmd ≡ true
      → Returns (Counted (IsTrapOf spec) (has_help shell spec)) (trap_samples r shell spec) s
  unfolding trap_samples string_eq nat_eq
  trap_samples-Passes spec s vetted = elim (Option-cases (run_cmd shell spec.help_cmd)) [
    | inl e ↦ rw (has_help, trap_samples, e) ([], s, refl, (refl, tt))
    | inr (raw, e) ↦ elim (Bool-cases (raw == "")) [
      | inl f ↦ rw (has_help, trap_samples, e, f) ([], s, refl, (refl, tt))
      | inr f ↦
          let rest : List String =
            "How do I use the {fake_flag} flag in {tool}?" ∷ "What does {fake_flag} do in {tool}?"
            ∷ "Can I pass {fake_flag} to {tool} when running it?" ∷ [] in
          let (drawn, got) =
            r.choice-returns "Does {tool} support the {fake_flag} option for {fake_desc}?" rest s in
          let (p, g) =
            r.choice-from (TrapFills spec) trap_prompt_templates s drawn got
              (trap_templates-TrapFills spec) in
          let shown = join_lines (take 120 (splitlines raw)) in
          rw (has_help, trap_samples, e, f)
            (
              trap_trajectory spec shown p ∷ [],
              drawn.1,
              rw (◌>>=◌, got, g) refl,
              (
                refl,
                (
                  (
                    (
                      refused-audit (some spec.tool_name) none p spec.help_cmd shown
                          (trap_answer spec) vetted (trap_answer-refutes spec),
                      refl,
                    ),
                    (shown, p, refl),
                  ),
                  tt,
                ),
              ),
            )
    ]
  ]

  pub generate_trap_samples-Passes :
      (specs : List TrapSpec) (s : r.State)
      → All (λ spec. is_command spec.help_cmd ≡ true) specs
      → Returns
          (Pieces (λ spec. Counted (IsTrapOf spec) (has_help shell spec)) specs)
          (generate_trap_samples r shell specs)
          s
  unfolding generate_trap_samples
  generate_trap_samples-Passes specs s vetted =
      Returns-Pieces (λ spec. Counted (IsTrapOf spec) (has_help shell spec)) (trap_samples r shell)
        specs s
        (All-imp (λ spec. is_command spec.help_cmd ≡ true) specs
          (λ spec h t. trap_samples-Passes spec t h) vetted)

  -- What this says of their number.
  pub Pieces-Passes :
      (specs : List TrapSpec) (trap : List Trajectory)
      → Pieces (λ spec. Counted (IsTrapOf spec) (has_help shell spec)) specs trap
      → Counted Passes (total (has_help shell) specs) trap
  Pieces-Passes specs trap h =
      Pieces-Counted (λ spec. Counted (IsTrapOf spec) (has_help shell spec)) Passes (has_help shell)
        specs trap (λ spec us c. (c.0, All-imp (IsTrapOf spec) us (λ x k. k.0) c.1)) h

pub web_samples-Passes : (specs : List WebSpec) → All Passes (generate_web_samples specs)
unfolding generate_web_samples audit_sample each tally audit_schema_and_roles message_ok
    tool_calls_ok calls_ok call_ok arguments_ok audit_strict_grounding audit_trap_refusal
    audit_empirical_commands commands_in command_ok string_eq nat_eq
web_samples-Passes specs =
    All-mapped Passes web_trajectory specs
      (All-every (λ w. Passes (web_trajectory w)) specs (λ spec. (refl, refl)))

replay_at-Passes : (i : ℕ) → All Passes (replay_at i)
unfolding audit_sample each tally audit_schema_and_roles message_ok tool_calls_ok
    audit_strict_grounding audit_trap_refusal audit_empirical_commands commands_in string_eq nat_eq
replay_at-Passes i = elim (Option-cases (get_elem? conversations (i % length conversations))) [
  | inl e ↦ rw (replay_at, e) tt
  | inr (qa, e) ↦ rw (replay_at, e) ((refl, refl), tt)
]

pub replay-Passes : (n : ℕ) → All Passes (generate_conversational_replay n)
unfolding generate_conversational_replay
replay-Passes zero = tt
replay-Passes (suc n) =
    All-append Passes (generate_conversational_replay n) (replay_at n) (replay-Passes n)
      (replay_at-Passes n)

get_elem?-returns {ℓ} :
    {A : Type ℓ} (xs : List A) (i : ℕ) → i < length xs → (x : A) × (get_elem? xs i ≡ some x)
get_elem?-returns [] i h = absurd (omega arith)
get_elem?-returns (x ∷ xs) zero h = (x, refl)
get_elem?-returns (x ∷ xs) (suc i) h = get_elem?-returns xs i (omega arith)

pub length-replay : (n : ℕ) → length (generate_conversational_replay n) ≡ n
unfolding generate_conversational_replay
length-replay zero = refl
length-replay (suc n) =
    let (qa, e) = get_elem?-returns conversations (n % length conversations) (omega arith) in
    let one : length (replay_at n) ≡ 1 = rw (replay_at, e) refl in
    omega
      (arith, length-replay n, one, length-append (generate_conversational_replay n) (replay_at n))
