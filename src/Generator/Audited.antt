-- ===== src/Generator/Audited.antt =====
-- How the audit takes a sample that has the form of the generated ones.
use Prim.Native.String.{String}
use gpu_lab.Base.{◌≡◌, refl, inl, inr, Bool, true, Option, some, List, [], ◌∷◌}
use gpu_lab.Base.{◌==◌, nat_eq, string_eq, all, any, Bool-cases}
use gpu_lab.Base.Text.{has_part, has_part_lower}
use gpu_lab.DatasetAudit.Samples.{Message, Sample, Verdict, pass, reject, crash}
use gpu_lab.DatasetAudit.Samples.{and_then, require, each}
use gpu_lab.DatasetAudit.Samples.{
  arguments_ok, call_ok, calls_ok, tool_calls_ok, message_ok, audit_schema_and_roles,
}
use gpu_lab.DatasetAudit.Gates.{
  cited_flags, claim_ok, cites_ok, audit_strict_grounding, audit_trap_refusal, is_command,
}
use gpu_lab.DatasetAudit.Gates.{
  bash_ok, command_ok, commands_in, audit_empirical_commands, tally, audit_sample, refusal_cues,
}
use gpu_lab.Generator.Records.{user, answered, response, bash_call}

-- The messages of a sample that runs one command.
abbrev pub looked_up : String → String → String → String → List Message
looked_up prompt cmd shown answer =
    user prompt ∷ bash_call cmd ∷ response shown ∷ answered answer ∷ []

abbrev pub grounded : Option String → String → String → String → String → String → Sample
grounded tool flag prompt cmd shown answer = record {
  type = some "cli_grounded";
  flag = some flag;
  tool = tool;
  messages = looked_up prompt cmd shown answer;
}

abbrev pub refused : Option String → Option String → String → String → String → String → Sample
refused tool flag prompt cmd shown answer = record {
  type = some "trap_refusal";
  flag = flag;
  tool = tool;
  messages = looked_up prompt cmd shown answer;
}

-- The flags that the answer cites all stand in what the command shows.
abbrev pub cites_shown : String → String → Bool
cites_shown shown answer = all (λ f. has_part f shown) (cited_flags answer)

cites_ok-shown :
    (cited : List String) (t : String)
    → cites_ok cited (some t) ≡ require 4 (all (λ f. has_part f t) cited)
unfolding cites_ok
cites_ok-shown [] t = refl
cites_ok-shown (f ∷ fs) t = refl

claim_ok-pass : (f t : String) → has_part f t ≡ true → claim_ok (some f) (some t) ≡ pass
unfolding claim_ok
claim_ok-pass f t h = elim (Bool-cases (f == "")) [ inl e ↦ rw e refl | inr e ↦ rw (e, h) refl ]

and_then-done : (v : Verdict) → and_then v (and_then (and_then pass pass) pass) ≡ v
and_then-done pass = refl
and_then-done (reject n) = refl
and_then-done crash = refl

-- A grounded sample whose flag is shown passes if the flags that its answer cites are shown.
pub grounded-audit :
    (tool : Option String) (flag prompt cmd shown answer : String)
    → is_command cmd ≡ true
    → has_part flag shown ≡ true
    → audit_sample (grounded tool flag prompt cmd shown answer)
      ≡ require 4 (cites_shown shown answer)
unfolding audit_sample each tally audit_schema_and_roles message_ok tool_calls_ok calls_ok call_ok
    arguments_ok audit_strict_grounding audit_trap_refusal audit_empirical_commands commands_in
    command_ok bash_ok string_eq nat_eq
grounded-audit tool flag prompt cmd shown answer vetted has =
    rw (claim_ok-pass flag shown has, cites_ok-shown (cited_flags answer) shown, vetted)
      (and_then-done (require 4 (cites_shown shown answer)))

-- A trap whose answer has a phrase that refutes passes.
pub refused-audit :
    (tool flag : Option String) (prompt cmd shown answer : String)
    → is_command cmd ≡ true
    → any (λ cue. has_part_lower cue answer) refusal_cues ≡ true
    → audit_sample (refused tool flag prompt cmd shown answer) ≡ pass
unfolding audit_sample each tally audit_schema_and_roles message_ok tool_calls_ok calls_ok call_ok
    arguments_ok audit_strict_grounding audit_trap_refusal audit_empirical_commands commands_in
    command_ok bash_ok string_eq nat_eq
refused-audit tool flag prompt cmd shown answer vetted told = rw (told, vetted) refl
