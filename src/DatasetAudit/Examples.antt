-- ===== src/DatasetAudit/Examples.antt =====
-- A dataset that passes the audit, one whose technical samples call no tool, and the theorems there.
use gpu_lab.Base.{ℕ, zero, suc, String, true, false, ◌≡◌, refl}
use gpu_lab.Base.{none, some, List, [], ◌∷◌, ◌++◌, string_eq, nat_eq}
use gpu_lab.Base.Text.{has_part, has_part_lower, strip}
use gpu_lab.DatasetAudit.Samples.{missing, text, object, Call, calls, Message, Sample, pass, each}
use gpu_lab.DatasetAudit.Samples.{
  arguments_ok, call_ok, calls_ok, tool_calls_ok, message_ok, audit_schema_and_roles,
}
use gpu_lab.DatasetAudit.Gates.{
  scan, cited_flags, claim_ok, cites_ok, audit_strict_grounding, audit_trap_refusal,
}
use gpu_lab.DatasetAudit.Gates.{
  bash_ok, command_ok, commands_in, audit_empirical_commands, tally, audit_sample,
}
use gpu_lab.DatasetAudit.Gates.{rate_ok, distinct_tools, run_full_audit}
use gpu_lab.DatasetAudit.Certified.{IsCertified, run_full_audit-IsCertified}

two_flags : cited_flags "use `--all`, not `-a` or ``--x-y`" ≡ "--all" ∷ "--x-y" ∷ []
unfolding cited_flags scan nat_eq
two_flags = refl

abbrev says : String → String → Message
says r t = record { role = some r; tool_calls = none; content = text t }

abbrev asks : Call → Message
asks c = record { role = some "assistant"; tool_calls = some (calls (c ∷ [])); content = missing }

abbrev help : Call
help = record { name = some "bash"; arguments = object (text "ls --help") false }

abbrev search : Call
search = record { name = some "web_search"; arguments = object missing true }

abbrev grounded : String → Sample
grounded t = record {
  type = some "cli_grounded";
  flag = some "--all";
  tool = some t;
  messages =
      says "user" "q" ∷ asks help ∷ says "tool" "-a, --all" ∷ says "assistant" "Use `--all`." ∷ [];
}

abbrev trap : String → Sample
trap t = record {
  type = some "trap_refusal";
  flag = none;
  tool = some t;
  messages = says "user" "q" ∷ asks help ∷ says "assistant" "It Does Not Have that." ∷ [];
}

abbrev web : String → Sample
web t = record {
  type = some "web_research";
  flag = none;
  tool = some t;
  messages = says "user" "q" ∷ asks search ∷ says "assistant" "a" ∷ [];
}

abbrev repeat : ℕ → Sample → List Sample
repeat zero s = []
repeat (suc n) s = s ∷ repeat n s

abbrev dataset : List Sample
dataset =
    grounded "a" ∷ trap "b" ∷ web "c" ∷ web "d" ∷ web "e" ∷ web "f" ∷ web "g" ∷ repeat 43 (web "h")

dataset_passes : run_full_audit dataset ≡ pass
unfolding run_full_audit audit_sample each tally audit_schema_and_roles message_ok tool_calls_ok
    calls_ok call_ok arguments_ok audit_strict_grounding claim_ok cites_ok cited_flags scan
    audit_trap_refusal audit_empirical_commands commands_in command_ok bash_ok rate_ok
    distinct_tools has_part has_part_lower strip string_eq nat_eq
dataset_passes = refl

run_full_audit-IsCertified_example : IsCertified dataset
run_full_audit-IsCertified_example = run_full_audit-IsCertified dataset dataset_passes

abbrev unresearched : Sample
unresearched = record (web "a") { messages = says "user" "q" ∷ says "assistant" "a" ∷ [] }

abbrev chat : Sample
chat = record (web "b") { type = some "general" }

-- Ten technical samples without a tool call pass with nine others that have one.
guesses_pass : rate_ok (repeat 10 unresearched ++ repeat 9 chat) ≡ true
unfolding rate_ok string_eq
guesses_pass = refl
