-- ===== src/DatasetAudit/Certified.antt =====
-- What a dataset has that passes the audit.
use gpu_lab.Base.{◌≤◌, ◌≡◌, true}
use gpu_lab.Base.{List, ltb, leb, leb→le, nat_eq, string_eq}
use gpu_lab.Base.{length, All}
use gpu_lab.DatasetAudit.Samples.{Sample, pass}
use gpu_lab.DatasetAudit.Samples.{
  and_then, require, each, is_role, known_role, known_tool, tool_calls_ok, message_ok,
  audit_schema_and_roles,
}
use gpu_lab.DatasetAudit.Gates.{audit_strict_grounding, audit_trap_refusal}
use gpu_lab.DatasetAudit.Gates.{commands_ok, audit_empirical_commands, audit_sample, tally}
use gpu_lab.DatasetAudit.Gates.{rate_ok, distinct_tools, run_full_audit}
use gpu_lab.DatasetAudit.Passes.{and_then-pass, require-pass, each-pass, All-map}
use gpu_lab.DatasetAudit.Grounding.{IsGrounded, refutes, grounding-IsGrounded, refusal-refutes}
use gpu_lab.DatasetAudit.Commands.{calls_in, is_vetted, commands_in-vetted, calls_ok-known}

-- What one sample has that passes.
pub record IsSound (s : Sample) : Type 0 where
  pub roles : All (λ m. known_role m.role ≡ true) s.messages
  pub tools : All (λ m. All (λ c. known_tool c.name ≡ true) (calls_in m.tool_calls)) s.messages
  pub commands : All (λ m. All (λ c. is_vetted c ≡ true) (calls_in m.tool_calls)) s.messages
  pub grounded : is_role s.type "cli_grounded" ≡ true → IsGrounded s
  pub refuted : is_role s.type "trap_refusal" ≡ true → refutes s ≡ true

audit_sample-IsSound : (s : Sample) → audit_sample s ≡ pass → IsSound s
unfolding audit_sample audit_schema_and_roles audit_empirical_commands message_ok
audit_sample-IsSound s h =
    let schema = audit_schema_and_roles s in
    let ground_gate = audit_strict_grounding s in
    let trap = audit_trap_refusal s in
    let shell = audit_empirical_commands s in
    let p =
      and_then-pass (tally s) (and_then schema (and_then ground_gate (and_then trap shell))) h in
    let q = and_then-pass schema (and_then ground_gate (and_then trap shell)) p.1 in
    let r = and_then-pass ground_gate (and_then trap shell) q.1 in
    let t = and_then-pass trap shell r.1 in
    let messages =
      each-pass message_ok s.messages
        (and_then-pass (require 2 (ltb 1 (length s.messages))) (each message_ok s.messages)
          q.0).1 in
    record {
      roles =
          All-map s.messages
            (λ m ok.
              require-pass 2 (known_role m.role)
                (and_then-pass (require 2 (known_role m.role))
                  (tool_calls_ok (is_role m.role "assistant") m.tool_calls) ok).0)
            messages;
      tools =
          All-map s.messages
            (λ m ok.
              calls_ok-known m.tool_calls (is_role m.role "assistant")
                (and_then-pass (require 2 (known_role m.role))
                  (tool_calls_ok (is_role m.role "assistant") m.tool_calls) ok).1)
            messages;
      commands =
          All-map s.messages (λ m. commands_in-vetted m.tool_calls)
            (each-pass commands_ok s.messages t.1);
      grounded = grounding-IsGrounded s r.0;
      refuted = refusal-refutes s t.0;
    }

-- What a dataset has that passes.
pub record IsCertified (samples : List Sample) : Type 0 where
  pub size : 50 ≤ length samples
  pub sound : All IsSound samples
  pub diverse : 8 ≤ length (distinct_tools samples)

-- A dataset that passes the audit has at least 50 samples and names at least eight tools. In each
-- sample the roles and the tools called are known and no command of bash is blank or dangerous; a
-- grounded sample has a tool response with every flag that it claims or its last answer cites, and
-- the last answer of a trap has a phrase that refutes.
pub run_full_audit-IsCertified :
    (samples : List Sample) → run_full_audit samples ≡ pass → IsCertified samples
unfolding run_full_audit
run_full_audit-IsCertified samples h =
    let size = require 0 (leb 50 (length samples)) in
    let gates = each audit_sample samples in
    let rate = require 1 (rate_ok samples) in
    let spread = require 6 (leb 8 (length (distinct_tools samples))) in
    let p = and_then-pass size (and_then gates (and_then rate spread)) h in
    let q = and_then-pass gates (and_then rate spread) p.1 in
    let r = and_then-pass rate spread q.1 in
    record {
      size = leb→le 50 (length samples) (require-pass 0 (leb 50 (length samples)) p.0);
      sound = All-map samples audit_sample-IsSound (each-pass audit_sample samples q.0);
      diverse =
          leb→le 8 (length (distinct_tools samples))
            (require-pass 6 (leb 8 (length (distinct_tools samples))) r.1);
    }
