-- ===== src/DatasetAudit/Grounding.antt =====
-- The samples that the grounding and the refusal gate let through.
use Prim.Native.String.{String}
use gpu_lab.Base.{inl, inr, ◌≡◌, sym, subst, Bool, true, false, ◌&&◌, ◌||◌, not}
use gpu_lab.Base.{Option, none, some, List, [], ◌∷◌, arith, ◌==◌, nat_eq, string_eq, eq_of_==}
use gpu_lab.Base.{all, any, contains, Option-cases, Bool-cases}
use gpu_lab.Base.Members.{all-at}
use gpu_lab.Base.Text.{has_part, has_part_lower}
use gpu_lab.DatasetAudit.Samples.{Message, Sample, pass, reject, crash}
use gpu_lab.DatasetAudit.Samples.{and_then, require, is_role}
use gpu_lab.DatasetAudit.Gates.{cited_flags, tool_msg, assistant_final, content_of, refusal_cues}
use gpu_lab.DatasetAudit.Gates.{claim_ok, cites_ok, audit_strict_grounding, audit_trap_refusal}
use gpu_lab.DatasetAudit.Passes.{and_then-pass, require-pass}

-- The flags that a sample claims or its answer cites.
abbrev pub mentions : Sample → Message → String → Bool
mentions s answer f =
    (is_role s.flag f && not (f == ""))
    || (elim (content_of answer) [ none ↦ false | some t ↦ contains (cited_flags t) f ])

abbrev pub shows : Option String → String → Bool
shows none f = false
shows (some t) f = has_part f t

-- A tool response that shows every flag that the sample claims or its last answer cites.
pub record IsGrounded (s : Sample) : Type 0 where
  pub response : Message
  pub answer : Message
  pub first_response : tool_msg s ≡ some response
  pub last_answer : assistant_final s ≡ some answer
  pub shown : (f : String) → mentions s answer f ≡ true → shows (content_of response) f ≡ true

claim_ok-shows :
    (flag content : Option String) (f : String)
    → claim_ok flag content ≡ pass
    → (is_role flag f && not (f == "")) ≡ true
    → shows content f ≡ true
unfolding claim_ok
claim_ok-shows none content f h m = ground arith
claim_ok-shows (some g) none f h m =
    let e : g ≡ f = eq_of_== g f (ground (arith, m)) in
    let named : (g == "") ≡ false = subst (λ x. (x == "") ≡ false) (sym e) (ground (arith, m)) in
    ground (arith, rw (claim_ok, named) at h)
claim_ok-shows (some g) (some t) f h m =
    let e : g ≡ f = eq_of_== g f (ground (arith, m)) in
    let named : (g == "") ≡ false = subst (λ x. (x == "") ≡ false) (sym e) (ground (arith, m)) in
    let stands : require 4 (has_part g t) ≡ pass = rw (claim_ok, named) at h in
    subst (λ x. has_part x t ≡ true) e (require-pass 4 (has_part g t) stands)

cites_ok-shows :
    (cited : List String) (content : Option String) (f : String)
    → cites_ok cited content ≡ pass
    → contains cited f ≡ true
    → shows content f ≡ true
unfolding cites_ok
cites_ok-shows [] content f h m = ground arith
cites_ok-shows (g ∷ gs) none f h m = ground arith
cites_ok-shows (g ∷ gs) (some t) f h m =
    all-at (λ k. has_part k t) (g ∷ gs) f (require-pass 4 (all (λ k. has_part k t) (g ∷ gs)) h) m

pub grounding-IsGrounded :
    (s : Sample)
    → audit_strict_grounding s ≡ pass
    → is_role s.type "cli_grounded" ≡ true
    → IsGrounded s
unfolding audit_strict_grounding
grounding-IsGrounded s h cli = elim (Option-cases (tool_msg s)) [
  | inl e ↦ let bad : reject 4 ≡ pass = rw (audit_strict_grounding, cli, e) at h in ground arith
  | inr (t, e) ↦ elim (Option-cases (assistant_final s)) [
    | inl f ↦
        let bad : reject 4 ≡ pass = rw (audit_strict_grounding, cli, e, f) at h in ground arith
    | inr (a, f) ↦ elim (Option-cases (content_of a)) [
      | inl g ↦
          let bad : and_then (claim_ok s.flag (content_of t)) crash ≡ pass =
            rw (audit_strict_grounding, cli, e, f, g) at h in
          ground (arith, and_then-pass (claim_ok s.flag (content_of t)) crash bad)
      | inr (answer, g) ↦
          let both : and_then (claim_ok s.flag (content_of t))
                (cites_ok (cited_flags answer) (content_of t))
              ≡ pass =
            rw (audit_strict_grounding, cli, e, f, g) at h in
          let parts =
            and_then-pass (claim_ok s.flag (content_of t))
              (cites_ok (cited_flags answer) (content_of t)) both in
          record {
            response = t;
            answer = a;
            first_response = e;
            last_answer = f;
            shown = λ k m.
                let either : ((is_role s.flag k && not (k == ""))
                      || contains (cited_flags answer) k)
                    ≡ true =
                  rw (mentions, g) at m in
                elim (Bool-cases (is_role s.flag k && not (k == ""))) [
                  | inl claimed ↦ claim_ok-shows s.flag (content_of t) k parts.0 claimed
                  | inr unclaimed ↦
                      cites_ok-shows (cited_flags answer) (content_of t) k parts.1
                        (ground (arith, either, unclaimed))
                ];
          }
    ]
  ]
]

-- An answer that says that something does not exist.
abbrev pub refutes : Sample → Bool
refutes s = elim (assistant_final s) [
  | none ↦ false
  | some a ↦ elim (content_of a) [
    | none ↦ false
    | some t ↦ any (λ cue. has_part_lower cue t) refusal_cues
  ]
]

pub refusal-refutes :
    (s : Sample)
    → audit_trap_refusal s ≡ pass
    → is_role s.type "trap_refusal" ≡ true
    → refutes s ≡ true
unfolding audit_trap_refusal
refusal-refutes s h trap = elim (Option-cases (assistant_final s)) [
  | inl e ↦ let bad : reject 5 ≡ pass = rw (audit_trap_refusal, trap, e) at h in ground arith
  | inr (a, e) ↦ elim (Option-cases (content_of a)) [
    | inl f ↦ let bad : crash ≡ pass = rw (audit_trap_refusal, trap, e, f) at h in ground arith
    | inr (t, f) ↦
        let told : require 5 (any (λ cue. has_part_lower cue t) refusal_cues) ≡ pass =
          rw (audit_trap_refusal, trap, e, f) at h in
        rw (refutes, e, f) (require-pass 5 (any (λ cue. has_part_lower cue t) refusal_cues) told)
  ]
]
