-- ===== src/AgentAb/Codex/Answered.antt =====
-- When a run of codex counts as answered.
use Prim.Native.String.{String}
use gpu_lab.Base.{inl, inr, ℕ, ◌≡◌, refl, ◌↔◌, Bool, true, false, ◌||◌, not}
use gpu_lab.Base.{
  Option, List, [], ◌∷◌, arith, if◌then◌else◌, ◌==◌, nat_eq, string_eq, any, length, Bool-cases,
}
use gpu_lab.Base.Text.{has_part}
use gpu_lab.AgentAb.Loop.{answered, infra}
use gpu_lab.AgentAb.Codex.{
  LogLine, no_json, event, as_loop, failed, errors, joined, codex_status, run_codex,
}

-- A line that reports an error or a failed turn.
abbrev pub is_trouble : LogLine → Bool
is_trouble no_json = false
is_trouble (event t _ _ _) = t == "turn.failed" || t == "error"

errors-nil : (log : List LogLine) → (length (errors log) == 0) ≡ not (any is_trouble log)
unfolding errors
errors-nil [] = ground arith
errors-nil (no_json ∷ ls) = errors-nil ls
errors-nil (event t item command text ∷ ls) =
    elim (Bool-cases (t == "turn.failed" || t == "error")) [
      | inl e ↦ rw (errors, e) (ground arith)
      | inr e ↦ rw (errors, e) (errors-nil ls)
    ]

answered_by :
    (bad down : Bool)
    → ((if bad then (if down then as_loop infra else failed) else as_loop answered)
        ≡ as_loop answered)
      ↔ (bad ≡ false)
answered_by false down = (λ h. refl, λ h. refl)
answered_by true true = (λ h. ground (arith, h), λ h. ground arith)
answered_by true false = (λ h. ground (arith, h), λ h. ground arith)

codex_status-answered :
    (rc : ℕ) (errs : List String)
    → (codex_status rc errs ≡ as_loop answered) ↔ ((rc ≡ 0) × ((length errs == 0) ≡ true))
unfolding codex_status
codex_status-answered rc errs =
    let server_text =
      any (λ s. has_part s (joined errs)) ("onnect" ∷ " 50" ∷ "disconnected" ∷ []) in
    elim (Bool-cases (rc == 124 || rc == 137)) [
      | inl e ↦ rw (codex_status, e) (λ h. ground (arith, h), λ h. ground arith)
      | inr e ↦
          let rule = answered_by (not (length errs == 0) || not (rc == 0)) server_text in
          rw (codex_status, e)
            (λ h. (ground (arith, rule.0 h), ground (arith, rule.0 h)), λ h. rule.1 (ground arith))
    ]

-- A run of codex counts as answered exactly if it exits with 0 and its log has no line that reports
-- an error or a failed turn.
pub run_codex-answered :
    (rc : ℕ) (log : List LogLine) (last : Option String)
    → ((run_codex rc log last).status ≡ as_loop answered)
      ↔ ((rc ≡ 0) × (any is_trouble log ≡ false))
unfolding run_codex
run_codex-answered rc log last =
    let status = codex_status-answered rc (errors log) in
    let quiet = errors-nil log in
    (
      λ h. let both = status.0 h in (both.0, ground (arith, both.1)),
      λ h. status.1 (h.0, ground (arith, h.1)),
    )
