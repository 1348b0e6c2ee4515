-- ===== src/AdapterVerify/Examples.antt =====
-- Outputs with and without a long run, and the theorems at them.
use gpu_lab.Base.{◌*◌, ◌≤◌, ◌<◌, ◌↔◌, ◌≡◌, refl, true, none, some, [], ◌∷◌}
use gpu_lab.Base.{length, keep, count_if, All, nat_eq}
use gpu_lab.Base.Text.{chars}
use gpu_lab.AdapterVerify.{
  Result, is_given, squeezed, best_run, longest, degenerate, meets_target, verdict,
}
use gpu_lab.AdapterVerify.Proven.{IsIntact, verdict-proven}

broken_text : degenerate "ok aaa a" 4 ≡ true
unfolding degenerate squeezed longest best_run chars nat_eq
broken_text = refl

abbrev called : Result
called = record {
  expected_tool = some "bash";
  adapter_call = some "bash";
  base_call = none;
  adapter_output = "<tool_call>";
}

is_proven : (verdict (called ∷ [])).proven ≡ true
unfolding verdict meets_target degenerate squeezed longest best_run chars nat_eq
is_proven = refl

verdict-proven_example : ((verdict (called ∷ [])).proven ≡ true) ↔ (
    (0 < length (keep (λ r. is_given r.expected_tool) (called ∷ [])))
    × (9 * length (keep (λ r. is_given r.expected_tool) (called ∷ []))
        ≤ 10
          * count_if
              (λ r. is_given r.adapter_call)
              (keep (λ r. is_given r.expected_tool) (called ∷ [])))
    × All IsIntact (called ∷ []))
verdict-proven_example = verdict-proven (called ∷ [])
