-- ===== src/AdapterVerify/Proven.antt =====
-- When `main` reports PROVEN.
use gpu_lab.Base.{ℕ, ◌*◌, ◌≤◌, ◌<◌, ◌≡◌, refl, sym, ◌↔◌, ◌∙◌, true, false, ◌&&◌}
use gpu_lab.Base.{List, [], ◌∷◌, arith, ◌==◌, nat_eq}
use gpu_lab.Base.{length, keep, count_if, All}
use gpu_lab.AdapterVerify.{Result, is_given, squeezed, degenerate, meets_target, verdict}
use gpu_lab.AdapterVerify.Degenerate.{has_run, degenerate-has_run}

-- No output has a run of 24 equal characters.
abbrev pub IsIntact : Result → Type 0
IsIntact r = has_run 24 (squeezed r.adapter_output) ≡ false

none-IsIntact :
    (rs : List Result) → (count_if (λ r. degenerate r.adapter_output 24) rs ≡ 0) ↔ All IsIntact rs
none-IsIntact [] = (λ h. tt, λ h. refl)
none-IsIntact (r ∷ rs) =
    let same = degenerate-has_run r.adapter_output 24 (omega arith) in
    let rest = none-IsIntact rs in
    (
      λ h. (sym same ∙ ground (arith, h), rest.0 (ground (arith, h))),
      λ h. let now = same ∙ h.0 in ground (arith, now, rest.1 h.1),
    )

decided :
    (technical called broken : ℕ)
    → ((meets_target called technical && broken == 0) ≡ true)
      ↔ ((0 < technical) × (9 * technical ≤ 10 * called) × (broken ≡ 0))
unfolding meets_target
decided technical called broken = (λ h. ground arith, λ h. ground arith)

-- The adapter is reported as proven exactly if some probe expects a tool, at least nine tenths of
-- those that do make the adapter call one, and no output on any probe has, without its blanks, 24
-- equal characters in a row.
pub verdict-proven :
    (results : List Result)
    → ((verdict results).proven ≡ true) ↔ (
        (0 < length (keep (λ r. is_given r.expected_tool) results))
        × (9 * length (keep (λ r. is_given r.expected_tool) results)
            ≤ 10
              * count_if
                  (λ r. is_given r.adapter_call)
                  (keep (λ r. is_given r.expected_tool) results))
        × All IsIntact results)
unfolding verdict
verdict-proven results =
    let tech = keep (λ r. is_given r.expected_tool) results in
    let called = count_if (λ r. is_given r.adapter_call) tech in
    let broken = count_if (λ r. degenerate r.adapter_output 24) results in
    let rule = decided (length tech) called broken in
    let intact = none-IsIntact results in
    (
      λ h. let all_three = rule.0 h in (all_three.0, all_three.1, intact.0 all_three.2),
      λ h. rule.1 (h.0, h.1, intact.1 h.2),
    )
