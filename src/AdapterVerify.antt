-- ===== src/AdapterVerify.antt =====
-- training/verify.py: whether an adapter is proven on the probes. What the model generates, and what
-- tool call parse_tool_call reads in it, are given by the results.
pub mod Degenerate
pub mod Proven
mod Examples
use Prim.Native.Char.{Char, code}
use Prim.Native.String.{String}
use gpu_lab.Base.{ℕ, ◌+◌, ◌*◌, max, Bool, true, false, ◌&&◌, ◌||◌, not}
use gpu_lab.Base.{
  Option, none, some, List, [], ◌∷◌, ltb, leb, if◌then◌else◌, ◌==◌, nat_eq, string_eq,
}
use gpu_lab.Base.{length, keep, count_if}
use gpu_lab.Base.Text.{is_space, chars}

-- "".join(text.split())
unfoldable pub squeezed : String → String
squeezed String.[] = ""
squeezed (String.◌∷◌ c s) = let rest = squeezed s in if is_space c then rest else String.◌∷◌ c rest

-- The loop over the pairs of neighbours: the character before, run_len and best.
unfoldable pub best_run : Char → ℕ → ℕ → String → ℕ
best_run a run_len best String.[] = best
best_run a run_len best (String.◌∷◌ b s) =
    let next = if code a == code b then run_len + 1 else 1 in best_run b next (max best next) s

unfoldable pub longest : String → ℕ
unfolding best_run
longest String.[] = 1
longest (String.◌∷◌ c s) = best_run c 1 1 s

-- `_degenerate`
unfoldable pub degenerate : String → ℕ → Bool
unfolding squeezed longest
degenerate text run =
    let stripped = squeezed text in
    if ltb (chars stripped) run then false else leb run (longest stripped)

-- A probe's result: the tool it expects, the tools that the adapter and the base model called, and
-- the adapter's output.
pub record Result : Type 0 where
  pub expected_tool : Option String
  pub adapter_call : Option String
  pub base_call : Option String
  pub adapter_output : String

abbrev pub is_given : Option String → Bool
is_given none = false
is_given (some _) = true

-- The part of `verdict` that decides.
pub record Verdict : Type 0 where
  pub total_probes : ℕ
  pub technical_probes : ℕ
  pub tech_calls : ℕ
  pub base_tech_calls : ℕ
  pub meets_90pct_research_target : Bool
  pub degenerate_outputs : ℕ
  pub proven : Bool

-- `tech_rate >= 0.90`, where the rate is 0 without technical probes. The division rounds correctly,
-- so for fewer than 2 ** 50 probes it compares as the fraction does.
unfoldable pub meets_target : ℕ → ℕ → Bool
meets_target tech_calls technical = ltb 0 technical && leb (9 * technical) (10 * tech_calls)

-- The metrics of `main`.
unfoldable pub verdict : List Result → Verdict
unfolding meets_target degenerate
verdict results =
    let tech = keep (λ r. is_given r.expected_tool) results in
    let tech_calls = count_if (λ r. is_given r.adapter_call) tech in
    let target = meets_target tech_calls (length tech) in
    let broken = count_if (λ r. degenerate r.adapter_output 24) results in
    record {
      total_probes = length results;
      technical_probes = length tech;
      tech_calls = tech_calls;
      base_tech_calls = count_if (λ r. is_given r.base_call) tech;
      meets_90pct_research_target = target;
      degenerate_outputs = broken;
      proven = target && broken == 0;
    }
