-- ===== src/AgentAb/Sandbox.antt =====
-- bench/agent_ab.py, sandbox_env: the paths that are hidden from a sandboxed shell.
pub mod Hidden
use gpu_lab.Base.{String, ◌<>◌, Bool, not, List, [], ◌∷◌, ◌++◌, map, if◌then◌else◌, ◌==◌, string_eq}
use gpu_lab.Base.{keep, any, contains}
use gpu_lab.Base.Sorting.{sorted, distinct}
use gpu_lab.Base.Text.{pieces, starts_with}

-- p.startswith(q + "/")
abbrev pub is_under : String → String → Bool
is_under p q = starts_with p (q <> "/")

-- The places that --hide, --set and --out name; `real` is what `realpath` and `expanduser` make of one.
unfoldable pub hide_paths : (String → String) → String → String → String → List String
hide_paths real hide set out =
    map real (keep (λ p. not (p == "")) (pieces ":" hide ++ set ∷ out ∷ []))

-- The list that the shim hides: no path beneath another one asked for.
unfoldable pub hide_list : (String → String) → String → String → String → List String
unfolding hide_paths
hide_list real hide set out =
    let paths = hide_paths real hide set out in
    sorted (distinct (keep (λ p. not (any (λ q. is_under p q) paths)) paths))
