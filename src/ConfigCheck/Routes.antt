-- ===== src/ConfigCheck/Routes.antt =====
-- bin/check.py, `check_litellm`: every model that a LiteLLM publishes must exist where its route
-- points, and every fallback must name published models.
pub mod Sound
use gpu_lab.Base.{String, Bool, true, false, ◌&&◌, not, Option, none, some, List, [], ◌∷◌, ◌++◌}
use gpu_lab.Base.{map, ◌==◌, string_eq, contains, all, if◌then◌else◌, ◌||◌}
use gpu_lab.Base.{nat_eq}
use gpu_lab.Base.Text.{cut}
use gpu_lab.Base.Dict.{Dict, lookup}
use gpu_lab.ConfigCheck.{Node, Line, ok, warn, fail, Detail, Swap, served, Hosts, match_url}
use gpu_lab.ConfigCheck.{unparseable, pool_host, pool_name, pool_route, agent_host, agent_name}
use gpu_lab.ConfigCheck.{agent_key, agent_route, unknown_host, no_swap, not_served, node_route}
use gpu_lab.ConfigCheck.{fallback_source, fallback_target, fallback_self, fallback_route}
use gpu_lab.ConfigCheck.Facts.{Facts}
use Prim.Native.Char.{Char, code}

-- An entry of `model_list`. A missing `litellm_params` has all its values missing.
pub record Route : Type 0 where
  pub model_name : Option String
  pub api_base : Option String
  pub model : Option String
  pub api_key : Option String

-- A config: its routes, and the pairs of source and targets of its fallbacks, in order.
pub record Litellm : Type 0 where
  pub model_list : List Route
  pub fallbacks : List (String × List String)

-- str(params.get("model", "")).split("/", 1)[-1]
after_slash : String × List String → String
after_slash (head, []) = head
after_slash (head, rest ∷ _) = rest

abbrev or_text : Option String → String
or_text none = ""
or_text (some s) = s

unfoldable pub upstream : Route → String
unfolding after_slash
upstream r = after_slash (cut "/" (or_text r.model))

-- `[^:/]`
abbrev pub in_host : Char → Bool
in_host c = not (code c == 58 || code c == 47)

-- The host and port of a route.
unfoldable pub target : Route → Option (String × String)
target r = match_url in_host (or_text r.api_base)

-- `X and port == X`, for a text read from bin/lab.
abbrev pub is_port : Option String → String → Bool
is_port none port = false
is_port (some p) port = not (p == "") && port == p

abbrev pub is_text : Option String → String → Bool
is_text none s = false
is_text (some t) s = s == t

-- str(params.get("api_key", "none")) == "none"
abbrev pub sends_none : Option String → Bool
sends_none none = true
sends_none (some key) = key == "none"

module _ (f : Facts) (hosts : Hosts) where
  pool_line : String → String → Line
  pool_line host up =
      if not (is_text f.desktop_host host)
      then fail pool_host
      else if not (is_text f.pool_name up)
      then fail pool_name
      else ok pool_route

  agent_line : Route → String → String → Line
  agent_line r host up = elim (lookup host hosts) [
    | none ↦ fail agent_host
    | some (node, swap) ↦
        if not (contains f.agent_names up)
        then fail agent_name
        else if sends_none r.api_key
        then fail agent_key
        else ok (agent_route node)
  ]

  swap_line : String → Node → Option Swap → Line
  swap_line up node none = fail (no_swap node)
  swap_line up node (some swap) =
      if not (contains (served swap) up) then fail (not_served node up) else ok (node_route node up)

  node_line : String → String → Line
  unfolding swap_line
  node_line host up = elim (lookup host hosts) [
    | none ↦ warn (unknown_host host)
    | some (node, swap) ↦ swap_line up node swap
  ]

  -- The line of one entry of `model_list`.
  unfoldable pub route_line : Route → Line
  unfolding pool_line agent_line node_line
  route_line r = elim (target r) [
    | none ↦ fail (unparseable (or_text r.api_base))
    | some (host, port) ↦
        if is_port f.pool_port port
        then pool_line host (upstream r)
        else if is_port f.agent_port port
        then agent_line r host (upstream r)
        else node_line host (upstream r)
  ]

-- The published names.
unfoldable pub declared : List Route → List String
declared [] = []
declared (r ∷ rs) = let rest = declared rs in elim r.model_name [ none ↦ rest | some n ↦ n ∷ rest ]

target_lines : List String → String → List String → List Line
target_lines names src [] = []
target_lines names src (t ∷ ts) =
    let rest = target_lines names src ts in
    if not (contains names t)
    then fail (fallback_target t) ∷ rest
    else if t == src
    then fail (fallback_self src) ∷ rest
    else rest

-- The lines of one fallback.
fallback_lines : List String → String × List String → List Line
unfolding target_lines
fallback_lines names (src, targets) =
    let first = if contains names src then [] else fail (fallback_source src) ∷ [] in
    let last =
      if contains names src && all (contains names) targets
      then ok (fallback_route src) ∷ []
      else [] in
    first ++ (target_lines names src targets ++ last)

all_fallbacks : List String → List (String × List String) → List Line
unfolding fallback_lines
all_fallbacks names [] = []
all_fallbacks names (fb ∷ fbs) = fallback_lines names fb ++ all_fallbacks names fbs

unfoldable pub check_litellm : Facts → Hosts → Litellm → List Line
unfolding all_fallbacks
check_litellm f hosts cfg =
    map (route_line f hosts) cfg.model_list ++ all_fallbacks (declared cfg.model_list) cfg.fallbacks
