-- ===== src/ConfigCheck/Scrapes.antt =====
-- bin/check.py, section 5: Prometheus must scrape the ports that llama-swap proxies.
pub mod Live
use gpu_lab.Base.{
  String, ◌<>◌, Bool, true, false, not, Option, none, some, List, [], ◌∷◌, ◌++◌, map,
}
use gpu_lab.Base.{◌==◌, string_eq, nat_eq, if◌then◌else◌}
use gpu_lab.Base.Text.{cut}
use gpu_lab.Base.Dict.{Dict, lookup, insert}
use gpu_lab.ConfigCheck.{Node, desktop, laptop, Line, ok, warn, fail, Model, Swap, Hosts, match_url}
use gpu_lab.ConfigCheck.{pool_target, not_pool_target, unknown_target, dead_target, live_target}
use gpu_lab.ConfigCheck.Facts.{Facts}
use Prim.Native.Char.{Char, code}

-- An entry of `scrape_configs`, with the targets of its static configs in order.
pub record Job : Type 0 where
  pub job_name : Option String
  pub targets : List String

-- `[^:]`
abbrev in_proxy : Char → Bool
in_proxy c = not (code c == 58)

abbrev or_text : Option String → String
or_text none = ""
or_text (some s) = s

-- The port of a model's proxy.
unfoldable pub proxy_port : Model → Option String
proxy_port m = elim (match_url in_proxy (or_text m.proxy)) [
  | none ↦ none
  | some (host, port) ↦ some port
]

proxied_onto : Dict String String → Swap → Dict String String
proxied_onto d [] = d
proxied_onto d ((name, m) ∷ swap) =
    proxied_onto (elim (proxy_port m) [ none ↦ d | some port ↦ insert port name d ]) swap

-- proxied.get(node, {})
unfoldable pub proxied : Option Swap → Dict String String
unfolding proxied_onto
proxied none = []
proxied (some swap) = proxied_onto [] swap

-- An f-string prints None where a fact is missing.
abbrev or_none : Option String → String
or_none none = "None"
or_none (some s) = s

-- target.partition(":"): the host and the port.
abbrev pub parts : String → String × String
parts t = let (host, rest) = cut ":" t in elim rest [ [] ↦ (host, "") | port ∷ _ ↦ (host, port) ]

module _ (f : Facts) (hosts : Hosts) (swap_desktop swap_laptop : Option Swap) where
  abbrev pub swap_of : Node → Option Swap
  swap_of desktop = swap_desktop
  swap_of laptop = swap_laptop

  pool_line : String → Line
  pool_line t =
      if t == (or_none f.desktop_host <> (":" <> or_none f.pool_port))
      then ok (pool_target t)
      else fail (not_pool_target t)

  unfoldable pub vllm_line : String → Line
  vllm_line t =
      let (host, port) = parts t in
      elim (lookup host hosts) [
        | none ↦ warn (unknown_target t)
        | some (node, _) ↦ elim (lookup port (proxied (swap_of node))) [
          | none ↦ fail (dead_target node port)
          | some name ↦ ok (live_target node name)
        ]
      ]

  job_lines : Job → List Line
  unfolding pool_line vllm_line
  job_lines j = elim j.job_name [
    | none ↦ []
    | some name ↦
        if name == "vllm-pool"
        then map pool_line j.targets
        else if name == "vllm"
        then map vllm_line j.targets
        else []
  ]

  unfoldable pub scrape_lines : List Job → List Line
  unfolding job_lines
  scrape_lines [] = []
  scrape_lines (j ∷ js) = job_lines j ++ scrape_lines js
