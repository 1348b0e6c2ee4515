-- ===== src/ConfigCheck.antt =====
-- bin/check.py: the gate in front of a push. What a check appends to `oks`, `warns` and `fails` is
-- one list of lines; their wording is left out, and what each names is kept. A configuration
-- file is what YAML makes of it, with the values that the checks read as texts.
pub mod Quiet
pub mod Facts
pub mod Routes
pub mod Scrapes
pub mod Machine
pub mod Status
mod Examples
use gpu_lab.Base.{ℕ, String, Bool, true, false, Option, none, some, List, [], ◌∷◌, if◌then◌else◌}
use gpu_lab.Base.{string_eq, ◌==◌}
use gpu_lab.Base.Text.{span, after_prefix, is_digit, starts_with}
use gpu_lab.Base.Dict.{Dict, insert, keys}
use Prim.Native.Char.{Char}

pub data Node : Type 0 where
  desktop laptop : Node

-- What a line is about.
pub data Detail : Type 0 where
  no_hosts no_pool no_agent : Detail
  unparseable : String → Detail
  pool_host pool_name pool_route : Detail
  agent_host agent_name agent_key : Detail
  agent_route : Node → Detail
  unknown_host : String → Detail
  no_swap : Node → Detail
  not_served : Node → String → Detail
  node_route : Node → String → Detail
  fallback_source fallback_target fallback_self fallback_route : String → Detail
  pool_target not_pool_target unknown_target : String → Detail
  dead_target : Node → String → Detail
  live_target : Node → String → Detail
  mount missing_mount : String → Detail
  syntax : Detail
  parses : String → Detail
  unit_config : String → Detail
  model_mounts : ℕ → ℕ → Detail
  crate slow_crate no_cargo : Detail
  failed_crate : List String → Detail

pub data Line : Type 0 where
  ok warn fail : Detail → Line

abbrev pub is_fail : Line → Bool
is_fail (fail d) = true
is_fail _ = false

-- A model of a llama-swap config, and the config: its models by name.
pub record Model : Type 0 where
  pub proxy : Option String

abbrev pub Swap : Type 0
Swap = Dict String Model

-- `served`
abbrev pub served : Swap → List String
served swap = keys swap

-- Which node answers on a host, and its llama-swap config, if there is one.
abbrev pub Hosts : Type 0
Hosts = Dict String (Node × Option Swap)

insert_host : Option String → Node × Option Swap → Hosts → Hosts
insert_host none v hosts = hosts
insert_host (some h) v hosts = insert h v hosts

-- BY_HOST and BY_HOST_LAPTOP, from the two host names of bin/lab. A name that could not be read
-- is a key that no host equals.
pub by_host : Option String → Option String → Option Swap → Option Swap → Hosts
unfolding insert_host
by_host desktop_host laptop_host swap_desktop swap_laptop =
    insert_host laptop_host (laptop, swap_laptop)
      (insert_host desktop_host (desktop, swap_desktop)
        (insert "localhost" (desktop, swap_desktop)
          (insert "127.0.0.1" (desktop, swap_desktop) [])))

pub by_host_laptop : Option String → Option String → Option Swap → Option Swap → Hosts
unfolding by_host
by_host_laptop desktop_host laptop_host swap_desktop swap_laptop =
    insert "localhost" (laptop, swap_laptop)
      (insert "127.0.0.1" (laptop, swap_laptop)
        (by_host desktop_host laptop_host swap_desktop swap_laptop))

-- re.match(r"https?://(HOST+):(\d+)", s), where HOST is a class of characters without the colon:
-- the host and the port.
match_rest : (Char → Bool) → Option String → Option (String × String)
match_rest class none = none
match_rest class (some s) =
    let (host, tail) = span class s in
    if host == "" then none else (elim (after_prefix ":" tail) [
      | none ↦ none
      | some digits ↦
          let port = (span is_digit digits).0 in if port == "" then none else some (host, port)
    ])

unfoldable pub match_url : (Char → Bool) → String → Option (String × String)
unfolding match_rest
match_url class s =
    match_rest class
      (elim (after_prefix "https://" s) [ some rest ↦ some rest | none ↦ after_prefix "http://" s ])
