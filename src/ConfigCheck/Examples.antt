-- ===== src/ConfigCheck/Examples.antt =====
-- A small repository that passes the gate, one with a typo, and the theorems at them.
use gpu_lab.Base.{ℕ, String, ◌≡◌, refl, ◌↔◌, true, false, not, ◌||◌, if◌then◌else◌, none, some}
use gpu_lab.Base.{List, [], ◌∷◌, All, any, all, string_eq, nat_eq, ◌==◌}
use gpu_lab.Base.Text.{cut, split, span, after_prefix, starts_with}
use gpu_lab.Base.Dict.{lookup, insert}
use gpu_lab.ConfigCheck.{is_fail, Swap, by_host, match_url}
use gpu_lab.ConfigCheck.Facts.{Facts, read_facts, facts_lines}
use gpu_lab.ConfigCheck.Routes.{
  Route, Litellm, check_litellm, declared, route_line, target, upstream,
}
use gpu_lab.ConfigCheck.Routes.Sound.{Reaches, IsFallback, clean_exactly}
use gpu_lab.ConfigCheck.Scrapes.{Job, scrape_lines, proxied, proxy_port}
use gpu_lab.ConfigCheck.Scrapes.Live.{is_scraped, scrapes_exactly}
use gpu_lab.ConfigCheck.Machine.{
  absent, unparsed, empty, holds, timed_out, ended, cargo_detail, find_cargo,
}
use gpu_lab.ConfigCheck.Status.{Repo, NodeState, gate, volume_line}

abbrev lab_text : String
lab_text =
    "set -u\nPOOL_PORT=8200\nDESKTOP_HOST=lab-desktop; DESKTOP_NIC=enp5s0\nLAPTOP_HOST=lab-laptop;\nAGENT_PORT=8300\nAGENT_NAME=lightning\nAGENT_LORA_NAME=lightning-g6u\nx --served-model-name $POOL_MODEL pool \\"

abbrev facts : Facts
facts = record {
  desktop_host = some "lab-desktop";
  laptop_host = some "lab-laptop";
  pool_port = some "8200";
  pool_name = some "pool";
  agent_port = some "8300";
  agent_names = "lightning" ∷ "lightning-g6u" ∷ [];
}

lab_text-facts : read_facts lab_text ≡ facts
unfolding read_facts split span after_prefix string_eq nat_eq
lab_text-facts = refl

abbrev coder : Swap
coder = ("coder", record { proxy = some "http://127.0.0.1:8102" }) ∷ []

abbrev embed : Swap
embed = ("embed", record { proxy = some "http://127.0.0.1:8103" }) ∷ []

abbrev to_coder : Route
to_coder = record {
  model_name = some "coder";
  api_base = some "http://127.0.0.1:8080/v1";
  model = some "openai/coder";
  api_key = none;
}

abbrev to_agent : Route
to_agent = record {
  model_name = some "agent";
  api_base = some "http://lab-laptop:8300/v1";
  model = some "openai/lightning";
  api_key = some "os.environ/KEY";
}

abbrev good : Litellm
good = record { model_list = to_coder ∷ to_agent ∷ []; fallbacks = ("agent", "coder" ∷ []) ∷ [] }

abbrev jobs : List Job
jobs =
    record { job_name = some "vllm"; targets = "lab-laptop:8103" ∷ "localhost:8102" ∷ [] }
    ∷ record { job_name = some "vllm-pool"; targets = "lab-desktop:8200" ∷ [] }
    ∷ []

abbrev repo : Repo
repo = record {
  lab = some (lab_text, true);
  litellm = holds good;
  litellm_laptop = absent;
  prom = holds jobs;
  swap_desktop = holds coder;
  swap_laptop = holds embed;
  monitoring = holds ("/home/david/gpu-lab/serving/litellm-config.yaml:/app/config.yaml:ro" ∷ []);
  laptop = empty;
  unit = some "[Service]\nExecStart=/bin/llama-swap --config /repo/swap.yaml\n";
  node = "laptop";
  record_text = "# nfs\nlab-desktop:/srv /srv/model-cache nfs ro 0 0";
  fstab_text = "10.0.0.1:/srv  /srv/model-cache nfs ro 0 0\n";
  has_crate = true;
}

abbrev machine : NodeState
machine = record {
  is_file = λ path. path == "/repo/serving/litellm-config.yaml";
  exists = λ path. path == "/repo/swap.yaml" || path == "/usr/local/bin/cargo";
  on_path = none;
  home = "/home/david";
  address = λ host. if host == "lab-desktop" then some "10.0.0.1" else none;
  test = λ cargo. ended 0 "";
}

-- The gate on this repository, open to evaluation.
run : NodeState → Repo → ℕ
unfolding gate read_facts facts_lines check_litellm route_line declared volume_line scrape_lines cut
    split span after_prefix starts_with by_host match_url lookup insert string_eq nat_eq target
    upstream proxied proxy_port find_cargo
run m r = gate "/repo" m r

repo-gate : gate "/repo" machine repo ≡ 0
unfolding run
repo-gate = refl

clean_exactly_example :
    let hosts = by_host (some "lab-desktop") (some "lab-laptop") (some coder) (some embed) in
    (any is_fail (check_litellm facts hosts good) ≡ false) ↔ (
      All (Reaches facts hosts) good.model_list
      × All (IsFallback (declared good.model_list)) good.fallbacks)
clean_exactly_example =
    clean_exactly facts (by_host (some "lab-desktop") (some "lab-laptop") (some coder) (some embed))
      good

scrapes_exactly_example :
    let hosts = by_host (some "lab-desktop") (some "lab-laptop") (some coder) (some embed) in
    any is_fail (scrape_lines facts hosts (some coder) (some embed) jobs)
    ≡ not (all (is_scraped facts hosts (some coder) (some embed)) jobs)
scrapes_exactly_example =
    scrapes_exactly facts
      (by_host (some "lab-desktop") (some "lab-laptop") (some coder) (some embed)) (some coder)
      (some embed) jobs

-- A route to a model that the desktop does not serve stops the push.
typo_stops :
    run machine (record repo {
      litellm = holds (record {
        model_list = record to_coder { model = some "openai/codr" } ∷ [];
        fallbacks = [];
      });
    })
    ≡ 1
unfolding run
typo_stops = refl

-- So do a file that does not parse, a failing crate, and a unit whose config is gone.
broken_stops : run machine (record repo { laptop = unparsed }) ≡ 1
unfolding run
broken_stops = refl

crate_stops : run (record machine { test = λ cargo. ended 101 "" }) repo ≡ 1
unfolding run
crate_stops = refl

unit_stops : run (record machine { exists = λ path. false }) repo ≡ 1
unfolding run
unit_stops = refl

-- A slow build does not.
slow_passes : run (record machine { test = λ cargo. timed_out }) repo ≡ 0
unfolding run
slow_passes = refl

-- The details of a failing crate.
detail_names :
    cargo_detail "error[E0308]: bad\n---- it::works stdout ----\nerror: test failed"
    ≡ "error[E0308]: bad" ∷ "test it::works failed" ∷ []
unfolding cargo_detail nat_eq split string_eq
detail_names = refl

detail_plain :
    cargo_detail "  error: no such target\nerror: could not compile `x`\n"
    ≡ "error: no such target" ∷ []
unfolding cargo_detail nat_eq split
detail_plain = refl
