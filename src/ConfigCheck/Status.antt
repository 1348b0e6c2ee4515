-- ===== src/ConfigCheck/Status.antt =====
-- bin/check.py, section 4b and the whole: the mounts of each LiteLLM, all lines of a run, and its exit
-- status.
pub mod Sections
pub mod Deployable
use gpu_lab.Base.{ℕ, String, ◌<>◌, Bool, true, false, not}
use gpu_lab.Base.{Option, none, some, List, [], ◌∷◌, ◌++◌, map, if◌then◌else◌, any}
use gpu_lab.Base.Text.{cut, after_prefix, starts_with}
use gpu_lab.ConfigCheck.{
  Line, ok, fail, is_fail, mount, missing_mount, Swap, by_host, by_host_laptop,
}
use gpu_lab.ConfigCheck.Facts.{Facts, facts_lines, read_facts}
use gpu_lab.ConfigCheck.Machine.{
  File, value_of, Test, syntax_lines, load_lines, unit_lines, fstab_lines, find_cargo, crate_lines,
}
use gpu_lab.ConfigCheck.Routes.{Litellm, check_litellm}
use gpu_lab.ConfigCheck.Scrapes.{Job, scrape_lines}

-- What the gate reads: the text of bin/lab and what `bash -n` says of it, the files that have to
-- parse, those of compose with the volumes of their LiteLLM, the installed unit, the node and the two
-- lists of mounts, which it can open, and the Rust crate.
pub record Repo : Type 0 where
  pub lab : Option (String × Bool)
  pub litellm : File Litellm
  pub litellm_laptop : File Litellm
  pub prom : File (List Job)
  pub swap_desktop : File Swap
  pub swap_laptop : File Swap
  pub monitoring : File (List String)
  pub laptop : File (List String)
  pub unit : Option String
  pub node : String
  pub record_text : String
  pub fstab_text : String
  pub has_crate : Bool

-- What the machine answers: which files there are, where cargo is on PATH and the home of the user, the
-- address of a host, and the test of the crate.
pub record NodeState : Type 0 where
  pub is_file : String → Bool
  pub exists : String → Bool
  pub on_path : Option String
  pub home : String
  pub address : String → Option String
  pub test : String → Test

-- The volumes of a compose file.
abbrev pub volumes_of : File (List String) → List String
volumes_of file = elim (value_of file) [ none ↦ [] | some vs ↦ vs ]

module _ (root : String) (m : NodeState) where
  -- os.path.join(REPO, s)
  in_repo : String → String
  in_repo s = if starts_with s "/" then s else root <> ("/" <> s)

  -- The source of a volume, moved into the repository.
  pub volume_source : String → String
  unfolding in_repo
  volume_source vol =
      let src = (cut ":" vol).0 in
      elim (after_prefix "/home/david/gpu-lab/" src) [ none ↦ src | some s ↦ in_repo s ]

  unfoldable pub volume_line : String → Line
  unfolding volume_source
  volume_line vol =
      let src = volume_source vol in
      if not (m.is_file src) then fail (missing_mount src) else ok (mount src)

  unfoldable pub litellm_lines : Facts → Repo → List Line
  litellm_lines f r = elim (value_of r.litellm) [
    | none ↦ []
    | some cfg ↦
        check_litellm f
          (by_host f.desktop_host f.laptop_host (value_of r.swap_desktop) (value_of r.swap_laptop))
          cfg
  ]

  unfoldable pub laptop_lines : Facts → Repo → List Line
  laptop_lines f r = elim (value_of r.litellm_laptop) [
    | none ↦ []
    | some cfg ↦
        check_litellm f
          (by_host_laptop f.desktop_host f.laptop_host (value_of r.swap_desktop)
            (value_of r.swap_laptop))
          cfg
  ]

  unfoldable pub prom_lines : Facts → Repo → List Line
  prom_lines f r = elim (value_of r.prom) [
    | none ↦ []
    | some jobs ↦
        scrape_lines f
          (by_host f.desktop_host f.laptop_host (value_of r.swap_desktop) (value_of r.swap_laptop))
          (value_of r.swap_desktop) (value_of r.swap_laptop) jobs
  ]

  -- The lines of the files that have to parse.
  unfoldable pub file_lines : Repo → List Line
  file_lines r =
      load_lines "serving/litellm-config.yaml" r.litellm
      ++ (load_lines "serving/litellm-laptop.yaml" r.litellm_laptop
          ++ (load_lines "monitoring/prometheus.yml" r.prom
              ++ (load_lines "nodes/desktop/llama-swap.yaml" r.swap_desktop
                  ++ (load_lines "nodes/laptop/llama-swap.yaml" r.swap_laptop
                      ++ (load_lines "monitoring/docker-compose.yml" r.monitoring
                          ++ load_lines "nodes/laptop/docker-compose.yml" r.laptop)))))

  -- Those of the sections about the machine.
  unfoldable pub machine_lines : Repo → List Line
  unfolding unit_lines fstab_lines crate_lines find_cargo
  machine_lines r =
      unit_lines m.exists r.unit
      ++ (fstab_lines m.address r.node r.record_text r.fstab_text
          ++ crate_lines r.has_crate (find_cargo m.on_path m.exists m.home) m.test)

  -- All lines of a run, given the text of bin/lab and whether it is clean.
  unfoldable pub gate_lines : Repo → String → Bool → List Line
  unfolding litellm_lines laptop_lines prom_lines volume_line file_lines machine_lines syntax_lines
  gate_lines r lab_src clean =
      let f = read_facts lab_src in
      syntax_lines (some clean)
      ++ (file_lines r
          ++ (facts_lines f
              ++ (litellm_lines f r
                  ++ (laptop_lines f r
                      ++ (map volume_line (volumes_of r.monitoring)
                          ++ (map volume_line (volumes_of r.laptop)
                              ++ (prom_lines f r ++ machine_lines r)))))))

  -- sys.exit(1 if fails else 0); without bin/lab the gate ends with an exception, whose status is 1.
  unfoldable pub gate : Repo → ℕ
  unfolding gate_lines
  gate r = elim r.lab [
    | none ↦ 1
    | some (lab_src, clean) ↦ if any is_fail (gate_lines r lab_src clean) then 1 else 0
  ]
