-- ===== src/ConfigCheck/Status/Sections.antt =====
-- When the lines of each section of the gate report no failure.
use Prim.Native.String.{String}
use gpu_lab.Base.{◌≡◌, refl, ◌↔◌, arith, Bool, true, false, some, List, [], ◌∷◌}
use gpu_lab.Base.{◌++◌, map, all, All}
use gpu_lab.Base.Text.{pieces}
use gpu_lab.ConfigCheck.{Hosts, by_host, by_host_laptop}
use gpu_lab.ConfigCheck.Quiet.{IsQuiet, IsQuiet-both, IsQuiet-some}
use gpu_lab.ConfigCheck.Facts.{Facts}
use gpu_lab.ConfigCheck.Machine.{
  value_of, is_broken, unit_configs, unit_lines, fstab_lines, find_cargo, crate_lines,
}
use gpu_lab.ConfigCheck.Machine.Quiet.{
  load_lines-IsQuiet, unit_lines-IsQuiet, fstab_lines-IsQuiet, IsTested, crate_lines-IsQuiet,
}
use gpu_lab.ConfigCheck.Routes.{Litellm, check_litellm, declared}
use gpu_lab.ConfigCheck.Routes.Sound.{Reaches, IsFallback, clean_exactly}
use gpu_lab.ConfigCheck.Scrapes.{Job, scrape_lines}
use gpu_lab.ConfigCheck.Scrapes.Live.{is_scraped, scrapes_exactly}
use gpu_lab.ConfigCheck.Status.{
  Repo, NodeState, volume_source, volume_line, litellm_lines, laptop_lines, prom_lines, file_lines,
  machine_lines,
}

-- Every route of a front door reaches something, and every fallback names published models.
abbrev pub IsRouted : Facts → Hosts → Litellm → Type 0
IsRouted f hosts cfg =
    All (Reaches f hosts) cfg.model_list × All (IsFallback (declared cfg.model_list)) cfg.fallbacks

abbrev pub hosts_of : Repo → Facts → Hosts
hosts_of r f =
    by_host f.desktop_host f.laptop_host (value_of r.swap_desktop) (value_of r.swap_laptop)

abbrev pub laptop_hosts_of : Repo → Facts → Hosts
laptop_hosts_of r f =
    by_host_laptop f.desktop_host f.laptop_host (value_of r.swap_desktop) (value_of r.swap_laptop)

abbrev pub IsScraped : Repo → Facts → List Job → Type 0
IsScraped r f jobs =
    all (is_scraped f (hosts_of r f) (value_of r.swap_desktop) (value_of r.swap_laptop)) jobs ≡ true

-- No file that has to parse fails to.
abbrev pub IsParsed : Repo → Type 0
IsParsed r =
    (is_broken r.litellm ≡ false)
    × ((is_broken r.litellm_laptop ≡ false)
        × ((is_broken r.prom ≡ false)
            × ((is_broken r.swap_desktop ≡ false)
                × ((is_broken r.swap_laptop ≡ false)
                    × ((is_broken r.monitoring ≡ false) × (is_broken r.laptop ≡ false))))))

module _ (root : String) (m : NodeState) where
  abbrev pub mounted : List String → Bool
  mounted vs = all (λ v. m.is_file (volume_source root m v)) vs

  pub volumes-IsQuiet :
      (vs : List String) → IsQuiet (map (volume_line root m) vs) ↔ (mounted vs ≡ true)
  unfolding volume_line IsQuiet
  volumes-IsQuiet [] = (λ h. refl, λ h. refl)
  volumes-IsQuiet (v ∷ vs) = ground (arith, volumes-IsQuiet vs)

  pub litellm_lines-IsQuiet :
      (r : Repo) (f : Facts)
      → IsQuiet (litellm_lines root m f r)
        ↔ ((cfg : Litellm) → value_of r.litellm ≡ some cfg → IsRouted f (hosts_of r f) cfg)
  unfolding litellm_lines IsQuiet
  litellm_lines-IsQuiet r f =
      IsQuiet-some (value_of r.litellm) (check_litellm f (hosts_of r f)) (IsRouted f (hosts_of r f))
        (clean_exactly f (hosts_of r f))

  pub laptop_lines-IsQuiet :
      (r : Repo) (f : Facts)
      → IsQuiet (laptop_lines root m f r) ↔ (
          (cfg : Litellm)
          → value_of r.litellm_laptop ≡ some cfg
          → IsRouted f (laptop_hosts_of r f) cfg)
  unfolding laptop_lines IsQuiet
  laptop_lines-IsQuiet r f =
      IsQuiet-some (value_of r.litellm_laptop) (check_litellm f (laptop_hosts_of r f))
        (IsRouted f (laptop_hosts_of r f)) (clean_exactly f (laptop_hosts_of r f))

  pub prom_lines-IsQuiet :
      (r : Repo) (f : Facts)
      → IsQuiet (prom_lines root m f r)
        ↔ ((jobs : List Job) → value_of r.prom ≡ some jobs → IsScraped r f jobs)
  unfolding prom_lines IsQuiet
  prom_lines-IsQuiet r f =
      IsQuiet-some (value_of r.prom)
        (scrape_lines f (hosts_of r f) (value_of r.swap_desktop) (value_of r.swap_laptop))
        (IsScraped r f)
        (λ jobs.
          let exactly =
            scrapes_exactly f (hosts_of r f) (value_of r.swap_desktop) (value_of r.swap_laptop)
              jobs in
          (λ h. ground (arith, exactly, h), λ h. ground (arith, exactly, h)))

  pub file_lines-IsQuiet : (r : Repo) → IsQuiet (file_lines root m r) ↔ IsParsed r
  unfolding file_lines
  file_lines-IsQuiet r =
      IsQuiet-both _ _ (load_lines-IsQuiet "serving/litellm-config.yaml" r.litellm) (
        IsQuiet-both _ _ (load_lines-IsQuiet "serving/litellm-laptop.yaml" r.litellm_laptop) (
          IsQuiet-both _ _ (load_lines-IsQuiet "monitoring/prometheus.yml" r.prom) (
            IsQuiet-both _ _ (load_lines-IsQuiet "nodes/desktop/llama-swap.yaml" r.swap_desktop) (
              IsQuiet-both _ _ (load_lines-IsQuiet "nodes/laptop/llama-swap.yaml" r.swap_laptop) (
                IsQuiet-both _ _ (load_lines-IsQuiet "monitoring/docker-compose.yml" r.monitoring)
                  (load_lines-IsQuiet "nodes/laptop/docker-compose.yml" r.laptop))))))

  -- The configs that the installed unit names are there, and the crate passes its tests.
  abbrev pub IsInstalled : Repo → Type 0
  IsInstalled r =
      ((text : String) → r.unit ≡ some text → all m.exists (unit_configs (pieces "\n" text)) ≡ true)
      × IsTested r.has_crate (find_cargo m.on_path m.exists m.home) m.test

  pub machine_lines-IsQuiet : (r : Repo) → IsQuiet (machine_lines root m r) ↔ IsInstalled r
  unfolding machine_lines
  machine_lines-IsQuiet r =
      let mounts = fstab_lines m.address r.node r.record_text r.fstab_text in
      let crate = crate_lines r.has_crate (find_cargo m.on_path m.exists m.home) m.test in
      let silent = fstab_lines-IsQuiet m.address r.node r.record_text r.fstab_text in
      let tested = crate_lines-IsQuiet r.has_crate (find_cargo m.on_path m.exists m.home) m.test in
      let both = IsQuiet-both mounts crate (λ h. h, λ h. h) tested in
      IsQuiet-both (unit_lines m.exists r.unit) (mounts ++ crate)
        (unit_lines-IsQuiet m.exists r.unit) (λ h. (both.0 h).1, λ h. both.1 (silent, h))
