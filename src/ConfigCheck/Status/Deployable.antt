-- ===== src/ConfigCheck/Status/Deployable.antt =====
-- What the gate lets through.
use Prim.Native.String.{String}
use gpu_lab.Base.{◌≡◌, Bool, true, some, List}
use gpu_lab.ConfigCheck.Facts.{read_facts}
use gpu_lab.ConfigCheck.Facts.Read.{IsRead}
use gpu_lab.ConfigCheck.Machine.{value_of}
use gpu_lab.ConfigCheck.Routes.{Litellm}
use gpu_lab.ConfigCheck.Scrapes.{Job}
use gpu_lab.ConfigCheck.Status.{Repo, NodeState, volumes_of}
use gpu_lab.ConfigCheck.Status.Sections.{
  IsRouted, hosts_of, laptop_hosts_of, IsScraped, IsParsed, mounted, IsInstalled,
}

module _ (root : String) (m : NodeState) where
  -- What holds of a repository that the gate lets through.
  pub record IsDeployable (r : Repo) (lab_src : String) : Type 0 where
    pub control : r.lab ≡ some (lab_src, true)
    pub parsed : IsParsed r
    pub facts : IsRead (read_facts lab_src)
    pub front_door :
        (cfg : Litellm)
        → value_of r.litellm ≡ some cfg
        → IsRouted (read_facts lab_src) (hosts_of r (read_facts lab_src)) cfg
    pub laptop_door :
        (cfg : Litellm)
        → value_of r.litellm_laptop ≡ some cfg
        → IsRouted (read_facts lab_src) (laptop_hosts_of r (read_facts lab_src)) cfg
    pub monitoring_mounts : mounted root m (volumes_of r.monitoring) ≡ true
    pub laptop_mounts : mounted root m (volumes_of r.laptop) ≡ true
    pub scrapes :
        (jobs : List Job) → value_of r.prom ≡ some jobs → IsScraped r (read_facts lab_src) jobs
    pub installed : IsInstalled root m r

  -- The same, part after part in the order of the sections.
  abbrev IsQuietThrough : Repo → String → Bool → Type 0
  IsQuietThrough r lab_src clean =
      let f = read_facts lab_src in
      (clean ≡ true)
      × (IsParsed r
          × (IsRead f
              × (((cfg : Litellm) → value_of r.litellm ≡ some cfg → IsRouted f (hosts_of r f) cfg)
                  × (((cfg : Litellm)
                        → value_of r.litellm_laptop ≡ some cfg
                        → IsRouted f (laptop_hosts_of r f) cfg)
                      × ((mounted root m (volumes_of r.monitoring) ≡ true)
                          × ((mounted root m (volumes_of r.laptop) ≡ true)
                              × (((jobs : List Job)
                                    → value_of r.prom ≡ some jobs
                                    → IsScraped r f jobs)
                                  × IsInstalled root m r)))))))
