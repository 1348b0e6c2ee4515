-- ===== src/ConfigCheck/Scrapes/Live.antt =====
-- What a clean check of the scrape targets means.
use gpu_lab.Base.{
  String, ◌≡◌, refl, inl, inr, Bool, true, false, not, ◌||◌, ◌<>◌, Option, none, some,
}
use gpu_lab.Base.{
  List, [], ◌∷◌, map, arith, Option-cases, if◌then◌else◌, any, any-append, all, ◌==◌,
}
use gpu_lab.Base.{string_eq}
use gpu_lab.Base.Dict.{Dict, lookup, insert, has_key, has_key-insert, has_key-lookup}
use gpu_lab.ConfigCheck.{Line, is_fail, Model, Swap, Hosts}
use gpu_lab.ConfigCheck.Facts.{Facts}
use gpu_lab.ConfigCheck.Scrapes.{Job, proxy_port, proxied, proxied_onto, parts, swap_of, vllm_line}
use gpu_lab.ConfigCheck.Scrapes.{pool_line, or_none, job_lines, scrape_lines}

abbrev on_port : String → String × Model → Bool
on_port port (name, m) = elim (proxy_port m) [ none ↦ false | some p ↦ port == p ]

-- Some model of the config has its proxy on the port.
abbrev pub proxies : Option Swap → String → Bool
proxies none port = false
proxies (some swap) port = any (on_port port) swap

has_key-proxied_onto :
    (port : String) (d : Dict String String) (swap : Swap)
    → has_key port (proxied_onto d swap) ≡ (has_key port d || any (on_port port) swap)
unfolding proxied_onto
has_key-proxied_onto port d [] = ground arith
has_key-proxied_onto port d ((name, m) ∷ swap) = elim (Option-cases (proxy_port m)) [
  | inl e ↦ rw (e, proxied_onto) (ground (arith, has_key-proxied_onto port d swap))
  | inr (p, e) ↦
      rw (e, proxied_onto)
        (ground
          (arith, has_key-proxied_onto port (insert p name d) swap, has_key-insert port p name d))
]

has_key-proxied :
    (port : String) (swap : Option Swap) → has_key port (proxied swap) ≡ proxies swap port
unfolding proxied
has_key-proxied port none = refl
has_key-proxied port (some swap) = has_key-proxied_onto port [] swap

any-map {ℓ} :
    {A : Type ℓ} (g : A → Line) (good : A → Bool)
    → ((x : A) → is_fail (g x) ≡ not (good x))
    → (xs : List A) → any is_fail (map g xs) ≡ not (all good xs)
any-map g good h [] = refl
any-map g good h (x ∷ xs) = ground (arith, h x, any-map g good h xs)

module _ (f : Facts) (hosts : Hosts) (swap_desktop swap_laptop : Option Swap) where
  -- A target of the vllm job: a host that is no node, or a port that a model of the node proxies.
  abbrev pub is_live : String → Bool
  is_live t = elim (lookup (parts t).0 hosts) [
    | none ↦ true
    | some (node, _) ↦ proxies (swap_of f hosts swap_desktop swap_laptop node) (parts t).1
  ]

  vllm_line-fail :
      (t : String) → is_fail (vllm_line f hosts swap_desktop swap_laptop t) ≡ not (is_live t)
  unfolding vllm_line
  vllm_line-fail t = elim (Option-cases (lookup (parts t).0 hosts)) [
    | inl e ↦ ground arith
    | inr ((node, s), e) ↦
        let swap = swap_of f hosts swap_desktop swap_laptop node in
        let port = (parts t).1 in
        rw (e, vllm_line, is_live)
          (ground (arith, has_key-proxied port swap, has_key-lookup port (proxied swap)))
  ]

  -- The targets of a job are what they should be.
  abbrev pub is_scraped : Job → Bool
  is_scraped j = elim j.job_name [
    | none ↦ true
    | some name ↦
        if name == "vllm-pool"
        then all (λ t. t == (or_none f.desktop_host <> (":" <> or_none f.pool_port))) j.targets
        else if name == "vllm"
        then all is_live j.targets
        else true
  ]

  pool_line-fail :
      (t : String)
      → is_fail (pool_line f hosts swap_desktop swap_laptop t)
        ≡ not (t == (or_none f.desktop_host <> (":" <> or_none f.pool_port)))
  unfolding pool_line
  pool_line-fail t = ground arith

  job_lines-fail :
      (j : Job) → any is_fail (job_lines f hosts swap_desktop swap_laptop j) ≡ not (is_scraped j)
  unfolding job_lines
  job_lines-fail j = ground (
    arith,
    any-map (pool_line f hosts swap_desktop swap_laptop)
        (λ t. t == (or_none f.desktop_host <> (":" <> or_none f.pool_port))) pool_line-fail
        j.targets,
    any-map (vllm_line f hosts swap_desktop swap_laptop) is_live vllm_line-fail j.targets,
  )

  -- The check of Prometheus fails exactly if a target of the job vllm-pool is not the pool's
  -- address, or a target of the job vllm names a node none of whose models has its proxy on the
  -- target's port.
  pub scrapes_exactly :
      (js : List Job)
      → any is_fail (scrape_lines f hosts swap_desktop swap_laptop js) ≡ not (all is_scraped js)
  unfolding scrape_lines
  scrapes_exactly [] = refl
  scrapes_exactly (j ∷ js) = rw (any-append, job_lines-fail j, scrapes_exactly js) (ground arith)
