-- ===== src/ConfigCheck/Routes/Sound.antt =====
-- What a clean check of a LiteLLM config means, against a description of where a route may point.
use gpu_lab.Base.{String, ◌≡◌, refl, ◌∙◌, ap, ◌↔◌, inl, inr}
use gpu_lab.Base.{true, false, ◌&&◌, Option, none, some, List, [], ◌∷◌, map}
use gpu_lab.Base.{
  arith, Bool-cases, or-false, Option-cases, if◌then◌else◌, contains, all, any, any-append-false,
  All, ◌==◌, string_eq,
}
use gpu_lab.Base.Dict.{lookup}
use gpu_lab.ConfigCheck.{Node, ok, fallback_route, is_fail, Swap, served, Hosts}
use gpu_lab.ConfigCheck.Facts.{Facts}
use gpu_lab.ConfigCheck.Routes.{Route, Litellm, upstream, target, is_port, is_text, sends_none}
use gpu_lab.ConfigCheck.Routes.{pool_line, agent_line, swap_line, node_line, route_line, declared}
use gpu_lab.ConfigCheck.Routes.{target_lines, fallback_lines, all_fallbacks, check_litellm}

module _ (f : Facts) (hosts : Hosts) where
  -- The route points at something that serves its model, or, on neither the pool's port nor the agent's,
  -- at a host that is no node.
  pub data Reaches (r : Route) : Type 0 where
    by_pool :
        (host port : String)
        → target r ≡ some (host, port)
        → is_port f.pool_port port ≡ true
        → f.desktop_host ≡ some host
        → f.pool_name ≡ some (upstream r)
        → Reaches r
    by_agent :
        (host port : String) (node : Node) (swap : Option Swap)
        → target r ≡ some (host, port)
        → is_port f.pool_port port ≡ false
        → is_port f.agent_port port ≡ true
        → lookup host hosts ≡ some (node, swap)
        → contains f.agent_names (upstream r) ≡ true
        → sends_none r.api_key ≡ false
        → Reaches r
    by_node :
        (host port : String) (n : Node) (swap : Swap)
        → target r ≡ some (host, port)
        → is_port f.pool_port port ≡ false
        → is_port f.agent_port port ≡ false
        → lookup host hosts ≡ some (n, some swap)
        → contains (served swap) (upstream r) ≡ true
        → Reaches r
    elsewhere :
        (host port : String)
        → target r ≡ some (host, port)
        → is_port f.pool_port port ≡ false
        → is_port f.agent_port port ≡ false
        → lookup host hosts ≡ none
        → Reaches r

  is_text-eq : (t : Option String) (s : String) → (is_text t s ≡ true) ↔ (t ≡ some s)
  is_text-eq none s = (λ h. cc, λ h. cc)
  is_text-eq (some t) s = (λ h. ground arith, λ h. ground arith)

  pool_line-clean :
      (host up : String)
      → (is_fail (pool_line f hosts host up) ≡ false)
        ↔ ((is_text f.desktop_host host ≡ true) × (is_text f.pool_name up ≡ true))
  unfolding pool_line
  pool_line-clean host up = (λ h. ground arith, λ h. ground arith)

  agent_line-clean :
      (r : Route) (host up : String) (n : Node) (swap : Option Swap)
      → lookup host hosts ≡ some (n, swap)
      → (is_fail (agent_line f hosts r host up) ≡ false)
        ↔ ((contains f.agent_names up ≡ true) × (sends_none r.api_key ≡ false))
  unfolding agent_line
  agent_line-clean r host up n swap e = (λ h. ground arith, λ h. ground arith)

  agent_line-unknown :
      (r : Route) (host up : String)
      → lookup host hosts ≡ none
      → is_fail (agent_line f hosts r host up) ≡ true
  unfolding agent_line
  agent_line-unknown r host up e = rw (e, agent_line)

  swap_line-clean :
      (up : String) (n : Node) (s : Option Swap)
      → is_fail (swap_line f hosts up n s) ≡ false
      → (w : Swap) × (s ≡ some w) × (contains (served w) up ≡ true)
  unfolding swap_line
  swap_line-clean up n none h = cc
  swap_line-clean up n (some w) h = (w, refl, ground arith)

  node_line-clean :
      (r : Route) (host port : String)
      → target r ≡ some (host, port)
      → is_port f.pool_port port ≡ false
      → is_port f.agent_port port ≡ false
      → is_fail (node_line f hosts host (upstream r)) ≡ false
      → Reaches r
  unfolding node_line
  node_line-clean r host port t p a h = elim (Option-cases (lookup host hosts)) [
    | inl e ↦ elsewhere host port t p a e
    | inr ((n, s), e) ↦
        let (w, q, c) = swap_line-clean (upstream r) n s (rw (e, node_line) at h) in
        by_node host port n w t p a (e ∙ ap (λ o. some (n, o)) q) c
  ]

  agent_line-Reaches :
      (r : Route) (host port : String)
      → target r ≡ some (host, port)
      → is_port f.pool_port port ≡ false
      → is_port f.agent_port port ≡ true
      → is_fail (agent_line f hosts r host (upstream r)) ≡ false
      → Reaches r
  agent_line-Reaches r host port t p a h = elim (Option-cases (lookup host hosts)) [
    | inl e ↦ let bad = agent_line-unknown r host (upstream r) e in cc
    | inr ((n, s), e) ↦
        let (c, k) = (agent_line-clean r host (upstream r) n s e).0 h in
        by_agent host port n s t p a e c k
  ]

  route_line-clean : (r : Route) → is_fail (route_line f hosts r) ≡ false → Reaches r
  unfolding route_line
  route_line-clean r h = elim (Option-cases (target r)) [
    | inl e ↦ let bad = rw (e, route_line) at h in cc
    | inr ((host, port), e) ↦ elim (Bool-cases (is_port f.pool_port port)) [
      | inl p ↦
          let (d, n) = (pool_line-clean host (upstream r)).0 (rw (e, p, route_line) at h) in
          by_pool host port e p ((is_text-eq f.desktop_host host).0 d)
            ((is_text-eq f.pool_name (upstream r)).0 n)
      | inr p ↦ elim (Bool-cases (is_port f.agent_port port)) [
        | inl a ↦ agent_line-Reaches r host port e p a (rw (e, p, a, route_line) at h)
        | inr a ↦ node_line-clean r host port e p a (rw (e, p, a, route_line) at h)
      ]
    ]
  ]

  route_line-Reaches : (r : Route) → Reaches r → is_fail (route_line f hosts r) ≡ false
  unfolding route_line agent_line node_line swap_line
  route_line-Reaches r (by_pool host port t p d n) =
      rw (t, p, route_line)
        ((pool_line-clean host (upstream r)).1
          ((is_text-eq f.desktop_host host).1 d, (is_text-eq f.pool_name (upstream r)).1 n))
  route_line-Reaches r (by_agent host port n s t p a l c k) = ground arith
  route_line-Reaches r (by_node host port n s t p a l c) = ground arith
  route_line-Reaches r (elsewhere host port t p a l) = ground arith

-- A fallback whose source and targets are published, and no target of which is its source.
abbrev pub IsFallback : List String → String × List String → Type 0
IsFallback names (src, targets) =
    (contains names src ≡ true)
    × All (λ t. (contains names t ≡ true) × ((t == src) ≡ false)) targets

target_lines-clean :
    (names : List String) (src : String) (ts : List String)
    → (any is_fail (target_lines names src ts) ≡ false)
      ↔ All (λ t. (contains names t ≡ true) × ((t == src) ≡ false)) ts
unfolding target_lines
target_lines-clean names src [] = (λ h. tt, λ h. refl)
target_lines-clean names src (t ∷ ts) =
    let ih = target_lines-clean names src ts in
    (
      λ h. ((ground arith, ground arith), ih.0 (ground arith)),
      λ g. let rest = ih.1 g.1 in ground arith,
    )

fallback_lines-clean :
    (names : List String) (fb : String × List String)
    → (any is_fail (fallback_lines names fb) ≡ false) ↔ IsFallback names fb
unfolding fallback_lines
fallback_lines-clean names (src, ts) =
    let targets = target_lines-clean names src ts in
    let last =
      if contains names src && all (contains names) ts then ok (fallback_route src) ∷ [] else [] in
    let quiet : any is_fail last ≡ false = ground arith in
    let middle = any-append-false is_fail (target_lines names src ts) last in
    (
      λ h. (ground (arith, h), targets.0 ((middle.0 (ground arith)).0)),
      λ g. let m = middle.1 (targets.1 g.1, quiet) in ground arith,
    )

all_fallbacks-clean :
    (names : List String) (fbs : List (String × List String))
    → (any is_fail (all_fallbacks names fbs) ≡ false) ↔ All (IsFallback names) fbs
unfolding all_fallbacks
all_fallbacks-clean names [] = (λ h. tt, λ h. refl)
all_fallbacks-clean names (fb ∷ fbs) =
    let here = fallback_lines-clean names fb in
    let later = all_fallbacks-clean names fbs in
    let both = any-append-false is_fail (fallback_lines names fb) (all_fallbacks names fbs) in
    (λ h. let (a, b) = both.0 h in (here.0 a, later.0 b), λ g. both.1 (here.1 g.0, later.1 g.1))

module _ (f : Facts) (hosts : Hosts) where
  routes-clean :
      (rs : List Route)
      → (any is_fail (map (route_line f hosts) rs) ≡ false) ↔ All (Reaches f hosts) rs
  routes-clean [] = (λ h. tt, λ h. refl)
  routes-clean (r ∷ rs) =
      let later = routes-clean rs in
      let both =
        or-false (is_fail (route_line f hosts r)) (any is_fail (map (route_line f hosts) rs)) in
      (
        λ h. let (a, b) = both.0 h in (route_line-clean f hosts r a, later.0 b),
        λ g. both.1 (route_line-Reaches f hosts r g.0, later.1 g.1),
      )

  -- `check_litellm` reports no failure exactly if every route reaches something which serves its
  -- model, or points at a host that is no node on neither the pool's port nor the agent's, and every
  -- fallback goes from a published name to other published names.
  pub clean_exactly :
      (cfg : Litellm)
      → (any is_fail (check_litellm f hosts cfg) ≡ false) ↔ (
          All (Reaches f hosts) cfg.model_list
          × All (IsFallback (declared cfg.model_list)) cfg.fallbacks)
  unfolding check_litellm
  clean_exactly cfg =
      let names = declared cfg.model_list in
      let routes = routes-clean cfg.model_list in
      let fallbacks = all_fallbacks-clean names cfg.fallbacks in
      let both =
        any-append-false is_fail (map (route_line f hosts) cfg.model_list)
          (all_fallbacks names cfg.fallbacks) in
      (
        λ h. let (a, b) = both.0 h in (routes.0 a, fallbacks.0 b),
        λ g. both.1 (routes.1 g.0, fallbacks.1 g.1),
      )
