-- ===== src/Exporter/Served.antt =====
-- What the exporter serves after a poll.
use Prim.Native.String.{String}
use gpu_lab.Base.{inl, inr, ◌≡◌, refl, ap, ◌∙◌, Bool, true, false}
use gpu_lab.Base.{Option, none, some, List, [], ◌∷◌, ◌++◌, map, append-nil, Option-cases}
use gpu_lab.Exporter.{
  Numbers, gauges, reasons, zip, Line, comment, gauge, throttle, scrape_ok, system,
}
use gpu_lab.Exporter.{
  sample, blocks, or_none, render, blank_payload, Poll, payload_of, poll_forever,
}

module _ (F : Numbers) where
  -- What the lines of a payload show, in order.
  abbrev pub scrapes : List (Line F) → List Bool
  scrapes [] = []
  scrapes (comment _ _ ∷ ls) = scrapes ls
  scrapes (gauge _ _ ∷ ls) = scrapes ls
  scrapes (throttle _ _ ∷ ls) = scrapes ls
  scrapes (scrape_ok b ∷ ls) = b ∷ scrapes ls
  scrapes (system _ ∷ ls) = scrapes ls

  abbrev pub readings : List (Line F) → List (String × F.Float)
  readings [] = []
  readings (comment _ _ ∷ ls) = readings ls
  readings (gauge n x ∷ ls) = (n, x) ∷ readings ls
  readings (throttle _ _ ∷ ls) = readings ls
  readings (scrape_ok _ ∷ ls) = readings ls
  readings (system _ ∷ ls) = readings ls

  abbrev pub throttles : List (Line F) → List (String × F.Float)
  throttles [] = []
  throttles (comment _ _ ∷ ls) = throttles ls
  throttles (gauge _ _ ∷ ls) = throttles ls
  throttles (throttle n x ∷ ls) = (n, x) ∷ throttles ls
  throttles (scrape_ok _ ∷ ls) = throttles ls
  throttles (system _ ∷ ls) = throttles ls

  -- What a payload shows of the card.
  pub record IsShown (numbers reasons_on : List (String × F.Float)) (ok : Bool) (ls : List (Line F))
      : Type 0 where
    pub gauges_shown : readings ls ≡ numbers
    pub reasons_shown : throttles ls ≡ reasons_on
    pub outcome_shown : scrapes ls ≡ ok ∷ []

  machine_shows :
      (ls : List String)
      → (readings (map system ls) ≡ [])
        × (throttles (map system ls) ≡ [])
        × (scrapes (map system ls) ≡ [])
  machine_shows [] = (refl, refl, refl)
  machine_shows (l ∷ ls) = machine_shows ls

  throttle_lines :
      (qs : List (String × F.Float)) (ls : List (Line F))
      → (readings (map (λ q. throttle q.0 q.1) qs ++ ls) ≡ readings ls)
        × (throttles (map (λ q. throttle q.0 q.1) qs ++ ls) ≡ qs ++ throttles ls)
        × (scrapes (map (λ q. throttle q.0 q.1) qs ++ ls) ≡ scrapes ls)
  throttle_lines [] ls = (refl, refl, refl)
  throttle_lines (q ∷ qs) ls =
      let rest = throttle_lines qs ls in (rest.0, ap (λ xs. q ∷ xs) rest.1, rest.2)

  block_lines :
      (qs : List (String × F.Float)) (ls : List (Line F))
      → (readings (blocks F qs ++ ls) ≡ qs ++ readings ls)
        × (throttles (blocks F qs ++ ls) ≡ throttles ls)
        × (scrapes (blocks F qs ++ ls) ≡ scrapes ls)
  unfolding blocks
  block_lines [] ls = (refl, refl, refl)
  block_lines (q ∷ qs) ls =
      let rest = block_lines qs ls in (ap (λ xs. q ∷ xs) rest.0, rest.1, rest.2)

  render-IsShown :
      (numbers : List F.Float) (on : List (String × F.Float)) (ok : Bool)
      (metrics : Option (List String))
      → IsShown (zip gauges numbers) on ok (render F numbers on ok metrics)
  unfolding render
  render-IsShown numbers on ok metrics =
      let tail : List (Line F) =
        comment "HELP" "gpulab_gpu_scrape_ok"
        ∷ comment "TYPE" "gpulab_gpu_scrape_ok"
        ∷ scrape_ok ok
        ∷ map system (or_none F metrics) in
      let middle : List (Line F) =
        comment "HELP" "gpulab_gpu_throttle_active"
        ∷ comment "TYPE" "gpulab_gpu_throttle_active"
        ∷ (map (λ q. throttle q.0 q.1) on ++ tail) in
      let a = block_lines (zip gauges numbers) middle in
      let b = throttle_lines on tail in
      let c = machine_shows (or_none F metrics) in
      record {
        gauges_shown =
            a.0 ∙ ap (λ xs. zip gauges numbers ++ xs) (b.0 ∙ c.0) ∙ append-nil (zip gauges numbers);
        reasons_shown = a.1 ∙ b.1 ∙ ap (λ xs. on ++ xs) c.1 ∙ append-nil on;
        outcome_shown = a.2 ∙ b.2 ∙ ap (λ xs. ok ∷ xs) c.2;
      }

  -- What the last poll says that the payload shows.
  abbrev pub IsCurrent : Option String → List (Line F) → Type 0
  IsCurrent none ls =
      IsShown (zip gauges (map (λ _. F.nan) gauges)) (map (λ r. (r, F.zero)) reasons) false ls
  IsCurrent (some out) ls = IsShown (zip gauges (sample F out).0) (sample F out).1 true ls

  payload_of-IsCurrent : (p : Poll F) → IsCurrent p.smi (payload_of F p)
  unfolding payload_of blank_payload
  payload_of-IsCurrent p = elim (Option-cases p.smi) [
    | inl e ↦
        rw (payload_of, e)
          (render-IsShown (map (λ _. F.nan) gauges) (map (λ r. (r, F.zero)) reasons) false
            p.metrics)
    | inr (out, e) ↦
        rw (payload_of, e) (render-IsShown (sample F out).0 (sample F out).1 true p.metrics)
  ]

  -- Whatever was served before, the payload after a poll shows that poll alone: the gauges and the
  -- throttle reasons that nvidia-smi gave and 1, or all gauges as NaN, all reasons as 0 and 0 if the
  -- poll failed. The outcome stands there once.
  pub poll_forever-IsCurrent :
      (start : List (Line F)) (ps : List (Poll F)) (p : Poll F)
      → IsCurrent p.smi (poll_forever F start (ps ++ (p ∷ [])))
  unfolding poll_forever
  poll_forever-IsCurrent start [] p = payload_of-IsCurrent p
  poll_forever-IsCurrent start (q ∷ qs) p = poll_forever-IsCurrent (payload_of F q) qs p
