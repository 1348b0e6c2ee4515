-- ===== src/Watchdog/Breaches.antt =====
-- When a poll ends the run: the two counters keep the lengths of runs at the end of the history
-- and of the polls.
use gpu_lab.Base.{
  ◌≢◌, ℕ, ◌+◌, ◌≤◌, ◌≡◌, refl, subst, subst₂, sym, ◌↔◌, ◌⊎◌, inl, inr, Bool, true, false,
}
use gpu_lab.Base.{
  Option-cases, Option, none, some, List, [], ◌∷◌, ◌++◌, append_assoc, append-nil, arith,
}
use gpu_lab.Base.{if◌then◌else◌}
use gpu_lab.Base.Runs.{EndsIn, Counts, Counts-nil, Counts-snoc}
use gpu_lab.Base.Floats.{Floats}
use gpu_lab.Readings.{Sample}
use gpu_lab.Watchdog.{Config, Poll, State, Next, go, halt, Exit, init, fatal, sample}
use gpu_lab.Watchdog.{judge, miss, check_running, step, watch}

module _ (F : Floats) where
  Next-cases : (r : Next F) → ((s : State F) × (r ≡ go s)) ⊎ ((e : Exit F) × (r ≡ halt e))
  Next-cases (go s) = inl (s, refl)
  Next-cases (halt e) = inr (e, refl)

module _ (F : Floats) (c : Config F) where
  -- A relation between the polls and the state that every round keeps holds while the loop runs.
  pub watch_inv :
      (Q : List (Poll F) → State F → Type 0)
      → ((pre : List (Poll F)) (s s' : State F) (p : Poll F)
          → Q pre s
          → step F c s p ≡ go s'
          → Q (pre ++ p ∷ []) s')
      → (pre ps : List (Poll F)) (s s' : State F) → Q pre s
      → watch F c s ps ≡ go s'
      → Q (pre ++ ps) s'
  unfolding watch
  watch_inv Q keep pre [] s s' q h = rw append-nil (subst (Q pre) (cc) q)
  watch_inv Q keep pre (p ∷ ps) s s' q h = elim (Next-cases F (step F c s p)) [
    | inl (t, e) ↦
        subst (λ l. Q l s') (append_assoc pre (p ∷ []) ps)
          (watch_inv Q keep (pre ++ p ∷ []) ps t s' (keep pre s t p q e) (rw (e, watch) at h))
    | inr (x, e) ↦ let stop = rw (e, watch) at h in cc
  ]

  abbrev pub missed : Poll F → Bool
  missed p = elim (sample F p) [ none ↦ true | some _ ↦ false ]

  -- The samples that the polls gave.
  abbrev pub readings : List (Poll F) → List (Sample F)
  readings [] = []
  readings (p ∷ ps) = elim (sample F p) [ none ↦ readings ps | some x ↦ x ∷ readings ps ]

  readings-snoc :
      (ps : List (Poll F)) (p : Poll F)
      → readings (ps ++ p ∷ [])
        ≡ elim (sample F p) [ none ↦ readings ps | some x ↦ readings ps ++ x ∷ [] ]
  readings-snoc [] p = ground arith
  readings-snoc (q ∷ ps) p = ground (arith, readings-snoc ps p)

  -- What holds after the polls `ps`, as long as the loop runs.
  pub record IsCounted (ps : List (Poll F)) (s : State F) : Type 0 where
    pub history : s.history ≡ readings ps
    pub breaches : Counts (fatal F c) s.history s.breaches
    pub failures : Counts missed ps s.read_failures

  judge-go :
      (p : Poll F) (x : Sample F) (s s' : State F)
      → judge F c p x s ≡ go s'
      → (s'.history ≡ s.history ++ x ∷ [])
        × (s'.breaches ≡ (if fatal F c x then s.breaches + 1 else 0))
        × (s'.read_failures ≡ 0)
  unfolding judge check_running
  judge-go p x s s' h = ground arith

  miss-go :
      (s s' : State F)
      → miss F c s ≡ go s'
      → (s'.history ≡ s.history)
        × (s'.breaches ≡ s.breaches)
        × (s'.read_failures ≡ s.read_failures + 1)
  unfolding miss
  miss-go s s' h = ground arith

  IsCounted-miss :
      (pre : List (Poll F)) (s s' : State F) (p : Poll F)
      → IsCounted pre s
      → sample F p ≡ none
      → miss F c s ≡ go s'
      → IsCounted (pre ++ p ∷ []) s'
  IsCounted-miss pre s s' p k e h =
      let m = miss-go s s' h in
      let one_more : (if missed p then s.read_failures + 1 else 0) ≡ s'.read_failures =
        ground arith in
      record {
        history = ground (arith, readings-snoc pre p);
        breaches = subst₂ (Counts (fatal F c)) (sym m.0) (sym m.1) k.breaches;
        failures =
            subst (Counts missed (pre ++ p ∷ [])) one_more
              (Counts-snoc missed pre s.read_failures p k.failures);
      }

  IsCounted-judge :
      (pre : List (Poll F)) (s s' : State F) (p : Poll F) (x : Sample F)
      → IsCounted pre s
      → sample F p ≡ some x
      → judge F c p x s ≡ go s'
      → IsCounted (pre ++ p ∷ []) s'
  IsCounted-judge pre s s' p x k e h =
      let m = judge-go p x s s' h in
      let reset : (if missed p then s.read_failures + 1 else 0) ≡ s'.read_failures = ground arith in
      record {
        history = ground (arith, readings-snoc pre p);
        breaches =
            subst₂ (Counts (fatal F c)) (sym m.0) (sym m.1)
              (Counts-snoc (fatal F c) s.history s.breaches x k.breaches);
        failures =
            subst (Counts missed (pre ++ p ∷ [])) reset
              (Counts-snoc missed pre s.read_failures p k.failures);
      }

  IsCounted-step :
      (pre : List (Poll F)) (s s' : State F) (p : Poll F)
      → IsCounted pre s
      → step F c s p ≡ go s'
      → IsCounted (pre ++ p ∷ []) s'
  unfolding step
  IsCounted-step pre s s' p k h = elim (Option-cases (sample F p)) [
    | inl e ↦ IsCounted-miss pre s s' p k e (rw (e, step) at h)
    | inr (x, e) ↦ IsCounted-judge pre s s' p x k e (rw (e, step) at h)
  ]

  pub IsCounted-watch :
      (ps : List (Poll F)) (s : State F) → watch F c (init F) ps ≡ go s → IsCounted ps s
  IsCounted-watch ps s h =
      watch_inv IsCounted IsCounted-step [] ps (init F) s
        (record { history = refl; breaches = Counts-nil (fatal F c); failures = Counts-nil missed })
        h

  -- The exit status, if the round ended the run.
  abbrev pub status_of : Next F → Option ℕ
  status_of (go s) = none
  status_of (halt e) = some e.status

  judge-hot :
      (p : Poll F) (x : Sample F) (s : State F)
      → let b : ℕ = if fatal F c x then s.breaches + 1 else 0 in
        (c.violations ≤ b) ↔ (status_of (judge F c p x s) ≡ some 1)
  unfolding judge check_running
  judge-hot p x s = (λ le. ground arith, λ h. ground arith)

  miss-blind : (s : State F) → (10 ≤ s.read_failures + 1) ↔ (status_of (miss F c s) ≡ some 2)
  unfolding miss
  miss-blind s = (λ le. ground arith, λ h. ground arith)

  judge-not_blind : (p : Poll F) (x : Sample F) (s : State F) → status_of (judge F c p x s) ≢ some 2
  unfolding judge check_running
  judge-not_blind p x s h = ground arith

  -- While the loop runs, a poll that gives a sample ends it with status 1 exactly when the last
  -- `violations` samples read so far, the new one included, exist and are all breaches.
  pub hot_exactly :
      (ps : List (Poll F)) (p : Poll F) (s : State F) (x : Sample F)
      → watch F c (init F) ps ≡ go s
      → sample F p ≡ some x
      → EndsIn (fatal F c) c.violations (readings (ps ++ p ∷ []))
        ↔ (status_of (step F c s p) ≡ some 1)
  unfolding step
  hot_exactly ps p s x h e =
      let k = IsCounted-watch ps s h in
      let new : readings (ps ++ p ∷ []) ≡ s.history ++ x ∷ [] =
        ground (arith, readings-snoc ps p) in
      let runs = Counts-snoc (fatal F c) s.history s.breaches x k.breaches c.violations in
      let hot = judge-hot p x s in rw (new, e, step) (λ r. hot.0 (runs.1 r), λ r. runs.0 (hot.1 r))

  -- While the loop runs, a poll ends it with status 2 exactly when it is the tenth in a row that
  -- could not be read.
  pub blind_exactly :
      (ps : List (Poll F)) (p : Poll F) (s : State F)
      → watch F c (init F) ps ≡ go s
      → EndsIn missed 10 (ps ++ p ∷ []) ↔ (status_of (step F c s p) ≡ some 2)
  unfolding step
  blind_exactly ps p s h =
      let k = IsCounted-watch ps s h in
      let runs = Counts-snoc missed ps s.read_failures p k.failures 10 in
      elim (Option-cases (sample F p)) [
        | inl e ↦
            let more : (if missed p then s.read_failures + 1 else 0) ≡ s.read_failures + 1 =
              ground arith in
            let blind = miss-blind s in
            rw (e, step)
              (
                λ r. blind.0 (subst (λ n. 10 ≤ n) more (runs.1 r)),
                λ r. runs.0 (subst (λ n. 10 ≤ n) (sym more) (blind.1 r)),
              )
        | inr (x, e) ↦
            let none_missed : (if missed p then s.read_failures + 1 else 0) ≡ 0 = ground arith in
            rw (e, step)
              (
                λ r. absurd (omega (arith, runs.1 r, none_missed)),
                λ r. absurd (judge-not_blind p x s r),
              )
      ]
