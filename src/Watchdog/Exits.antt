-- ===== src/Watchdog/Exits.antt =====
-- How a run of the watchdog ends, whatever the polls say.
use gpu_lab.Base.{ℕ, ◌+◌, ◌-◌, ◌≤◌, ◌<◌, ◌≡◌, refl, subst, ◌∙◌, ◌↔◌, ◌⊎◌, inl, inr}
use gpu_lab.Base.{Bool, true, false, ◌&&◌, ◌||◌, not, Option, none, some, List, [], ◌∷◌, ◌++◌}
use gpu_lab.Base.{
  arith, leb, Bool-cases, Option-cases, if◌then◌else◌, length, last_n, length-drop, All,
}
use gpu_lab.Base.{◌==◌, string_eq}
use gpu_lab.Base.Text.{strip}
use gpu_lab.Base.Floats.{Floats}
use gpu_lab.Readings.{Sample}
use gpu_lab.Watchdog.{Config, Poll, State, Next, go, halt, Exit, Report, Reason, hours, blind}
use gpu_lab.Watchdog.{fatal, throttling, why_hot, cap_reached, abort, finished, write}
use gpu_lab.Watchdog.{judge, miss, check_running, step, watch, sample, main_loop, on_term, init}

length-last_n {ℓ} : {A : Type ℓ} (n : ℕ) (xs : List A) → length (last_n n xs) ≤ n
length-last_n n xs = omega (arith, length-drop (length xs - n) xs)

abbrev pub is_some {ℓ} : {A : Type ℓ} → Option A → Bool
is_some none = false
is_some (some a) = true

module _ (F : Floats) (c : Config F) where
  -- An exit: `docker kill` was run, with a status of 1 to 3 and a report of the last samples, or the
  -- status is 0. `by_signal` says whether a signal ended the loop.
  pub record IsExit (by_signal : Bool) (e : Exit F) : Type 0 where
    pub status_bound : e.status ≤ 3
    pub kill_status : (e.kill_sent ≡ true) ↔ (1 ≤ e.status)
    pub asked : is_some e.written ≡ c.report
    pub report_lem :
        (r : Report F)
        → e.written ≡ some r
        → (r.aborted ≡ e.kill_sent)
          × (r.terminated ≡ by_signal)
          × ((e.kill_sent ≡ true) → length r.samples ≤ 60)

  Next-cases : (r : Next F) → ((s : State F) × (r ≡ go s)) ⊎ ((e : Exit F) × (r ≡ halt e))
  Next-cases (go s) = inl (s, refl)
  Next-cases (halt e) = inr (e, refl)

  abort-IsExit :
      (n : ℕ) (why : Reason F) (h : List (Sample F))
      → 1 ≤ n
      → n ≤ 3
      → IsExit false (abort F c n why h)
  unfolding abort write
  abort-IsExit n why h one three = record {
    status_bound = three;
    kill_status = (λ _. one, λ _. refl);
    asked = ground arith;
    report_lem = λ r e. ground (arith, length-last_n 60 h);
  }

  finished-IsExit : (h : List (Sample F)) → IsExit false (finished F c h)
  unfolding finished write
  finished-IsExit h = record {
    status_bound = omega arith;
    kill_status = (λ k. cc, λ k. absurd (omega arith));
    asked = ground arith;
    report_lem = λ r e. ground arith;
  }

  check_running-IsExit :
      (p : Poll F) (s : State F) (e : Exit F) → check_running F c p s ≡ halt e → IsExit false e
  unfolding check_running
  check_running-IsExit p s e h = elim (Option-cases (cap_reached F c p.capped_at)) [
    | inl none_yet ↦ elim (Bool-cases (strip p.inspect == "true")) [
      | inl runs ↦ let on = rw (none_yet, runs, check_running) at h in cc
      | inr stopped ↦ elim (Bool-cases (s.seen || F.gt p.waited c.wait)) [
        | inl done ↦
            let out = rw (none_yet, stopped, done, check_running) at h in
            subst (IsExit false) (cc) (finished-IsExit s.history)
        | inr waits ↦ let on = rw (none_yet, stopped, waits, check_running) at h in cc
      ]
    ]
    | inr (hs, cap) ↦
        let out = rw (cap, check_running) at h in
        subst (IsExit false) (cc) (abort-IsExit 3 (hours hs) s.history (omega arith) (omega arith))
  ]

  judge-IsExit :
      (p : Poll F) (x : Sample F) (s : State F) (e : Exit F)
      → judge F c p x s ≡ halt e
      → IsExit false e
  unfolding judge
  judge-IsExit p x s e h =
      let b : ℕ = if fatal F c x then s.breaches + 1 else 0 in
      elim (Bool-cases (leb c.violations b)) [
        | inl hot ↦
            let out = rw (hot, judge) at h in
            subst (IsExit false) (cc)
              (abort-IsExit 1 (why_hot F c x) (s.history ++ x ∷ []) (omega arith) (omega arith))
        | inr cool ↦ check_running-IsExit p _ e (rw (cool, judge) at h)
      ]

  miss-IsExit : (s : State F) (e : Exit F) → miss F c s ≡ halt e → IsExit false e
  unfolding miss
  miss-IsExit s e h = elim (Bool-cases (leb 10 (s.read_failures + 1))) [
    | inl ten ↦
        let out = rw (ten, miss) at h in
        subst (IsExit false) (cc)
          (abort-IsExit 2 (blind (s.read_failures + 1)) s.history (omega arith) (omega arith))
    | inr fewer ↦ let on = rw (fewer, miss) at h in cc
  ]

  step-IsExit : (s : State F) (p : Poll F) (e : Exit F) → step F c s p ≡ halt e → IsExit false e
  unfolding step
  step-IsExit s p e h = elim (Option-cases (sample F p)) [
    | inl missed ↦ miss-IsExit s e (rw (missed, step) at h)
    | inr (x, read) ↦ judge-IsExit p x s e (rw (read, step) at h)
  ]

  watch-IsExit :
      (ps : List (Poll F)) (s : State F) (e : Exit F) → watch F c s ps ≡ halt e → IsExit false e
  unfolding watch
  watch-IsExit [] s e h = cc
  watch-IsExit (p ∷ ps) s e h = elim (Next-cases (step F c s p)) [
    | inl (t, on) ↦ watch-IsExit ps t e (rw (on, watch) at h)
    | inr (d, out) ↦ step-IsExit s p e (out ∙ (rw (out, watch) at h))
  ]

  on_term-IsExit : (s : State F) → IsExit true (on_term F c s)
  unfolding on_term write
  on_term-IsExit s = record {
    status_bound = omega arith;
    kill_status = (λ k. cc, λ k. absurd (omega arith));
    asked = ground arith;
    report_lem = λ r e. ground arith;
  }

  -- The loop still runs after the polls.
  abbrev pub goes_on : Next F → Bool
  goes_on (go s) = true
  goes_on (halt e) = false

  -- However a run ends, by itself or by a signal after any of its polls, `docker kill` was run exactly
  -- if the status is not 0, the status is at most 3, a report is written exactly if one was asked for,
  -- it says `aborted` exactly if `docker kill` was run and `terminated` exactly if the loop still ran
  -- when the signal came, and a report of an abort holds at most 60 samples.
  pub main_loop-IsExit :
      (ps : List (Poll F)) (signalled : Bool) (e : Exit F)
      → main_loop F c ps signalled ≡ halt e
      → IsExit (goes_on (watch F c (init F) ps)) e
  unfolding main_loop
  main_loop-IsExit ps signalled e h = elim (Next-cases (watch F c (init F) ps)) [
    | inr (d, out) ↦
        let same : halt d ≡ halt e = rw (main_loop, out) at h in
        rw out (watch-IsExit ps (init F) e (out ∙ same))
    | inl (s, on) ↦ elim (Bool-cases signalled) [
      | inl e1 ↦
          let same : halt (on_term F c s) ≡ halt e = rw (main_loop, on, e1) at h in
          rw on (subst (IsExit true) (cc same) (on_term-IsExit s))
      | inr e0 ↦ let other : go s ≡ halt e = rw (main_loop, on, e0) at h in cc other
    ]
  ]

  -- A poll whose temperature could not be parsed, and whose throttle flags, where they count, are
  -- not set.
  abbrev pub IsUnreadable : Poll F → Type 0
  IsUnreadable p =
      (x : Sample F) × (sample F p ≡ some x)
      × (x.temp_c ≡ F.nan)
      × ((throttling F x && not c.allow_throttle) ≡ false)

  unreadable-goes_on :
      (p : Poll F) (s : State F) (e : Exit F)
      → 0 < c.violations
      → c.max_hours ≡ none
      → IsUnreadable p
      → step F c s p ≡ halt e
      → e.kill_sent ≡ false
  unfolding step judge check_running finished
  unreadable-goes_on p s e pos uncapped (x, read, lost, calm) h =
      let cold : F.ge x.temp_c c.max_temp ≡ false = rw lost (F.ge-nan c.max_temp) in
      let e' = rw (read, step) at h in ground arith

  -- Without --max-hours, and where --violations is above 0, `docker kill` is never run on a card that
  -- answers every poll with a temperature that is no number and does not report a throttle that
  -- counts, however long the run: unlike a failed read, an unreadable temperature is not counted.
  pub unreadable-no_kill :
      (ps : List (Poll F)) (s : State F) (e : Exit F)
      → 0 < c.violations
      → c.max_hours ≡ none
      → All IsUnreadable ps
      → watch F c s ps ≡ halt e
      → e.kill_sent ≡ false
  unfolding watch
  unreadable-no_kill [] s e pos uncapped all h = cc
  unreadable-no_kill (p ∷ ps) s e pos uncapped (u, us) h = elim (Next-cases (step F c s p)) [
    | inl (t, on) ↦ unreadable-no_kill ps t e pos uncapped us (rw (on, watch) at h)
    | inr (d, out) ↦ unreadable-goes_on p s e pos uncapped u (out ∙ (rw (out, watch) at h))
  ]
