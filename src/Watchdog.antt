-- ===== src/Watchdog.antt =====
-- training/watchdog.py: the thermal guard of a training run, as a machine that takes one poll
-- at a time. A poll carries what the run of nvidia-smi, the clock and `docker inspect` gave;
-- printing is left out. Times are seconds since the start, as floats.
pub mod Breaches
pub mod Exits
mod Examples
use gpu_lab.Base.{ℕ, ◌+◌, String, Bool, true, false, ◌&&◌, ◌||◌, not}
use gpu_lab.Base.{Option, none, some, List, [], ◌∷◌, ◌++◌, leb, if◌then◌else◌}
use gpu_lab.Base.{◌==◌, nat_eq, string_eq, last_n}
use gpu_lab.Base.Text.{strip}
use gpu_lab.Base.Floats.{Floats}
use gpu_lab.Readings.{Sample, read_sample}

module _ (F : Floats) where
  open F use {Float, ge, gt, truthy, of_ℕ, sub, mul}

  -- The arguments after parsing. `report` says whether a report path was given.
  pub record Config : Type 0 where
    pub max_temp : Float
    pub violations : ℕ
    pub report : Bool
    pub wait : Float
    pub allow_throttle : Bool
    pub max_hours : Option Float

  -- The ceiling where `--max-temp` is not given; a target of 0 counts as none.
  pub default_ceiling : Option ℕ → Float
  default_ceiling none = of_ℕ 84
  default_ceiling (some target) = if target == 0 then of_ℕ 84 else sub (of_ℕ target) (of_ℕ 3)

  pub data Reason : Type 0 where
    blind : ℕ → Reason
    ceiling : Float → Float → Reason
    slowdown : Reason
    hours : Float → Reason

  pub record Report : Type 0 where
    pub aborted : Bool
    pub terminated : Bool
    pub reason : Option Reason
    pub samples : List (Sample F)

  -- The exit status, whether `docker kill` was run, whatever came of it, and the report, if one was written.
  pub record Exit : Type 0 where
    pub status : ℕ
    pub kill_sent : Bool
    pub written : Option Report

  -- One round of the loop: the output of nvidia-smi (`none` if the call raised), the clock when
  -- the sample was taken, at the test of `--max-hours` and at that of `--wait`, and the output
  -- of `docker inspect`.
  pub record Poll : Type 0 where
    pub query : Option String
    pub sampled_at : Float
    pub capped_at : Float
    pub waited : Float
    pub inspect : String

  pub record State : Type 0 where
    pub history : List (Sample F)
    pub breaches : ℕ
    pub read_failures : ℕ
    pub seen : Bool

  pub data Next : Type 0 where
    go : State → Next
    halt : Exit → Next

  abbrev pub init : State
  init = record { history = []; breaches = 0; read_failures = 0; seen = false }

  write : Config → Report → Option Report
  write c r = if c.report then some r else none

  -- `abort`, and the status that the loop returns after it.
  pub abort : Config → ℕ → Reason → List (Sample F) → Exit
  unfolding write
  abort c status why history = record {
    status = status;
    kill_sent = true;
    written = write c (record {
      aborted = true;
      terminated = false;
      reason = some why;
      samples = last_n 60 history;
    });
  }

  -- `on_term`: a signal between two rounds.
  pub on_term : Config → State → Exit
  unfolding write
  on_term c s = record {
    status = 0;
    kill_sent = false;
    written =
        write c (record { aborted = false; terminated = true; reason = none; samples = s.history });
  }

  -- The container has stopped, or never came.
  finished : Config → List (Sample F) → Exit
  unfolding write
  finished c history = record {
    status = 0;
    kill_sent = false;
    written =
        write c (record { aborted = false; terminated = false; reason = none; samples = history });
  }

  abbrev pub over : Config → Sample F → Bool
  over c s = ge s.temp_c c.max_temp

  abbrev pub throttling : Sample F → Bool
  throttling s = s.hw_thermal || s.sw_thermal

  -- A sample that counts as a breach.
  abbrev pub fatal : Config → Sample F → Bool
  fatal c s = over c s || (throttling s && not c.allow_throttle)

  why_hot : Config → Sample F → Reason
  why_hot c s = if over c s then ceiling s.temp_c c.max_temp else slowdown

  -- args.max_hours and elapsed >= args.max_hours * 3600
  abbrev cap_reached : Config → Float → Option Float
  cap_reached c elapsed = elim c.max_hours [
    | none ↦ none
    | some h ↦ if truthy h && ge elapsed (mul h (of_ℕ 3600)) then some h else none
  ]

  -- The last part of a round: the cap on hours, and whether the container runs.
  check_running : Config → Poll → State → Next
  unfolding abort finished
  check_running c p s = elim (cap_reached c p.capped_at) [
    | some h ↦ halt (abort c 3 (hours h) s.history)
    | none ↦
        if strip p.inspect == "true"
        then go (record s { seen = true })
        else if s.seen || gt p.waited c.wait
        then halt (finished c s.history)
        else go s
  ]

  -- A round whose sample was read.
  judge : Config → Poll → Sample F → State → Next
  unfolding check_running abort why_hot
  judge c p x s =
      let history = s.history ++ x ∷ [] in
      let breaches : ℕ = if fatal c x then s.breaches + 1 else 0 in
      if leb c.violations breaches
      then halt (abort c 1 (why_hot c x) history)
      else check_running c p
          (record { history = history; breaches = breaches; read_failures = 0; seen = s.seen })

  -- A round whose sample could not be read.
  miss : Config → State → Next
  unfolding abort
  miss c s =
      if leb 10 (s.read_failures + 1)
      then halt (abort c 2 (blind (s.read_failures + 1)) s.history)
      else go (record s { read_failures = s.read_failures + 1 })

  pub sample : Poll → Option (Sample F)
  unfolding read_sample
  sample p = elim p.query [ none ↦ none | some out ↦ read_sample F out p.sampled_at ]

  -- One round of `while True`.
  pub step : Config → State → Poll → Next
  unfolding judge miss
  step c s p = elim (sample p) [ none ↦ miss c s | some x ↦ judge c p x s ]

  -- The loop over the polls so far; `go` means that it still runs.
  pub watch : Config → State → List Poll → Next
  unfolding step
  watch c s [] = go s
  watch c s (p ∷ ps) = elim (step c s p) [ halt e ↦ halt e | go s' ↦ watch c s' ps ]

  -- `main`: the loop over the polls, and then the signal, if one comes while it still runs.
  pub main_loop : Config → List Poll → Bool → Next
  unfolding watch on_term
  main_loop c ps signalled = elim (watch c init ps) [
    | halt e ↦ halt e
    | go s ↦ if signalled then halt (on_term c s) else go s
  ]
