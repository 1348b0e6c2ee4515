-- ===== src/Watchdog/Examples.antt =====
-- Runs of the watchdog over whole numbers in place of floats, and the theorems at concrete polls.
use gpu_lab.Base.{ℕ, ◌-◌, ◌*◌, ◌≡◌, refl, ◌↔◌, Bool, true, false, Option, none, some}
use gpu_lab.Base.{List, [], ◌∷◌, ◌++◌, String, leb, ltb, arith, string_eq, nat_eq}
use gpu_lab.Base.Text.{has_part, words, strip, split, lower_is, int_of}
use gpu_lab.Base.Runs.{EndsIn}
use gpu_lab.Base.Floats.{Floats}
use gpu_lab.Readings.{Sample, target_temp}
use gpu_lab.Watchdog.{Config, Poll, State, go, halt, Exit, ceiling, init, fatal}
use gpu_lab.Watchdog.{sample, step, watch, main_loop, default_ceiling}
use gpu_lab.Watchdog.Breaches.{readings, missed, status_of, hot_exactly, blind_exactly}
use gpu_lab.Watchdog.Exits.{IsExit, goes_on, main_loop-IsExit, unreadable-no_kill}

-- `none` is NaN.
abbrev lift : (ℕ → ℕ → Bool) → Option ℕ → Option ℕ → Bool
lift test none y = false
lift test (some x) none = false
lift test (some x) (some y) = test x y

abbrev lift₂ : (ℕ → ℕ → ℕ) → Option ℕ → Option ℕ → Option ℕ
lift₂ f none y = none
lift₂ f (some x) none = none
lift₂ f (some x) (some y) = some (f x y)

abbrev whole : Floats
whole = record {
  Float = Option ℕ;
  nan = none;
  ge = lift (λ a b. leb b a);
  gt = lift (λ a b. ltb b a);
  truthy = λ x. elim x [ none ↦ true | some n ↦ ltb 0 n ];
  of_ℕ = some;
  sub = lift₂ ◌-◌;
  mul = lift₂ ◌*◌;
  parse = λ s. elim (int_of s) [ none ↦ none | some n ↦ some (some n) ];
  ge-nan = λ x. refl;
}

abbrev settings : Config whole
settings = record {
  max_temp = some 84;
  violations = 3;
  report = true;
  wait = some 0;
  allow_throttle = false;
  max_hours = none;
}

abbrev poll : Option String → Poll whole
poll out = record {
  query = out;
  sampled_at = some 5;
  capped_at = some 5;
  waited = some 5;
  inspect = "true\n";
}

abbrev hot_poll : Poll whole
hot_poll = poll (some "86, 300, 350, 20000, 99, Not Active, Not Active, Not Active\n")

abbrev unread_poll : Poll whole
unread_poll = poll (some "N/A, 300, 350, 20000, 99, Not Active, Not Active, Not Active\n")

abbrev hot_sample : Sample whole
hot_sample = record {
  temp_c = some 86;
  power_w = some 300;
  power_limit_w = some 350;
  mem_mib = some 20000;
  util_pct = some 99;
  hw_thermal = false;
  sw_thermal = false;
  hw_power_brake = false;
  t = some 5;
}

abbrev after_two : State whole
after_two = record {
  history = hot_sample ∷ hot_sample ∷ [];
  breaches = 2;
  read_failures = 0;
  seen = true;
}

hot_poll-sample : sample whole hot_poll ≡ some hot_sample
unfolding sample strip split lower_is int_of string_eq nat_eq
hot_poll-sample = refl

two_polls : watch whole settings (init whole) (hot_poll ∷ hot_poll ∷ []) ≡ go after_two
unfolding watch sample strip split lower_is int_of string_eq nat_eq
two_polls = refl

hot_exactly_example :
    EndsIn (fatal whole settings) 3 (readings whole settings (hot_poll ∷ hot_poll ∷ hot_poll ∷ []))
    ↔ (status_of whole settings (step whole settings after_two hot_poll) ≡ some 1)
hot_exactly_example =
    hot_exactly whole settings (hot_poll ∷ hot_poll ∷ []) hot_poll after_two hot_sample two_polls
      hot_poll-sample

abbrev lost_poll : Poll whole
lost_poll = poll none

abbrev nine_lost : List (Poll whole)
nine_lost =
    lost_poll ∷ lost_poll ∷ lost_poll ∷ lost_poll ∷ lost_poll ∷ lost_poll ∷ lost_poll ∷ lost_poll
    ∷ lost_poll ∷ []

abbrev after_nine : State whole
after_nine = record { history = []; breaches = 0; read_failures = 9; seen = false }

nine_polls : watch whole settings (init whole) nine_lost ≡ go after_nine
unfolding watch sample
nine_polls = refl

blind_exactly_example :
    EndsIn (missed whole settings) 10 (nine_lost ++ lost_poll ∷ [])
    ↔ (status_of whole settings (step whole settings after_nine lost_poll) ≡ some 2)
blind_exactly_example = blind_exactly whole settings nine_lost lost_poll after_nine nine_polls

abbrev hot_exit : Exit whole
hot_exit = record {
  status = 1;
  kill_sent = true;
  written = some (record {
    aborted = true;
    terminated = false;
    reason = some (ceiling (some 86) (some 84));
    samples = hot_sample ∷ hot_sample ∷ hot_sample ∷ [];
  });
}

three_polls :
    watch whole settings (init whole) (hot_poll ∷ hot_poll ∷ hot_poll ∷ []) ≡ halt hot_exit
unfolding watch sample strip split lower_is int_of string_eq nat_eq
three_polls = refl

abbrev stopped_exit : Exit whole
stopped_exit = record {
  status = 0;
  kill_sent = false;
  written = some (record {
    aborted = false;
    terminated = true;
    reason = none;
    samples = hot_sample ∷ hot_sample ∷ [];
  });
}

signal_after_two : main_loop whole settings (hot_poll ∷ hot_poll ∷ []) true ≡ halt stopped_exit
unfolding main_loop watch sample strip split lower_is int_of string_eq nat_eq
signal_after_two = refl

main_loop-IsExit_example :
    IsExit whole settings
      (goes_on whole settings (watch whole settings (init whole) (hot_poll ∷ hot_poll ∷ [])))
      stopped_exit
main_loop-IsExit_example =
    main_loop-IsExit whole settings (hot_poll ∷ hot_poll ∷ []) true stopped_exit signal_after_two

abbrev gone_poll : Poll whole
gone_poll = record unread_poll { inspect = "false\n" }

abbrev unread_sample : Sample whole
unread_sample = record hot_sample { temp_c = none }

unread_poll-sample :
    (sample whole unread_poll ≡ some unread_sample) × (sample whole gone_poll ≡ some unread_sample)
unfolding sample strip split lower_is int_of string_eq nat_eq
unread_poll-sample = (refl, refl)

abbrev quiet_exit : Exit whole
quiet_exit = record {
  status = 0;
  kill_sent = false;
  written = some (record {
    aborted = false;
    terminated = false;
    reason = none;
    samples = unread_sample ∷ unread_sample ∷ [];
  });
}

unread_run : watch whole settings (init whole) (unread_poll ∷ gone_poll ∷ []) ≡ halt quiet_exit
unfolding watch sample strip split lower_is int_of string_eq nat_eq
unread_run = refl

unreadable-no_kill_example : quiet_exit.kill_sent ≡ false
unreadable-no_kill_example =
    unreadable-no_kill whole settings (unread_poll ∷ gone_poll ∷ []) (init whole) quiet_exit
      (omega arith) refl
      (
        (unread_sample, unread_poll-sample.0, refl, refl),
        ((unread_sample, unread_poll-sample.1, refl, refl), tt),
      )
      unread_run

-- A target of 87 degrees makes a ceiling of 84.
target_test :
    default_ceiling whole
      (target_temp (some "Temperature\n    GPU Target Temperature  : 87 C\n    T.Limit : N/A\n"))
    ≡ some 84
unfolding default_ceiling target_temp has_part words strip split lower_is int_of string_eq nat_eq
target_test = refl
