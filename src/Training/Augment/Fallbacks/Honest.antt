-- ===== src/Training/Augment/Fallbacks/Honest.antt =====
-- What an answer says after lookups that failed, and how many records there are.
use Prim.Native.String.{String}
use gpu_lab.Base.{◌<>◌, ◌-◌, ℕ, zero, suc, ◌≤◌, ◌<◌, ◌≡◌, refl, arith, Bool, true, false, ◌||◌, not}
use gpu_lab.Base.{Option, none, some, List, [], ◌∷◌, All, all, length, drop, contains}
use gpu_lab.Base.{
  if◌then◌else◌, leb, not_leb→lt, Bool-cases, Option-cases, inl, inr, ◌==◌, nat_eq, string_eq,
}
use gpu_lab.Base.Text.{starts_with}
use gpu_lab.Base.Format.{replaced}
use gpu_lab.Base.Parts.{starts_with-append}
use gpu_lab.Base.Alls.{All-every}
use gpu_lab.Base.Random.{Random, Draw, ◌>>=◌, Returns, collect}
use gpu_lab.Base.Collected.{Counted, total_ones, Returns-collect}
use gpu_lab.DatasetAudit.Samples.{Message, text}
use gpu_lab.Generator.Records.{Finished}
use gpu_lab.Training.Augment.{Lookup, Addition, spec_of, desc_of}
use gpu_lab.Training.Augment.Fallbacks.{
  web_failures, bash_failures, web_fallback, lookup_failed, trap_lookup_failed, man_parts, page_of,
  man_fallback, alternating, with_failure, web_fallbacks, man_loop, man_fallbacks, lookups_failed,
  choices, traps_failed,
}

-- A response that shows no documentation.
abbrev pub is_failure : String → Bool
is_failure t =
    contains web_failures t || contains bash_failures t || starts_with t "No manual entry for "

-- The texts of the responses.
abbrev pub responses : List Message → List String
responses [] = []
responses (m ∷ ms) = elim m.role [
  | none ↦ responses ms
  | some role ↦ elim m.content [
    | text t ↦ if role == "tool" then t ∷ responses ms else responses ms
    | _ ↦ responses ms
  ]
]

abbrev pub last_text : List Message → String
last_text [] = ""
last_text (m ∷ []) = elim m.content [ text t ↦ t | _ ↦ "" ]
last_text (m ∷ n ∷ ms) = last_text (n ∷ ms)

-- Behind the question and the first call every response is a failure, and the answer says that it
-- could not check the documentation.
abbrev pub IsUnverified : Addition → Type 0
IsUnverified a =
    (all is_failure (responses (drop 2 a.messages)) ≡ true)
    × (starts_with (last_text a.messages) "I couldn't check the documentation" ≡ true)

abbrev pub IsBashFailure : String → Type 0
IsBashFailure f = contains bash_failures f ≡ true

abbrev pub IsWebFailure : String → Type 0
IsWebFailure f = contains web_failures f ≡ true

-- A record of a lookup whose search of the web failed, whose command failed, or whose trap did.
abbrev pub IsWebFallback : Addition → Type 0
IsWebFallback a = (l : Lookup) × (f : String) × IsWebFailure f × (a ≡ web_fallback l f)

abbrev pub IsLookupFailed : Addition → Type 0
IsLookupFailed a =
    IsUnverified a
    × ((l : Lookup) × (asks_man : Bool) × (f : String) × IsBashFailure f
        × (a ≡ lookup_failed l asks_man f))

abbrev pub IsTrapFailed : Addition → Type 0
IsTrapFailed a =
    IsUnverified a × ((l : Lookup) × (f : String) × IsBashFailure f × (a ≡ trap_lookup_failed l f))

-- One whose command failed, and whose man page defines the flag.
abbrev pub IsManFallback : (String → Option Finished) → Addition → Type 0
IsManFallback man a =
    (l : Lookup) × (win : String) × (spec : String) × (f : String) × (man_parts man l
      ≡ some (win, spec))
    × IsBashFailure f
    × (a ≡ man_fallback l win spec f)

-- At most so many elements, all of which satisfy `P`.
abbrev pub AtMost : (Addition → Type 0) → ℕ → List Addition → Type 0
AtMost P n xs = (length xs ≤ n) × All P xs

web_failures-failures : All IsWebFailure web_failures
unfolding string_eq nat_eq
web_failures-failures = (refl, (refl, (refl, tt)))

bash_failures-failures : All IsBashFailure bash_failures
unfolding string_eq nat_eq
bash_failures-failures = (refl, (refl, (refl, tt)))

is_failure-bash : (f : String) → IsBashFailure f → is_failure f ≡ true
is_failure-bash f h = rw h (ground arith)

or-last : (a b c : Bool) → c ≡ true → (a || b || c) ≡ true
or-last a b c h = ground (arith, h)

is_failure-page : (page : String) → is_failure ("No manual entry for " <> page) ≡ true
is_failure-page page =
    or-last (contains web_failures ("No manual entry for " <> page))
      (contains bash_failures ("No manual entry for " <> page))
      (starts_with ("No manual entry for " <> page) "No manual entry for ")
      (starts_with-append "No manual entry for " page)

lookup_failed-IsUnverified :
    (l : Lookup) (asks_man : Bool) (f : String)
    → IsBashFailure f
    → IsUnverified (lookup_failed l asks_man f)
unfolding string_eq nat_eq desc_of spec_of replaced
lookup_failed-IsUnverified l true f h = (
  rw (is_failure-bash f h, is_failure-page (page_of l)) refl,
  starts_with-append "I couldn't check the documentation" _,
)
lookup_failed-IsUnverified l false f h =
    (rw (is_failure-bash f h) refl, starts_with-append "I couldn't check the documentation" _)

trap_lookup_failed-IsUnverified :
    (l : Lookup) (f : String) → IsBashFailure f → IsUnverified (trap_lookup_failed l f)
unfolding string_eq nat_eq
trap_lookup_failed-IsUnverified l f h =
    (ground (arith, h), starts_with-append "I couldn't check the documentation" _)

length-alternating :
    {A : Type 0} (odd : Bool) (xs : List A) → length (alternating odd xs) ≡ length xs
unfolding alternating
length-alternating odd [] = refl
length-alternating odd (x ∷ xs) = omega (arith, length-alternating (not odd) xs)

module _ (r : Random) where
  with_failure-Returns :
      (P : Addition → Type 0) (Q : String → Type 0) (f : String) (fs : List String)
      (build : String → Addition) (s : r.State)
      → All Q (f ∷ fs)
      → ((t : String) → Q t → P (build t))
      → Returns (Counted P 1) (with_failure r (f ∷ fs) build) s
  with_failure-Returns P Q f fs build s h g =
      let (drawn, got) = r.choice-returns f fs s in
      let q = r.choice-from Q (f ∷ fs) s drawn got h in
      (build drawn.0 ∷ [], drawn.1, rw (got, ◌>>=◌) refl, (refl, (g drawn.0 q, tt)))

  -- A record for each of the elements drawn.
  sampled-Returns :
      {A : Type 0} (P : Addition → Type 0) (n : ℕ) (xs : List A)
      (f : A → Draw r.State (List Addition)) (s : r.State)
      → n ≤ length xs
      → ((x : A) (t : r.State) → Returns (Counted P 1) (f x) t)
      → Returns (Counted P n) (r.sample n xs >>= (λ ys. collect f ys)) s
  sampled-Returns P n xs f s enough each =
      let (drawn, got, many) = r.sample-returns n xs s enough in
      let (ys, t, run, held) =
        Returns-collect P f (λ _. 1) drawn.0 drawn.1 (All-every _ drawn.0 each) in
      (ys, t, rw (◌>>=◌, got) run, (omega (arith, held.0, many, total_ones drawn.0), held.1))

  pub web_fallbacks-Returns :
      (n : ℕ) (cli : List Lookup) (s : r.State)
      → n ≤ length cli
      → Returns (Counted IsWebFallback n) (web_fallbacks r n cli) s
  unfolding web_fallbacks
  web_fallbacks-Returns n cli s enough =
      sampled-Returns IsWebFallback n cli (λ l. with_failure r web_failures (web_fallback l)) s
        enough
        (λ l t.
          with_failure-Returns IsWebFallback IsWebFailure _ _ (web_fallback l) t
            web_failures-failures (λ f h. (l, f, h, refl)))

  pub lookups_failed-Returns :
      (n : ℕ) (cli : List Lookup) (s : r.State)
      → n ≤ length cli
      → Returns (Counted IsLookupFailed n) (lookups_failed r n cli) s
  unfolding lookups_failed
  lookups_failed-Returns n cli s enough =
      let (drawn, got, many) = r.sample-returns n cli s enough in
      let ls = alternating false drawn.0 in
      let (ys, t, run, held) =
        Returns-collect IsLookupFailed (λ p. with_failure r bash_failures (lookup_failed p.1 p.0))
          (λ _. 1) ls drawn.1
          (All-every _ ls (λ p u.
            with_failure-Returns IsLookupFailed IsBashFailure _ _ (lookup_failed p.1 p.0) u
              bash_failures-failures
              (λ f h. (lookup_failed-IsUnverified p.1 p.0 f h, (p.1, p.0, f, h, refl))))) in
      let k = length-alternating false drawn.0 in
      (ys, t, rw (◌>>=◌, got) run, (omega (arith, held.0, many, k, total_ones ls), held.1))

  choices-Returns :
      {A : Type 0} (n : ℕ) (x : A) (xs : List A) (s : r.State)
      → Returns (λ ys. length ys ≡ n) (choices r n (x ∷ xs)) s
  unfolding choices
  choices-Returns zero x xs s = ([], s, refl, refl)
  choices-Returns (suc n) x xs s =
      let (drawn, got) = r.choice-returns x xs s in
      let (ys, t, run, held) = choices-Returns n x xs drawn.1 in
      (drawn.0 ∷ ys, t, rw (choices, ◌>>=◌, got, run) refl, omega (arith, held))

  -- No trap is needed where none is asked for.
  pub traps_failed-Returns :
      (n : ℕ) (traps : List Lookup) (s : r.State)
      → (0 < n → 0 < length traps)
      → Returns (Counted IsTrapFailed n) (traps_failed r n traps) s
  unfolding traps_failed choices collect
  traps_failed-Returns zero traps s some_trap = ([], s, refl, (refl, tt))
  traps_failed-Returns (suc n) [] s some_trap =
      absurd (let h = some_trap (omega arith) in omega arith)
  traps_failed-Returns (suc n) (l ∷ ls) s some_trap =
      let (drawn, t, got, many) = choices-Returns (suc n) l ls s in
      let (ys, u, run, held) =
        Returns-collect IsTrapFailed (λ l. with_failure r bash_failures (trap_lookup_failed l))
          (λ _. 1) drawn t
          (All-every _ drawn (λ l u.
            with_failure-Returns IsTrapFailed IsBashFailure _ _ (trap_lookup_failed l) u
              bash_failures-failures
              (λ f h. (trap_lookup_failed-IsUnverified l f h, (l, f, h, refl))))) in
      (
        ys,
        u,
        rw (traps_failed, ◌>>=◌, got) run,
        (omega (arith, held.0, many, total_ones drawn), held.1),
      )

  IsBashFailure-returns :
      (s : r.State)
      → (f : String × r.State) × (r.choice bash_failures s ≡ some f) × IsBashFailure f.0
  IsBashFailure-returns s =
      let (f, got) = r.choice-returns _ _ s in
      (f, got, r.choice-from IsBashFailure bash_failures s f got bash_failures-failures)

  -- The loop makes no more records than are wanted and still missing.
  man_loop-Returns :
      (man : String → Option Finished) (wanted made : ℕ) (ls : List Lookup) (s : r.State)
      → Returns
          (λ found. AtMost (IsManFallback man) (wanted - made) found.0)
          (man_loop r man wanted made ls)
          s
  unfolding man_loop
  man_loop-Returns man wanted made [] s = (([], 0), s, refl, (omega arith, tt))
  man_loop-Returns man wanted made (l ∷ ls) s = elim (Bool-cases (leb wanted made)) [
    | inl e ↦ rw (man_loop, e) (([], 0), s, refl, (omega arith, tt))
    | inr e ↦ elim (Option-cases (man_parts man l)) [
      | inl f ↦
          let (found, t, run, few) = man_loop-Returns man wanted made ls s in
          rw (man_loop, e, f) ((found.0, suc found.1), t, rw (◌>>=◌, run) refl, few)
      | inr ((win, spec), f) ↦
          let (failure, got, fails) = IsBashFailure-returns s in
          let (found, t, run, few) = man_loop-Returns man wanted (suc made) ls failure.1 in
          let room = not_leb→lt wanted made e in
          rw (man_loop, e, f)
            (
              (man_fallback l win spec failure.0 ∷ found.0, found.1),
              t,
              rw (◌>>=◌, got, run) refl,
              (omega (arith, few.0, room), ((l, win, spec, failure.0, f, fails, refl), few.1)),
            )
    ]
  ]

  pub man_fallbacks-Returns :
      (man : String → Option Finished) (wanted : ℕ) (cli : List Lookup) (s : r.State)
      → Returns
          (λ found. AtMost (IsManFallback man) wanted found.0)
          (man_fallbacks r man wanted cli)
          s
  unfolding man_fallbacks
  man_fallbacks-Returns man wanted cli s =
      let (drawn, got, many) = r.sample-returns (length cli) cli s (omega arith) in
      let (found, t, run, few) = man_loop-Returns man wanted 0 drawn.0 drawn.1 in
      (found, t, rw (◌>>=◌, got) run, (omega (arith, few.0), few.1))
