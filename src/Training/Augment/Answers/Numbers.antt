-- ===== src/Training/Augment/Answers/Numbers.antt =====
-- How many pairs, ordinary answers and asserted traps are added.
use Prim.Native.String.{String}
use gpu_lab.Base.{◌-◌, ◌/◌, ◌%◌, ℕ, zero, suc, ◌≤◌, ◌<◌, ◌≡◌, refl, arith}
use gpu_lab.Base.{none, some, List, [], ◌∷◌, All, length, get_elem?, keep}
use gpu_lab.Base.{
  if◌then◌else◌, leb, not_leb→lt, Bool-cases, Option-cases, inl, inr, ◌==◌, nat_eq, string_eq,
}
use gpu_lab.Base.{◌<>◌, Bool, true, map}
use gpu_lab.Base.Text.{strip}
use gpu_lab.Base.Alls.{All-mapped, All-each_of, All-every}
use gpu_lab.Base.Collected.{Counted}
use gpu_lab.Training.Augment.Fallbacks.Honest.{AtMost}
use gpu_lab.Base.Format.{format}
use gpu_lab.Base.Random.{Random, ◌>>=◌, Returns}
use gpu_lab.Generator.Traps.{trap_specs}
use gpu_lab.Training.Augment.{Lookup, Addition, desc_of}
use gpu_lab.Training.Augment.Compose.{
  compose_q, compose, compose_prompt, key_of, was_seen, compose_loop, shuffled_pairs, compositions,
  pairs, composes,
}
use gpu_lab.Training.Augment.Answers.{
  Dolly, in_pool, plain_addition, general_answers, general, sums, arithmetic, trap_desc, asserted,
  asserted_trap, asserted_question,
}

-- A record that asks for two options that `composes` lets through.
abbrev pub IsComposed : Addition → Type 0
IsComposed a =
    (p : Lookup) × (o : Lookup) × (q : String) × (composes p o ≡ true) × (a ≡ compose p o q)

-- An ordinary answer: of Dolly, from a line of the pool, or of arithmetic, one of five questions.
abbrev pub IsGeneral : Addition → Type 0
IsGeneral a =
    (d : Dolly) × (in_pool d ≡ true)
    × (a
        ≡ plain_addition "general_answer" (some ("dolly-15k/" <> d.category)) (strip d.instruction)
            (strip d.response))

abbrev pub IsSum : Addition → Type 0
IsSum a =
    (x : ℕ) × (y : ℕ) × (i : ℕ) × (q : String × String) × (get_elem? (sums x y) i ≡ some q)
    × (a ≡ plain_addition "arithmetic" none q.0 q.1)

-- A trap whose invented flag the table explains, asked about as if it were there.
abbrev pub IsAsserted : Addition → Type 0
IsAsserted a =
    (l : Lookup) × (desc : String) × (second : Bool) × (trap_desc trap_specs l.tool l.flag
      ≡ some desc)
    × (a ≡ asserted_trap l (asserted_question l desc second))

length-general_answers : (ds : List Dolly) → length (general_answers ds) ≡ length ds
unfolding general_answers
length-general_answers [] = refl
length-general_answers (d ∷ ds) = omega (arith, length-general_answers ds)

general_answers-IsGeneral :
    (ds : List Dolly) → All (λ d. in_pool d ≡ true) ds → All IsGeneral (general_answers ds)
unfolding general_answers
general_answers-IsGeneral [] h = tt
general_answers-IsGeneral (d ∷ ds) h = ((d, h.0, refl), general_answers-IsGeneral ds h.1)

abbrev Asks : Lookup → Lookup → String → Type 0
Asks p o t = (q : String) × (compose_prompt p o t ≡ some q)

compose_q-Asks : (p o : Lookup) → All (Asks p o) compose_q
unfolding format desc_of string_eq nat_eq
compose_q-Asks p o = ((_, refl), ((_, refl), tt))

abbrev IsPair : Lookup × Lookup → Type 0
IsPair p = composes p.0 p.1 ≡ true

All-keep : {A : Type 0} (p : A → Bool) (xs : List A) → All (λ x. p x ≡ true) (keep p xs)
All-keep p [] = tt
All-keep p (x ∷ xs) = elim (Bool-cases (p x)) [
  | inl e ↦ rw e (e, All-keep p xs)
  | inr e ↦ rw e (All-keep p xs)
]

pairs-IsPair : (cli : List Lookup) → All IsPair (pairs cli)
unfolding pairs
pairs-IsPair cli =
    All-each_of {0, 0, 0, 0} IsPair {Q = λ _. Unit} (λ l. map (λ o. (l, o)) (keep (composes l) cli))
      cli
      (λ l u. All-mapped IsPair (λ o. (l, o)) (keep (composes l) cli) (All-keep (composes l) cli))
      (All-every (λ _. Unit) cli (λ _. tt))

-- An index below the length has an element.
get_elem?-below :
    {A : Type 0} (xs : List A) (i : ℕ) → i < length xs → (x : A) × (get_elem? xs i ≡ some x)
get_elem?-below [] i h = absurd (omega arith)
get_elem?-below (x ∷ xs) zero h = (x, refl)
get_elem?-below (x ∷ xs) (suc i) h = get_elem?-below xs i (omega arith)

pub asserted-returns :
    (traps : List Lookup) (n left : ℕ)
    → (0 < left → 0 < length traps)
    → (xs : List Addition) × (asserted traps n left ≡ some xs) × AtMost IsAsserted left xs
unfolding asserted
asserted-returns traps n zero some_trap = ([], refl, (omega arith, tt))
asserted-returns traps n (suc left) some_trap =
    let filled = some_trap (omega arith) in
    let (l, found) = get_elem?-below traps (n % length traps) (omega (arith, filled)) in
    let (xs, later, few) = asserted-returns traps (suc n) left (λ _. filled) in
    elim (Option-cases (trap_desc trap_specs l.tool l.flag)) [
      | inl e ↦ (xs, rw (asserted, found, e) later, (omega (arith, few.0), few.1))
      | inr (desc, e) ↦ (
        asserted_trap l (asserted_question l desc (n / length traps % 2 == 1)) ∷ xs,
        rw (asserted, found, e, later) refl,
        (omega (arith, few.0), ((l, desc, n / length traps % 2 == 1, e, refl), few.1)),
      )
    ]

module _ (r : Random) where
  pub general-Returns :
      (n : ℕ) (dolly : List Dolly) (s : r.State)
      → n ≤ length (keep in_pool dolly)
      → Returns (Counted IsGeneral n) (general r n dolly) s
  unfolding general
  general-Returns zero dolly s enough = ([], s, refl, (refl, tt))
  general-Returns (suc n) dolly s enough =
      let (drawn, got, many) = r.sample-returns (suc n) (keep in_pool dolly) s enough in
      let pooled =
        r.sample-from (λ d. in_pool d ≡ true) (suc n) (keep in_pool dolly) s drawn got
          (All-keep in_pool dolly) in
      (
        general_answers drawn.0,
        drawn.1,
        rw (general, ◌>>=◌, got) refl,
        (
          omega (arith, many, length-general_answers drawn.0),
          general_answers-IsGeneral drawn.0 pooled,
        ),
      )

  sum-returns :
      (x y : ℕ) (s : r.State)
      → (q : (String × String) × r.State) × (r.choice (sums x y) s ≡ some q)
        × ((i : ℕ) × (get_elem? (sums x y) i ≡ some q.0))
  unfolding sums
  sum-returns x y s =
      let (q, got) = r.choice-returns _ _ s in
      (
        q,
        got,
        r.choice-from (λ t. (i : ℕ) × (get_elem? (sums x y) i ≡ some t)) (sums x y) s q got
            ((0, refl), ((1, refl), ((2, refl), ((3, refl), ((4, refl), tt))))),
      )

  pub arithmetic-Returns : (n : ℕ) (s : r.State) → Returns (Counted IsSum n) (arithmetic r n) s
  unfolding arithmetic
  arithmetic-Returns zero s = ([], s, refl, (refl, tt))
  arithmetic-Returns (suc n) s =
      let (x, s1) = r.randint 13 97 s in
      let (y, s2) = r.randint 3 49 s1 in
      let (q, got, place) = sum-returns x y s2 in
      let (xs, t, run, many) = arithmetic-Returns n q.1 in
      (
        plain_addition "arithmetic" none q.0.0 q.0.1 ∷ xs,
        t,
        rw (arithmetic, ◌>>=◌, got, run) refl,
        (omega (arith, many.0), ((x, y, place.0, q.0, place.1, refl), many.1)),
      )

  question-returns : (s : r.State) → (q : String × r.State) × (r.choice compose_q s ≡ some q)
  question-returns s = r.choice-returns _ _ s

  compose_loop-Returns :
      (wanted made : ℕ) (seen : List (String × String × String)) (ps : List (Lookup × Lookup))
      (s : r.State)
      → All IsPair ps
      → Returns (AtMost IsComposed (wanted - made)) (compose_loop r wanted made seen ps) s
  unfolding compose_loop
  compose_loop-Returns wanted made seen [] s fit = ([], s, refl, (omega arith, tt))
  compose_loop-Returns wanted made seen ((p, o) ∷ ps) s fit = elim (Bool-cases (leb wanted made)) [
    | inl e ↦ rw (compose_loop, e) ([], s, refl, (omega arith, tt))
    | inr e ↦ elim (Bool-cases (was_seen seen (key_of (p, o)))) [
      | inl f ↦ rw (compose_loop, e, f) (compose_loop-Returns wanted made seen ps s fit.1)
      | inr f ↦
          let (t, got) = question-returns s in
          let (q, filled) = r.choice-from (Asks p o) compose_q s t got (compose_q-Asks p o) in
          let (xs, u, run, few) =
            compose_loop-Returns wanted (suc made) (key_of (p, o) ∷ seen) ps t.1 fit.1 in
          let room = not_leb→lt wanted made e in
          rw (compose_loop, e, f)
            (
              compose p o q ∷ xs,
              u,
              rw (◌>>=◌, got, filled, run) refl,
              (omega (arith, few.0, room), ((p, o, q, fit.0, refl), few.1)),
            )
    ]
  ]

  shuffled_pairs-Returns :
      (wanted : ℕ) (ps : List (Lookup × Lookup)) (s : r.State)
      → All IsPair ps
      → Returns (AtMost IsComposed wanted) (shuffled_pairs r wanted ps) s
  unfolding shuffled_pairs
  shuffled_pairs-Returns wanted [] s fit = ([], s, refl, (omega arith, tt))
  shuffled_pairs-Returns wanted (p ∷ ps) s fit =
      let (drawn, got, many) = r.sample-returns (length (p ∷ ps)) (p ∷ ps) s (omega arith) in
      let kept = r.sample-from IsPair (length (p ∷ ps)) (p ∷ ps) s drawn got fit in
      let (xs, t, run, few) = compose_loop-Returns wanted 0 [] drawn.0 drawn.1 kept in
      (xs, t, rw (◌>>=◌, got) run, (omega (arith, few.0), few.1))

  pub compositions-Returns :
      (wanted : ℕ) (cli : List Lookup) (s : r.State)
      → Returns (AtMost IsComposed wanted) (compositions r wanted cli) s
  unfolding compositions
  compositions-Returns wanted cli s =
      let ps = if leb 1 wanted then pairs cli else [] in
      shuffled_pairs-Returns wanted ps s
        (elim (Bool-cases (leb 1 wanted)) [ inl e ↦ rw e (pairs-IsPair cli) | inr e ↦ rw e tt ])
