-- ===== src/Base/Random.antt =====
-- What the program asks of Python's `random`: the calls that it makes and what their documentation
-- says of them. A draw takes the state of the generator and returns the next one; `none` is an
-- exception.
use Prim.Native.Nat.{ℕ, ◌≤◌}
use mathlib.Core.Path.{◌≡◌}
use mathlib.Core.Option.{Option, none, some}
use mathlib.Core.List.{List, [], ◌∷◌, ◌++◌, Permᴰ}
use gpu_lab.Base.Lists.{All, length}

pub record Random : Type 1 where
  pub State : Type 0
  -- random.seed(n), random.Random(n)
  pub seeded : ℕ → State
  -- random.choice(xs), random.sample(xs, n), random.shuffle(xs) and random.randint(a, b)
  pub choice : {A : Type 0} → List A → State → Option (A × State)
  pub sample : {A : Type 0} → ℕ → List A → State → Option (List A × State)
  pub shuffle : {A : Type 0} → List A → State → List A × State
  pub randint : ℕ → ℕ → State → ℕ × State
  -- A choice from a list that is not empty is one of its elements.
  pub choice-returns :
      {A : Type 0} (x : A) (xs : List A) (s : State)
      → (r : A × State) × (choice (x ∷ xs) s ≡ some r)
  pub choice-from :
      {A : Type 0} (P : A → Type 0) (xs : List A) (s : State) (r : A × State)
      → choice xs s ≡ some r
      → All P xs
      → P r.0
  -- A sample of as many elements as there are, or of fewer, has that number of them.
  pub sample-returns :
      {A : Type 0} (n : ℕ) (xs : List A) (s : State)
      → n ≤ length xs
      → (r : List A × State) × (sample n xs s ≡ some r) × (length r.0 ≡ n)
  pub sample-from :
      {A : Type 0} (P : A → Type 0) (n : ℕ) (xs : List A) (s : State) (r : List A × State)
      → sample n xs s ≡ some r
      → All P xs
      → All P r.0
  -- A sample takes its elements out of the list.
  pub sample-part :
      {A : Type 0} (n : ℕ) (xs : List A) (s : State) (r : List A × State)
      → sample n xs s ≡ some r
      → (rest : List A) × Permᴰ xs (r.0 ++ rest)
  -- A number drawn between two bounds is between them.
  pub randint-between :
      (a b : ℕ) (s : State) → a ≤ b → (a ≤ (randint a b s).0) × ((randint a b s).0 ≤ b)
  -- A shuffle keeps every element.
  pub shuffle-Perm : {A : Type 0} (xs : List A) (s : State) → Permᴰ xs (shuffle xs s).0

-- Code that draws, one step after the other; it fails where a step does.
abbrev pub Draw : Type 0 → Type 0 → Type 0
Draw S A = S → Option (A × S)

module _ {S A : Type 0} where
  abbrev pub pure : A → Draw S A
  pure a s = some (a, s)

  abbrev pub or_raise : Option A → Draw S A
  or_raise none s = none
  or_raise (some a) s = some (a, s)

infixl 5 ◌>>=◌
abbrev pub ◌>>=◌ : {S A B : Type 0} → Draw S A → (A → Draw S B) → Draw S B
◌>>=◌ m f s = elim (m s) [ none ↦ none | some (a, t) ↦ f a t ]

-- The draw returns, and what it returns satisfies `P`.
abbrev pub Returns : {S A : Type 0} → (A → Type 0) → Draw S A → S → Type 0
Returns {S} {A} P m s = (a : A) × (t : S) × (m s ≡ some (a, t)) × P a

module _ {S : Type 0} where
  pub Returns-then :
      {A B : Type 0} (P : A → Type 0) (Q : B → Type 0) (m : Draw S A) (f : A → Draw S B) (s : S)
      → Returns P m s
      → ((a : A) (t : S) → P a → Returns Q (f a) t)
      → Returns Q (m >>= f) s
  Returns-then P Q m f s (a, t, e, p) next =
      let (b, u, g, q) = next a t p in (b, u, rw (◌>>=◌, e) g, q)

-- A loop that appends what each step gives.
unfoldable pub collect : {S A B : Type 0} → (A → Draw S (List B)) → List A → Draw S (List B)
collect f [] = pure []
collect f (x ∷ xs) = do ys ← f x; zs ← collect f xs; pure (ys ++ zs)
