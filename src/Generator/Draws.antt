-- ===== src/Generator/Draws.antt =====
-- Draws that take the first elements, for the tests.
use gpu_lab.Base.{ℕ, zero, suc, ◌≤◌, ◌≡◌, refl, subst, List, [], ◌∷◌, ◌++◌, take, drop, ap, length}
use gpu_lab.Base.{nat_eq, string_eq, Option, some, none, All, arith}
use mathlib.Core.List.Permᴰ
use mathlib.Core.List.{Permᴰ}
use gpu_lab.Base.Alls.{All-take}
use gpu_lab.Base.Random.{Random}
use gpu_lab.Generator.Help.{}

abbrev pub first_of : {A : Type 0} → List A → Unit {0} → Option (A × Unit {0})
first_of [] s = none
first_of (x ∷ xs) s = some (x, s)

pub first_of-from :
    {A : Type 0} (P : A → Type 0) (xs : List A) (s : Unit {0}) (r : A × Unit {0})
    → first_of xs s ≡ some r
    → All P xs
    → P r.0
first_of-from P [] s r e h = ground arith
first_of-from P (x ∷ xs) s r e h =
    let same : Path (Option _) (some (x, s)) (some r) = e in
    let pair : (x, s) ≡ r = cc same in subst (λ p. P p.0) pair h.0

pub length-take : {A : Type 0} (n : ℕ) (xs : List A) → n ≤ length xs → length (take n xs) ≡ n
length-take zero xs h = refl
length-take (suc n) [] h = absurd (omega arith)
length-take (suc n) (x ∷ xs) h = omega (arith, length-take n xs (omega arith))

pub taken-from :
    {A : Type 0} (P : A → Type 0) (n : ℕ) (xs : List A) (s : Unit {0}) (r : List A × Unit {0})
    → Path (Option (List A × Unit {0})) (some (take n xs, s)) (some r)
    → All P xs
    → All P r.0
taken-from P n xs s r e h =
    let pair : (take n xs, s) ≡ r = cc e in subst (λ p. All P p.0) pair (All-take P n xs h)

take-drop : {A : Type 0} (n : ℕ) (xs : List A) → xs ≡ take n xs ++ drop n xs
take-drop zero xs = refl
take-drop (suc n) [] = refl
take-drop (suc n) (x ∷ xs) = ap (λ ys. x ∷ ys) (take-drop n xs)

pub taken-part :
    {A : Type 0} (n : ℕ) (xs : List A) (s : Unit {0}) (r : List A × Unit {0})
    → Path (Option (List A × Unit {0})) (some (take n xs, s)) (some r)
    → (rest : List A) × Permᴰ xs (r.0 ++ rest)
taken-part n xs s r e =
    let pair : (take n xs, s) ≡ r = cc e in
    (
      drop n xs,
      subst (λ p. Permᴰ xs (p.0 ++ drop n xs)) pair
          (subst (Permᴰ xs) (take-drop n xs) (Permᴰ.refl xs)),
    )

abbrev pub first_draws : Random
first_draws = record {
  State = Unit {0};
  seeded = λ n. tt;
  choice = first_of;
  sample = λ n xs s. some (take n xs, s);
  shuffle = λ xs s. (xs, s);
  randint = λ a b s. (a, s);
  choice-returns = λ x xs s. ((x, s), refl);
  choice-from = first_of-from;
  sample-returns = λ n xs s le. ((take n xs, s), refl, length-take n xs le);
  sample-from = taken-from;
  sample-part = taken-part;
  randint-between = λ a b s h. (omega arith, h);
  shuffle-Perm = λ xs s. Permᴰ.refl xs;
}
