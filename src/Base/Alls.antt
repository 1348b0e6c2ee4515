-- ===== src/Base/Alls.antt =====
-- What holds of every element of a list that is put together from others.
use mathlib.Core.List.{List, [], ◌∷◌, map, ◌++◌}
use Prim.Native.Nat.{ℕ, zero, suc}
use gpu_lab.Base.Lists.{All, take}
use gpu_lab.Base.Pattern.{each_of}

module _ {ℓ κ} {A : Type ℓ} (P : A → Type κ) where
  pub All-append : (xs ys : List A) → All P xs → All P ys → All P (xs ++ ys)
  All-append [] ys p q = q
  All-append (x ∷ xs) ys p q = (p.0, All-append xs ys p.1 q)

  pub All-imp {μ} : {Q : A → Type μ} (xs : List A) → ((x : A) → P x → Q x) → All P xs → All Q xs
  All-imp [] f h = tt
  All-imp (x ∷ xs) f h = (f x h.0, All-imp xs f h.1)

  pub All-every : (xs : List A) → ((x : A) → P x) → All P xs
  All-every [] f = tt
  All-every (x ∷ xs) f = (f x, All-every xs f)

  pub All-take : (n : ℕ) (xs : List A) → All P xs → All P (take n xs)
  All-take zero xs h = tt
  All-take (suc n) [] h = tt
  All-take (suc n) (x ∷ xs) h = (h.0, All-take n xs h.1)

module _ {ℓ κ μ} {A : Type ℓ} {B : Type κ} (P : B → Type μ) where
  pub All-mapped : (f : A → B) (xs : List A) → All (λ x. P (f x)) xs → All P (map f xs)
  All-mapped f [] h = tt
  All-mapped f (x ∷ xs) h = (h.0, All-mapped f xs h.1)

  pub All-each_of {ν} :
      {Q : A → Type ν} (f : A → List B) (xs : List A)
      → ((x : A) → Q x → All P (f x))
      → All Q xs
      → All P (each_of f xs)
  unfolding each_of
  All-each_of f [] g h = tt
  All-each_of f (x ∷ xs) g h = All-append P (f x) (each_of f xs) (g x h.0) (All-each_of f xs g h.1)
