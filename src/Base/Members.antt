-- ===== src/Base/Members.antt =====
-- What holds of the elements that `in` finds in a list.
use mathlib.Core.Path.{◌≡◌, sym, subst}
use mathlib.Core.Logic.{inl, inr}
use mathlib.Core.Bool.{Bool, true, false}
use mathlib.Core.List.{List, [], ◌∷◌, map}
use native.Mathlib.Omega.{arith}
use gpu_lab.Base.Tests.{Bool-cases}
use gpu_lab.Base.Equality.{Eq, ◌==◌, ==_refl, eq_of_==}
use gpu_lab.Base.Lists.{All, all, any, contains}
use gpu_lab.Base.Alls.{All-imp}

module _ {ℓ} {A : Type ℓ} ⦃e : Eq A⦄ where
  pub All-contains : (xs : List A) → All (λ x. contains xs x ≡ true) xs
  All-contains [] = tt
  All-contains (x ∷ xs) = (
    let same = ==_refl x in ground (arith, same),
    All-imp (λ y. contains xs y ≡ true) xs (λ y h. ground (arith, h)) (All-contains xs),
  )

  pub All-at {κ} : (P : A → Type κ) (xs : List A) (x : A) → All P xs → contains xs x ≡ true → P x
  All-at P [] x h k = absurd (ground (arith, k))
  All-at P (y ∷ ys) x h k = elim (Bool-cases (x == y)) [
    | inl e ↦ subst P (sym (eq_of_== x y e)) h.0
    | inr e ↦ All-at P ys x h.1 (ground (arith, k, e))
  ]

  pub All-of_contains {κ} :
      (P : A → Type κ) (xs : List A) → ((x : A) → contains xs x ≡ true → P x) → All P xs
  All-of_contains P xs f = All-imp (λ x. contains xs x ≡ true) xs f (All-contains xs)

  All-all : (p : A → Bool) (xs : List A) → all p xs ≡ true → All (λ x. p x ≡ true) xs
  All-all p [] h = tt
  All-all p (x ∷ xs) h = (ground (arith, h), All-all p xs (ground (arith, h)))

  All-any : (p : A → Bool) (xs : List A) → any p xs ≡ false → All (λ x. p x ≡ false) xs
  All-any p [] h = tt
  All-any p (x ∷ xs) h = (ground (arith, h), All-any p xs (ground (arith, h)))

  pub all-at :
      (p : A → Bool) (xs : List A) (x : A) → all p xs ≡ true → contains xs x ≡ true → p x ≡ true
  all-at p xs x h m = All-at (λ y. p y ≡ true) xs x (All-all p xs h) m

  pub any-at :
      (p : A → Bool) (xs : List A) (x : A) → any p xs ≡ false → contains xs x ≡ true → p x ≡ false
  any-at p xs x h m = All-at (λ y. p y ≡ false) xs x (All-any p xs h) m

  pub any-witness :
      (p : A → Bool) (xs : List A)
      → any p xs ≡ true
      → (x : A) × (contains xs x ≡ true) × (p x ≡ true)
  any-witness p [] h = absurd (ground (arith, h))
  any-witness p (x ∷ xs) h = elim (Bool-cases (p x)) [
    | inl e ↦ let same = ==_refl x in (x, ground (arith, same), e)
    | inr e ↦
        let (y, here, g) = any-witness p xs (ground (arith, h, e)) in (y, ground (arith, here), g)
  ]

module _ {ℓ κ} {A : Type ℓ} {B : Type κ} ⦃e : Eq A⦄ ⦃d : Eq B⦄ where
  All-unmapped {μ} :
      (P : B → Type μ) (f : A → B) (xs : List A) → All P (map f xs) → All (λ x. P (f x)) xs
  All-unmapped P f [] h = tt
  All-unmapped P f (x ∷ xs) h = (h.0, All-unmapped P f xs h.1)

  pub contains-map :
      (f : A → B) (xs : List A) (x : A) → contains xs x ≡ true → contains (map f xs) (f x) ≡ true
  contains-map f xs x h =
      All-at (λ y. contains (map f xs) (f y) ≡ true) xs x
        (All-unmapped (λ z. contains (map f xs) z ≡ true) f xs (All-contains (map f xs))) h
