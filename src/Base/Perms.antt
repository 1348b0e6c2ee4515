-- ===== src/Base/Perms.antt =====
-- What a permutation of a list keeps.
use mathlib.Core.Path.{◌≡◌, refl, subst, ◌∙◌}
use mathlib.Core.Bool.{Bool, true}
use mathlib.Core.List.{List, [], ◌∷◌, map, Permᴰ}
use native.Mathlib.Omega.{arith}
use gpu_lab.Base.Lists.{All, length, count_if}

module _ {ℓ} {A : Type ℓ} where
  pub All-Perm {κ} : (P : A → Type κ) {xs ys : List A} → Permᴰ xs ys → All P xs → All P ys
  All-Perm P Permᴰ.nil h = tt
  All-Perm P (Permᴰ.cons e p) h = (subst P e h.0, All-Perm P p h.1)
  All-Perm P (Permᴰ.swap e f) h = (subst P f h.1.0, (subst P e h.0, h.1.1))
  All-Perm P (Permᴰ.trans p q) h = All-Perm P q (All-Perm P p h)

  pub count_if-Perm : (p : A → Bool) {xs ys : List A} → Permᴰ xs ys → count_if p ys ≡ count_if p xs
  count_if-Perm p Permᴰ.nil = refl
  count_if-Perm p (Permᴰ.cons e q) = rw e (omega (arith, count_if-Perm p q))
  count_if-Perm p (Permᴰ.swap e f) = rw (e, f) (omega arith)
  count_if-Perm p (Permᴰ.trans q r) = count_if-Perm p r ∙ count_if-Perm p q

  pub length-Perm : {xs ys : List A} → Permᴰ xs ys → length ys ≡ length xs
  length-Perm Permᴰ.nil = refl
  length-Perm (Permᴰ.cons e q) = omega (arith, length-Perm q)
  length-Perm (Permᴰ.swap e f) = refl
  length-Perm (Permᴰ.trans q r) = length-Perm r ∙ length-Perm q

  pub count_if-all :
      (p : A → Bool) (xs : List A) → All (λ x. p x ≡ true) xs → count_if p xs ≡ length xs
  count_if-all p [] h = refl
  count_if-all p (x ∷ xs) h = let here = h.0 in ground (arith, count_if-all p xs h.1)

  pub count_if-same :
      (p q : A → Bool) (xs : List A) → All (λ x. p x ≡ q x) xs → count_if p xs ≡ count_if q xs
  count_if-same p q [] h = refl
  count_if-same p q (x ∷ xs) h = let here = h.0 in ground (arith, count_if-same p q xs h.1)

pub count_if-map {ℓ κ} :
    {A : Type ℓ} {B : Type κ} (p : B → Bool) (f : A → B) (xs : List A)
    → count_if p (map f xs) ≡ count_if (λ x. p (f x)) xs
count_if-map p f [] = refl
count_if-map p f (x ∷ xs) = omega (arith, count_if-map p f xs)
