-- ===== src/Base/Runs.antt =====
-- The run of elements at the end of a list that pass a test, and a counter that keeps its length.
use Prim.Native.Nat.{ℕ, zero, suc, ◌+◌, ◌-◌, ◌≤◌}
use mathlib.Core.Path.{◌≡◌, refl, ap, ◌∙◌}
use mathlib.Core.Logic.{◌↔◌}
use mathlib.Core.Bool.{Bool, true, ◌&&◌}
use mathlib.Core.List.{List, [], ◌∷◌, ◌++◌}
use native.Mathlib.Omega.{arith}
use gpu_lab.Base.Tests.{if◌then◌else◌}
use gpu_lab.Base.Lists.{length, drop, last_n, all, length-append}

module _ {ℓ} {A : Type ℓ} where
  drop-append_of_le : (n : ℕ) (xs ys : List A) → n ≤ length xs → drop n (xs ++ ys) ≡ drop n xs ++ ys
  drop-append_of_le zero xs ys h = refl
  drop-append_of_le (suc n) [] ys h = absurd (omega arith)
  drop-append_of_le (suc n) (x ∷ xs) ys h = drop-append_of_le n xs ys (omega arith)

  drop-length_self : (xs : List A) → drop (length xs) xs ≡ []
  drop-length_self [] = refl
  drop-length_self (x ∷ xs) = drop-length_self xs

  all-snoc : (f : A → Bool) (xs : List A) (x : A) → all f (xs ++ x ∷ []) ≡ (all f xs && f x)
  all-snoc f [] x = ground arith
  all-snoc f (y ∷ xs) x = ground (arith, all-snoc f xs x)

  last_n-snoc :
      (n : ℕ) (xs : List A) (x : A)
      → n ≤ length xs
      → last_n (suc n) (xs ++ x ∷ []) ≡ last_n n xs ++ x ∷ []
  last_n-snoc n xs x h =
      let e : length (xs ++ x ∷ []) - suc n ≡ length xs - n =
        omega (arith, length-append xs (x ∷ [])) in
      rw e (drop-append_of_le (length xs - n) xs (x ∷ []) (omega arith))

  -- The last `n` elements exist, and all pass.
  abbrev pub EndsIn : (A → Bool) → ℕ → List A → Type 0
  EndsIn f n xs = (n ≤ length xs) × (all f (last_n n xs) ≡ true)

  -- `b` is the length of the longest such run.
  abbrev pub Counts : (A → Bool) → List A → ℕ → Type 0
  Counts f xs b = (n : ℕ) → (n ≤ b) ↔ EndsIn f n xs

  all-last_n_zero : (f : A → Bool) (xs : List A) → all f (last_n 0 xs) ≡ true
  all-last_n_zero f xs =
      let e : length xs - 0 ≡ length xs = omega arith in rw (e, drop-length_self xs)

  all-last_n-snoc :
      (f : A → Bool) (n : ℕ) (xs : List A) (x : A)
      → n ≤ length xs
      → all f (last_n (suc n) (xs ++ x ∷ [])) ≡ (all f (last_n n xs) && f x)
  all-last_n-snoc f n xs x h = ap (all f) (last_n-snoc n xs x h) ∙ all-snoc f (last_n n xs) x

  pub Counts-nil : (f : A → Bool) → Counts f [] 0
  Counts-nil f zero = (λ h. (omega arith, all-last_n_zero f []), λ h. omega arith)
  Counts-nil f (suc n) = (λ h. absurd (omega arith), λ h. absurd (omega arith))

  pub Counts-snoc :
      (f : A → Bool) (xs : List A) (b : ℕ) (x : A)
      → Counts f xs b
      → Counts f (xs ++ x ∷ []) (if f x then b + 1 else 0)
  Counts-snoc f xs b x h zero =
      (λ _. (omega arith, all-last_n_zero f (xs ++ x ∷ [])), λ _. omega arith)
  Counts-snoc f xs b x h (suc n) = (
    λ le.
        let le_b : n ≤ b = ground arith in
        let run = (h n).0 le_b in
        (
          omega (arith, length-append xs (x ∷ [])),
          rw (all-last_n-snoc f n xs x run.0) (ground arith),
        ),
    λ run.
        let short : n ≤ length xs = omega (arith, length-append xs (x ∷ []), run.0) in
        let both = rw (all-last_n-snoc f n xs x short) at (run.1) in ground (arith, (h n).1),
  )
