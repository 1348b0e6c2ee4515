-- ===== src/Base/Collected.antt =====
-- What a loop that draws and appends returns.
use Prim.Native.Nat.{ℕ, ◌+◌, ◌*◌}
use mathlib.Core.Path.{◌≡◌, refl, sym, subst}
use mathlib.Core.List.{List, [], ◌∷◌, ◌++◌}
use native.Mathlib.Omega.{arith}
use gpu_lab.Base.Lists.{All, length, length-append}
use gpu_lab.Base.Alls.{All-append}
use gpu_lab.Base.Random.{Draw, pure, ◌>>=◌, Returns, Returns-then, collect}

-- So many elements, all of which satisfy `P`.
abbrev pub Counted : {A : Type 0} → (A → Type 0) → ℕ → List A → Type 0
Counted P n xs = (length xs ≡ n) × All P xs

-- The sum of `g` over a list.
abbrev pub total : {A : Type 0} → (A → ℕ) → List A → ℕ
total g [] = 0
total g (x ∷ xs) = g x + total g xs

pub Returns-pure : {S A : Type 0} (P : A → Type 0) (a : A) (s : S) → P a → Returns P (pure a) s
Returns-pure P a s h = (a, s, refl, h)

module _ {S A B : Type 0} (P : B → Type 0) where
  -- A loop returns if each step does, and has the elements of the steps.
  pub Returns-collect :
      (f : A → Draw S (List B)) (g : A → ℕ) (xs : List A) (s : S)
      → All (λ x. (t : S) → Returns (Counted P (g x)) (f x) t) xs
      → Returns (Counted P (total g xs)) (collect f xs) s
  unfolding collect
  Returns-collect f g [] s h = ([], s, refl, (refl, tt))
  Returns-collect f g (x ∷ xs) s h =
      Returns-then (Counted P (g x)) (Counted P (total g (x ∷ xs))) (f x)
        (λ ys. collect f xs >>= (λ zs. pure (ys ++ zs))) s (h.0 s)
        (λ ys t p.
          Returns-then (Counted P (total g xs)) (Counted P (total g (x ∷ xs))) (collect f xs)
            (λ zs. pure (ys ++ zs)) t (Returns-collect f g xs t h.1)
            (λ zs u q.
              Returns-pure (Counted P (total g (x ∷ xs))) (ys ++ zs) u
                (omega (arith, length-append ys zs, p.0, q.0), All-append P ys zs p.1 q.1)))

pub total_ones : {A : Type 0} (xs : List A) → total (λ _. 1) xs ≡ length xs
total_ones [] = refl
total_ones (x ∷ xs) = omega (arith, total_ones xs)

pub total_twos : {A : Type 0} (xs : List A) → total (λ _. 2) xs ≡ 2 * length xs
total_twos [] = refl
total_twos (x ∷ xs) = omega (arith, total_twos xs)

-- The list is put together from a part for each element, in their order.
abbrev pub Pieces : {A B : Type 0} → (A → List B → Type 0) → List A → List B → Type 0
Pieces Q [] ys = ys ≡ []
Pieces {A} {B} Q (x ∷ xs) ys =
    (us : List B) × (vs : List B) × (ys ≡ us ++ vs) × Q x us × Pieces Q xs vs

-- A loop returns the parts that its steps return.
pub Returns-Pieces :
    {S A B : Type 0} (Q : A → List B → Type 0) (f : A → Draw S (List B)) (xs : List A) (s : S)
    → All (λ x. (t : S) → Returns (Q x) (f x) t) xs
    → Returns (Pieces Q xs) (collect f xs) s
unfolding collect
Returns-Pieces Q f [] s h = ([], s, refl, refl)
Returns-Pieces Q f (x ∷ xs) s h =
    let (us, t, run, q) = h.0 s in
    let (vs, u, later, qs) = Returns-Pieces Q f xs t h.1 in
    (us ++ vs, u, rw (◌>>=◌, run, later) refl, (us, vs, refl, q, qs))

pub Pieces-Counted :
    {A B : Type 0} (Q : A → List B → Type 0) (P : B → Type 0) (g : A → ℕ) (xs : List A)
    (ys : List B)
    → ((x : A) (us : List B) → Q x us → Counted P (g x) us)
    → Pieces Q xs ys
    → Counted P (total g xs) ys
Pieces-Counted Q P g [] ys each e = subst (Counted P 0) (sym e) (refl, tt)
Pieces-Counted Q P g (x ∷ xs) ys each (us, vs, e, q, qs) =
    let (n, all_us) = each x us q in
    let (m, all_vs) = Pieces-Counted Q P g xs vs each qs in
    subst (Counted P (total g (x ∷ xs))) (sym e)
      (omega (arith, length-append us vs, n, m), All-append P us vs all_us all_vs)
