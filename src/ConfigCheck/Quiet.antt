-- ===== src/ConfigCheck/Quiet.antt =====
-- Checks without a failure, and how they are put together.
use gpu_lab.Base.{
  ◌≡◌, refl, subst, ◌↔◌, false, Option, none, some, List, [], ◌++◌, any, any-append-false, arith,
}
use gpu_lab.ConfigCheck.{Line, is_fail}

-- No line is a failure.
unfoldable pub IsQuiet : List Line → Type 0
IsQuiet ls = any is_fail ls ≡ false

pub iff_trans {ℓ κ μ} : {A : Type ℓ} {B : Type κ} {C : Type μ} → A ↔ B → B ↔ C → A ↔ C
iff_trans f g = (λ a. g.0 (f.0 a), λ c. f.1 (g.1 c))

pub both_iff {ℓ κ μ ν} :
    {A : Type ℓ} {B : Type κ} {C : Type μ} {D : Type ν} → A ↔ B → C ↔ D → (A × C) ↔ (B × D)
both_iff f g = (λ h. (f.0 h.0, g.0 h.1), λ h. (f.1 h.0, g.1 h.1))

pub IsQuiet-both {κ μ} :
    (xs ys : List Line) {P : Type κ} {Q : Type μ}
    → IsQuiet xs ↔ P
    → IsQuiet ys ↔ Q
    → IsQuiet (xs ++ ys) ↔ (P × Q)
unfolding IsQuiet
IsQuiet-both xs ys f g = iff_trans (any-append-false is_fail xs ys) (both_iff f g)

-- A check of a value that may be missing.
pub IsQuiet-some {ℓ κ} :
    {A : Type ℓ} (o : Option A) (check : A → List Line) (P : A → Type κ)
    → ((a : A) → IsQuiet (check a) ↔ P a)
    → IsQuiet (elim o [ none ↦ [] | some a ↦ check a ]) ↔ ((a : A) → o ≡ some a → P a)
unfolding IsQuiet
IsQuiet-some none check P f = (λ h a e. ground (arith, e), λ h. refl)
IsQuiet-some (some b) check P f =
    (λ h a e. let same : b ≡ a = cc e in subst P same ((f b).0 h), λ h. (f b).1 (h b refl))
