-- ===== src/DatasetAudit/Passes.antt =====
-- What follows where a sequence of checks passes.
use gpu_lab.Base.{ℕ, ◌≡◌, refl, Bool, true, false}
use gpu_lab.Base.{List, [], ◌∷◌, arith, nat_eq, string_eq}
use gpu_lab.Base.{All}
use gpu_lab.DatasetAudit.Samples.{Verdict, pass, reject, crash}
use gpu_lab.DatasetAudit.Samples.{and_then, require, each}

pub and_then-pass : (v w : Verdict) → and_then v w ≡ pass → (v ≡ pass) × (w ≡ pass)
and_then-pass pass w h = (refl, h)
and_then-pass (reject n) w h = ground arith
and_then-pass crash w h = ground arith

pub require-pass : (n : ℕ) (b : Bool) → require n b ≡ pass → b ≡ true
require-pass n true h = refl
require-pass n false h = ground arith

pub each-pass {ℓ} :
    {A : Type ℓ} (f : A → Verdict) (xs : List A) → each f xs ≡ pass → All (λ x. f x ≡ pass) xs
unfolding each
each-pass f [] h = tt
each-pass f (x ∷ xs) h =
    let both = and_then-pass (f x) (each f xs) h in (both.0, each-pass f xs both.1)

pub All-map {ℓ κ μ} :
    {A : Type ℓ} {P : A → Type κ} {Q : A → Type μ} (xs : List A)
    → ((x : A) → P x → Q x)
    → All P xs
    → All Q xs
All-map [] f h = tt
All-map (x ∷ xs) f h = (f x h.0, All-map xs f h.1)
