-- ===== src/Base/Dict.antt =====
-- Python's dict: an association list in insertion order. A write to a key that is there keeps
-- the key's place.
use mathlib.Core.Path.{◌≡◌, refl}
use mathlib.Core.Logic.{◌↔◌}
use mathlib.Core.Bool.{Bool, true, false, ◌||◌}
use mathlib.Core.Option.{Option, none, some}
use mathlib.Core.List.{List, [], ◌∷◌}
use native.Mathlib.Omega.{arith}
use gpu_lab.Base.Tests.{if◌then◌else◌}
use gpu_lab.Base.Equality.{Eq, ◌==◌}
use gpu_lab.Base.Lists.{contains}

abbrev pub Dict {ℓ κ} : Type ℓ → Type κ → Type (ℓ ⊔ κ)
Dict K V = List (K × V)

module _ {ℓ κ} {K : Type ℓ} {V : Type κ} ⦃e : Eq K⦄ where
  -- d.get(k)
  unfoldable pub lookup : K → Dict K V → Option V
  lookup k [] = none
  lookup k ((j, v) ∷ d) = if k == j then some v else lookup k d

  -- d[k] = v
  unfoldable pub insert : K → V → Dict K V → Dict K V
  insert k v [] = (k, v) ∷ []
  insert k v ((j, w) ∷ d) = if k == j then (j, v) ∷ d else (j, w) ∷ insert k v d

  -- list(d)
  abbrev pub keys : Dict K V → List K
  keys [] = []
  keys ((k, _) ∷ d) = k ∷ keys d

  -- k in d
  abbrev pub has_key : K → Dict K V → Bool
  has_key k d = contains (keys d) k

  -- No key stands twice, as in every dict that writes have built.
  abbrev pub NodupKeys : Dict K V → Type 0
  NodupKeys [] = Unit
  NodupKeys ((k, _) ∷ d) = (has_key k d ≡ false) × NodupKeys d

  pub lookup-insert :
      (j k : K) (v : V) (d : Dict K V)
      → lookup j (insert k v d) ≡ (if j == k then some v else lookup j d)
  unfolding lookup insert
  lookup-insert j k v [] = ground arith
  lookup-insert j k v (_ ∷ d) = ground (arith, lookup-insert j k v d)

  pub has_key-insert :
      (j k : K) (v : V) (d : Dict K V) → has_key j (insert k v d) ≡ (j == k || has_key j d)
  unfolding insert
  has_key-insert j k v [] = ground arith
  has_key-insert j k v (_ ∷ d) = ground (arith, has_key-insert j k v d)

  pub insert-NodupKeys : (k : K) (v : V) (d : Dict K V) → NodupKeys d → NodupKeys (insert k v d)
  unfolding insert
  insert-NodupKeys k v [] u = (refl, tt)
  insert-NodupKeys k v ((j, w) ∷ d) u =
      ground (arith, insert-NodupKeys k v d u.1, has_key-insert j k v d)

  pub has_key-of_lookup : (k : K) (v : V) (d : Dict K V) → lookup k d ≡ some v → has_key k d ≡ true
  unfolding lookup
  has_key-of_lookup k v [] h = ground arith
  has_key-of_lookup k v (_ ∷ d) h = ground (arith, has_key-of_lookup k v d)

  pub has_key-lookup : (k : K) (d : Dict K V) → (has_key k d ≡ false) ↔ (lookup k d ≡ none)
  unfolding lookup
  has_key-lookup k [] = (λ h. refl, λ h. refl)
  has_key-lookup k (_ ∷ d) = ground (arith, has_key-lookup k d)
