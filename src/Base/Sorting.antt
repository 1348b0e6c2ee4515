-- ===== src/Base/Sorting.antt =====
-- sorted() on texts, by code points, a prefix first; and set().
use Prim.Native.Nat.{suc, ◌+◌}
use Prim.Native.Char.{code}
use Prim.Native.String.{String, [], ◌∷◌}
use mathlib.Core.Path.{◌≡◌, refl, sym, subst, ap}
use mathlib.Core.Logic.{inl, inr}
use mathlib.Core.Bool.{Bool, true, false, ◌&&◌, ◌||◌}
use mathlib.Core.List.{List}
use native.Mathlib.Omega.{arith}
use gpu_lab.Base.Tests.{Bool-cases, ltb, if◌then◌else◌}
use gpu_lab.Base.Equality.{◌==◌, nat_eq, string_eq, eq_of_==}
use gpu_lab.Base.Lists.{length, contains, count_if}

-- s <= t
unfoldable pub str_le : String → String → Bool
str_le [] t = true
str_le (c ∷ s) [] = false
str_le (c ∷ s) (d ∷ t) = ltb (code c) (code d) || (code c == code d && str_le s t)

place : String → List String → List String
place s List.[] = List.◌∷◌ s List.[]
place s (List.◌∷◌ t ts) =
    let rest = place s ts in if str_le s t then List.◌∷◌ s (List.◌∷◌ t ts) else List.◌∷◌ t rest

unfoldable pub sorted : List String → List String
unfolding place
sorted List.[] = List.[]
sorted (List.◌∷◌ s ts) = place s (sorted ts)

length-place : (s : String) (ts : List String) → length (place s ts) ≡ suc (length ts)
unfolding place
length-place s List.[] = refl
length-place s (List.◌∷◌ t ts) = ground (arith, length-place s ts)

pub length-sorted : (ts : List String) → length (sorted ts) ≡ length ts
unfolding sorted
length-sorted List.[] = refl
length-sorted (List.◌∷◌ t ts) = omega (arith, length-place t (sorted ts), length-sorted ts)

contains-place :
    (s : String) (ts : List String) (a : String)
    → contains (place s ts) a ≡ (a == s || contains ts a)
unfolding place
contains-place s List.[] a = refl
contains-place s (List.◌∷◌ t ts) a = ground (arith, contains-place s ts a)

pub contains-sorted : (ts : List String) (a : String) → contains (sorted ts) a ≡ contains ts a
unfolding sorted
contains-sorted List.[] a = refl
contains-sorted (List.◌∷◌ t ts) a =
    ground (arith, contains-place t (sorted ts) a, contains-sorted ts a)

-- set(xs): the elements without repetitions.
unfoldable pub distinct : List String → List String
distinct List.[] = List.[]
distinct (List.◌∷◌ x xs) =
    let rest = distinct xs in if contains rest x then rest else List.◌∷◌ x rest

pub contains-distinct : (xs : List String) (f : String) → contains (distinct xs) f ≡ contains xs f
unfolding distinct
contains-distinct List.[] f = refl
contains-distinct (List.◌∷◌ x xs) f = elim (Bool-cases (contains (distinct xs) x)) [
  | inr new ↦ rw (distinct, new) (ap (λ b. f == x || b) (contains-distinct xs f))
  | inl old ↦ elim (Bool-cases (f == x)) [
    | inl same ↦
        let here : contains (distinct xs) f ≡ true =
          subst (λ y. contains (distinct xs) y ≡ true) (sym (eq_of_== f x same)) old in
        rw (distinct, old, same) here
    | inr apart ↦ rw (distinct, old, apart) (contains-distinct xs f)
  ]
]

count_if-place :
    (p : String → Bool) (s : String) (ts : List String)
    → count_if p (place s ts) ≡ (if p s then 1 else 0) + count_if p ts
unfolding place
count_if-place p s List.[] = refl
count_if-place p s (List.◌∷◌ t ts) = ground (arith, count_if-place p s ts)

pub count_if-sorted :
    (p : String → Bool) (ts : List String) → count_if p (sorted ts) ≡ count_if p ts
unfolding sorted
count_if-sorted p List.[] = refl
count_if-sorted p (List.◌∷◌ t ts) =
    omega (arith, count_if-place p t (sorted ts), count_if-sorted p ts)
