-- ===== src/Base/Pattern.antt =====
-- Patterns of Python's `re` on texts of ASCII characters, as backtracking tries them: each match
-- with what follows it, the preferred one first.
use Prim.Native.Nat.{ℕ, zero, suc, ◌-◌}
use Prim.Native.Char.{Char}
use Prim.Native.String.{String, [], ◌∷◌, ◌++◌ as ◌<>◌}
use mathlib.Core.Bool.{Bool, false, not, ◌||◌}
use mathlib.Core.Option.{Option, none, some}
use mathlib.Core.List.{List, map, ◌++◌}
use gpu_lab.Base.Tests.{if◌then◌else◌}
use gpu_lab.Base.Equality.{◌==◌, nat_eq, string_eq}
use gpu_lab.Base.Text.{chars}

-- A class of characters `p{lo,hi}`, where `none` is no upper bound, one pattern after another, and
-- one or, failing that, another. `(...)?` is `either p nothing`.
pub data Pattern : Type 0 where
  nothing : Pattern
  class : (Char → Bool) → ℕ → Option ℕ → Pattern
  both : Pattern → Pattern → Pattern
  either : Pattern → Pattern → Pattern

abbrev pub Match : Type 0
Match = String × String

unfoldable pub each_of {ℓ κ} : {A : Type ℓ} {B : Type κ} → (A → List B) → List A → List B
each_of f List.[] = List.[]
each_of f (List.◌∷◌ x xs) = f x ++ each_of f xs

abbrev pub is_zero : Option ℕ → Bool
is_zero none = false
is_zero (some n) = n == 0

abbrev pub one_less : Option ℕ → Option ℕ
one_less none = none
one_less (some n) = some (n - 1)

-- As many characters of the class as there are, then fewer.
unfoldable pub class_matches : (Char → Bool) → ℕ → Option ℕ → String → List Match
class_matches p lo hi [] = if lo == 0 then List.◌∷◌ ([], []) List.[] else List.[]
class_matches p lo hi (c ∷ s) =
    let longer = map (λ m. (c ∷ m.0, m.1)) (class_matches p (lo - 1) (one_less hi) s) in
    let none_taken = if lo == 0 then List.◌∷◌ ([], c ∷ s) List.[] else List.[] in
    if is_zero hi || not (p c) then none_taken else longer ++ none_taken

unfoldable pub matches : Pattern → String → List Match
unfolding class_matches each_of
matches nothing s = List.◌∷◌ ([], s) List.[]
matches (class p lo hi) s = class_matches p lo hi s
matches (both p q) s = each_of (λ m. map (λ n. (m.0 <> n.0, n.1)) (matches q m.1)) (matches p s)
matches (either p q) s = matches p s ++ matches q s

abbrev pub first {ℓ} : {A : Type ℓ} → List A → Option A
first List.[] = none
first (List.◌∷◌ x _) = some x

-- re.findall(p, s), where the first `skip` characters belong to the match before.
unfoldable pub find_from : Pattern → ℕ → String → List String
unfolding matches
find_from p skip [] = elim (first (matches p [])) [ none ↦ List.[] | some m ↦ List.◌∷◌ m.0 List.[] ]
find_from p (suc skip) (c ∷ s) = find_from p skip s
find_from p zero (c ∷ s) =
    let here = matches p (c ∷ s) in
    let apart = find_from p 0 s in
    elim (first here) [ none ↦ apart | some m ↦ List.◌∷◌ m.0 (find_from p (chars m.0 - 1) s) ]

-- re.findall(p, s), for a pattern that does not match the empty text.
unfoldable pub find_all : Pattern → String → List String
unfolding find_from
find_all p s = find_from p 0 s
