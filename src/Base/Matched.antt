-- ===== src/Base/Matched.antt =====
-- Where the matches of a pattern stand in the text.
use Prim.Native.Nat.{ℕ, zero, suc, ◌-◌}
use Prim.Native.Char.{Char}
use Prim.Native.String.{String, [], ◌∷◌, ◌++◌}
use mathlib.Core.Path.{◌≡◌, subst, ap, ◌∙◌}
use mathlib.Core.Logic.{inl, inr}
use mathlib.Core.Bool.{Bool, true, false, not, ◌||◌}
use mathlib.Core.Option.{Option, some}
use mathlib.Core.List.{List, map}
use native.Mathlib.Omega.{arith}
use text.Mathlib.TextLemmas.{nil-append, cons-append, append_assoc}
use gpu_lab.Base.Tests.{Bool-cases, Option-cases, if◌then◌else◌}
use gpu_lab.Base.Equality.{◌==◌, nat_eq, string_eq}
use gpu_lab.Base.Lists.{All}
use gpu_lab.Base.Text.{chars}
use gpu_lab.Base.Alls.{All-append, All-imp, All-mapped, All-each_of}
use gpu_lab.Base.Pattern.{
  Pattern, nothing, class, both, either, Match, first, is_zero, one_less, class_matches, matches,
  find_from, find_all,
}
use gpu_lab.Base.Parts.{IsPart, IsPart-cons, IsPart-prefix}

-- A match and what follows it make up the text.
abbrev pub Splits : String → Match → Type 0
Splits s m = m.0 ++ m.1 ≡ s

none_taken-Splits :
    (b : Bool) (s : String) → All (Splits s) (if b then List.◌∷◌ ([], s) List.[] else List.[])
none_taken-Splits true s = (nil-append s, tt)
none_taken-Splits false s = tt

class_matches-Splits :
    (p : Char → Bool) (lo : ℕ) (hi : Option ℕ) (s : String)
    → All (Splits s) (class_matches p lo hi s)
unfolding class_matches
class_matches-Splits p lo hi [] = none_taken-Splits (lo == 0) []
class_matches-Splits p lo hi (c ∷ s) =
    let none_taken = none_taken-Splits (lo == 0) (c ∷ s) in
    let rest = class_matches p (lo - 1) (one_less hi) s in
    let longer : All (Splits (c ∷ s)) (map (λ m. (c ∷ m.0, m.1)) rest) =
      All-mapped (Splits (c ∷ s)) (λ m. (c ∷ m.0, m.1)) rest
        (All-imp (Splits s) rest (λ m e. cons-append c m.0 m.1 ∙ ap (λ x. c ∷ x) e)
          (class_matches-Splits p (lo - 1) (one_less hi) s)) in
    elim (Bool-cases (is_zero hi || not (p c))) [
      | inl e ↦ rw e none_taken
      | inr e ↦ rw e (All-append (Splits (c ∷ s)) _ _ longer none_taken)
    ]

pub matches-Splits : (p : Pattern) (s : String) → All (Splits s) (matches p s)
unfolding matches
matches-Splits nothing s = (nil-append s, tt)
matches-Splits (class p lo hi) s = class_matches-Splits p lo hi s
matches-Splits (both p q) s =
    All-each_of (Splits s) (λ m. map (λ n. (m.0 ++ n.0, n.1)) (matches q m.1)) (matches p s)
      (λ m e.
        All-mapped (Splits s) (λ n. (m.0 ++ n.0, n.1)) (matches q m.1)
          (All-imp (Splits m.1) (matches q m.1)
            (λ n f. append_assoc m.0 n.0 n.1 ∙ ap (λ x. m.0 ++ x) f ∙ e) (matches-Splits q m.1)))
      (matches-Splits p s)
matches-Splits (either p q) s =
    All-append (Splits s) (matches p s) (matches q s) (matches-Splits p s) (matches-Splits q s)

first-All {ℓ κ} :
    {A : Type ℓ} (P : A → Type κ) (xs : List A) (x : A) → first xs ≡ some x → All P xs → P x
first-All P List.[] x e h = ground arith
first-All P (List.◌∷◌ y ys) x e h = let same : y ≡ x = cc e in subst P same h.0

find_from-IsPart :
    (p : Pattern) (skip : ℕ) (s : String) → All (λ t. IsPart t s) (find_from p skip s)
unfolding find_from
find_from-IsPart p skip [] = elim (Option-cases (first (matches p []))) [
  | inl e ↦ rw (find_from, e) tt
  | inr (m, e) ↦
      rw (find_from, e)
        (
          IsPart-prefix m.0 m.1 [] (first-All (Splits []) (matches p []) m e (matches-Splits p [])),
          tt,
        )
]
find_from-IsPart p (suc skip) (c ∷ s) =
    All-imp (λ t. IsPart t s) (find_from p skip s) (λ t h. IsPart-cons c t s h)
      (find_from-IsPart p skip s)
find_from-IsPart p zero (c ∷ s) = elim (Option-cases (first (matches p (c ∷ s)))) [
  | inl e ↦
      rw (find_from, e)
        (All-imp (λ t. IsPart t s) (find_from p 0 s) (λ t h. IsPart-cons c t s h)
          (find_from-IsPart p 0 s))
  | inr (m, e) ↦
      let k = chars m.0 - 1 in
      rw (find_from, e)
        (
          IsPart-prefix m.0 m.1 (c ∷ s)
              (first-All (Splits (c ∷ s)) (matches p (c ∷ s)) m e (matches-Splits p (c ∷ s))),
          All-imp (λ t. IsPart t s) (find_from p k s) (λ t h. IsPart-cons c t s h)
              (find_from-IsPart p k s),
        )
]

pub find_all-IsPart : (p : Pattern) (s : String) → All (λ t. IsPart t s) (find_all p s)
unfolding find_all
find_all-IsPart p s = find_from-IsPart p 0 s
