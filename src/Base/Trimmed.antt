-- ===== src/Base/Trimmed.antt =====
-- What stays a part of a text without its trailing blanks, and what `split` returns.
use Prim.Native.Char.{Char, code}
use Prim.Native.String.{String, [], ◌∷◌, ◌++◌}
use mathlib.Core.Path.{◌≡◌, refl, sym, subst, ap, ◌∙◌}
use mathlib.Core.Logic.{◌≢◌, inl, inr}
use mathlib.Core.Bool.{true, false}
use mathlib.Core.Option.{none, some}
use native.Mathlib.Omega.{arith}
use text.Mathlib.TextEquality.{Char-path}
use text.Mathlib.TextLemmas.{nil-append, cons-append}
use gpu_lab.Base.Tests.{Bool-cases, Option-cases, if◌then◌else◌}
use gpu_lab.Base.Equality.{◌==◌, nat_eq, string_eq, ==_refl, eq_of_==}
use gpu_lab.Base.Text.{has_part, starts_with, rstrip, is_space, after_prefix}
use gpu_lab.Base.Format.{after_first}
use gpu_lab.Base.Parts.{IsPart, IsPart-cons, has_part-of_IsPart, IsPart-suffix, IsPart-prefix}

pub after_prefix-split : (p s t : String) → after_prefix p s ≡ some t → p ++ t ≡ s
unfolding after_prefix
after_prefix-split [] s t h = let e : s ≡ t = cc h in nil-append t ∙ sym e
after_prefix-split (d ∷ p) [] t h = ground arith
after_prefix-split (d ∷ p) (c ∷ s) t h = elim (Bool-cases (code c == code d)) [
  | inl e ↦
      let rest = after_prefix-split p s t (rw (after_prefix, e) at h) in
      let same = Char-path c d (eq_of_== (code c) (code d) e) in
      cons-append d p t ∙ ap (λ x. d ∷ x) rest ∙ ap (λ x. x ∷ s) (sym same)
  | inr e ↦ let bad : none ≡ some t = rw (after_prefix, e) at h in ground arith
]

pub after_prefix-append : (p t : String) → after_prefix p (p ++ t) ≡ some t
unfolding after_prefix
after_prefix-append [] t = ap (λ x. some x) (nil-append t)
after_prefix-append (d ∷ p) t =
    rw (cons-append d p t)
      (let same = ==_refl (code d) in ground (arith, same, after_prefix-append p t))

-- What stands behind the separator is a part of the text.
pub after_first-IsPart : (sep s t : String) → after_first sep s ≡ some t → IsPart t s
unfolding after_first
after_first-IsPart sep [] t h = IsPart-suffix sep t [] (after_prefix-split sep [] t h)
after_first-IsPart sep (c ∷ s) t h = elim (Option-cases (after_prefix sep (c ∷ s))) [
  | inl e ↦ IsPart-cons c t s (after_first-IsPart sep s t (rw (after_first, e) at h))
  | inr (u, e) ↦
      let got : some u ≡ some t = rw (after_first, e) at h in
      let same : u ≡ t = cc got in
      IsPart-suffix sep t (c ∷ s) (after_prefix-split sep (c ∷ s) t (e ∙ ap (λ x. some x) same))
]

-- A text that is not empty and has no blank at its end.
abbrev pub IsSolid : String → Type 0
IsSolid t = (t ≢ "") × (rstrip t ≡ t)

-- One step of `rstrip`.
abbrev strip_step : Char → String → String
strip_step c [] = if is_space c then [] else c ∷ []
strip_step c (e ∷ u) = c ∷ e ∷ u

rstrip-cons : (c : Char) (s : String) → rstrip (c ∷ s) ≡ strip_step c (rstrip s)
unfolding rstrip
rstrip-cons c s = same (rstrip s)
  where
    same :
        (r : String)
        → (elim r [ [] ↦ if is_space c then [] else c ∷ [] | d ∷ t ↦ c ∷ d ∷ t ]) ≡ strip_step c r
    same [] = refl
    same (d ∷ t) = refl

step-keeps : (c : Char) (r : String) → is_space c ≡ false → strip_step c r ≡ c ∷ r
step-keeps c [] h = rw h refl
step-keeps c (e ∷ u) h = refl

step-solid : (c d : Char) (r u : String) → strip_step c r ≡ c ∷ d ∷ u → r ≡ d ∷ u
step-solid c d [] u h = elim (Bool-cases (is_space c)) [
  | inl e ↦ let bad : [] ≡ c ∷ d ∷ u = rw e at h in cc bad
  | inr e ↦ let bad : c ∷ [] ≡ c ∷ d ∷ u = rw e at h in cc bad
]
step-solid c d (e ∷ v) u h = let tails : c ∷ e ∷ v ≡ c ∷ d ∷ u = h in cc tails

step-one : (c : Char) → strip_step c [] ≡ c ∷ [] → is_space c ≡ false
step-one c h = elim (Bool-cases (is_space c)) [
  | inl e ↦ let bad : [] ≡ c ∷ [] = rw e at h in cc bad
  | inr e ↦ e
]

rstrip-append : (t b : String) → IsSolid t → rstrip (t ++ b) ≡ t ++ rstrip b
unfolding rstrip
rstrip-append [] b (named, h) = absurd (named refl)
rstrip-append (c ∷ []) b (named, h) =
    let solid = step-one c (sym (rstrip-cons c []) ∙ h) in
    ap rstrip (cons-append c [] b ∙ ap (λ x. c ∷ x) (nil-append b))
    ∙ rstrip-cons c b
    ∙ step-keeps c (rstrip b) solid
    ∙ ap (λ x. c ∷ x) (sym (nil-append (rstrip b)))
    ∙ sym (cons-append c [] (rstrip b))
rstrip-append (c ∷ d ∷ u) b (named, h) =
    let tail = step-solid c d (rstrip (d ∷ u)) u (sym (rstrip-cons c (d ∷ u)) ∙ h) in
    let rest = rstrip-append (d ∷ u) b ((λ e. cc e), tail) in
    ap rstrip (cons-append c (d ∷ u) b)
    ∙ rstrip-cons c ((d ∷ u) ++ b)
    ∙ ap (strip_step c) (rest ∙ cons-append d u (rstrip b))
    ∙ ap (λ x. c ∷ x) (sym (cons-append d u (rstrip b)))
    ∙ sym (cons-append c (d ∷ u) (rstrip b))

empty-of_part : (t : String) → has_part t "" ≡ true → t ≡ ""
unfolding has_part starts_with
empty-of_part [] h = refl
empty-of_part (d ∷ t) h = ground arith

step-IsPart : (c : Char) (t r : String) → t ≢ "" → IsPart t r → IsPart t (strip_step c r)
step-IsPart c t [] named h = absurd (named (empty-of_part t (has_part-of_IsPart t [] h)))
step-IsPart c t (e ∷ u) named h = IsPart-cons c t (e ∷ u) h

-- A text that is not empty and has no blank at its end stays a part without the trailing blanks.
pub IsPart-rstrip : (t s : String) → IsSolid t → IsPart t s → IsPart t (rstrip s)
IsPart-rstrip t s solid (a, b, p) = subst (λ x. IsPart t (rstrip x)) p (middle a)
  where
    middle : (a : String) → IsPart t (rstrip (a ++ (t ++ b)))
    middle [] =
        IsPart-prefix t (rstrip b) (rstrip ([] ++ (t ++ b)))
          (sym (ap rstrip (nil-append (t ++ b)) ∙ rstrip-append t b solid))
    middle (c ∷ a) =
        subst (IsPart t)
          (sym (ap rstrip (cons-append c a (t ++ b)) ∙ rstrip-cons c (a ++ (t ++ b))))
          (step-IsPart c t (rstrip (a ++ (t ++ b))) solid.0 (middle a))
