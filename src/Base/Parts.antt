-- ===== src/Base/Parts.antt =====
-- Where one text is a part of another.
use Prim.Native.Char.{Char, code}
use Prim.Native.String.{String, [], ◌∷◌, ◌++◌}
use mathlib.Core.Path.{◌≡◌, refl, sym, subst, ap, ◌∙◌}
use mathlib.Core.Logic.{inl, inr}
use mathlib.Core.Bool.{true}
use mathlib.Core.List.{List}
use native.Mathlib.Omega.{arith}
use text.Mathlib.TextEquality.{Char-path}
use text.Mathlib.TextLemmas.{nil-append, cons-append, append-nil, append_assoc}
use gpu_lab.Base.Tests.{Bool-cases, and-true}
use gpu_lab.Base.Equality.{◌==◌, nat_eq, string_eq, ==_refl, eq_of_==}
use gpu_lab.Base.Lists.{any}
use gpu_lab.Base.Text.{starts_with, has_part, starts_lower, has_part_lower}
use gpu_lab.Base.Format.{join_lines}

abbrev pub IsPart : String → String → Type 0
IsPart t s = (a : String) × (b : String) × (a ++ (t ++ b) ≡ s)

pub IsPart-refl : (s : String) → IsPart s s
IsPart-refl s = ([], [], nil-append (s ++ []) ∙ append-nil s)

pub IsPart-trans : (t s u : String) → IsPart t s → IsPart s u → IsPart t u
IsPart-trans t s u (a, b, p) (c, d, q) = (
  c ++ a,
  b ++ d,
  append_assoc c a (t ++ (b ++ d))
      ∙ ap (λ x. c ++ (a ++ x)) (sym (append_assoc t b d))
      ∙ ap (λ x. c ++ x) (sym (append_assoc a (t ++ b) d) ∙ ap (λ x. x ++ d) p)
      ∙ q,
)

pub IsPart-prefix : (t u s : String) → t ++ u ≡ s → IsPart t s
IsPart-prefix t u s h = ([], u, nil-append (t ++ u) ∙ h)

pub IsPart-suffix : (t u s : String) → t ++ u ≡ s → IsPart u s
IsPart-suffix t u s h = (t, [], ap (λ x. t ++ x) (append-nil u) ∙ h)

pub IsPart-cons : (c : Char) (t s : String) → IsPart t s → IsPart t (c ∷ s)
IsPart-cons c t s (a, b, p) = (c ∷ a, b, cons-append c a (t ++ b) ∙ ap (λ x. c ∷ x) p)

starts_with-nil : (s : String) → starts_with s [] ≡ true
unfolding starts_with
starts_with-nil [] = refl
starts_with-nil (c ∷ s) = refl

pub starts_with-append : (t b : String) → starts_with (t ++ b) t ≡ true
unfolding starts_with
starts_with-append [] b = starts_with-nil ([] ++ b)
starts_with-append (c ∷ t) b =
    rw (cons-append c t b) (ground (arith, starts_with-append t b, ==_refl (code c)))

has_part-of_starts_with : (t s : String) → starts_with s t ≡ true → has_part t s ≡ true
unfolding has_part
has_part-of_starts_with t [] h = h
has_part-of_starts_with t (c ∷ s) h = ground (arith, h)

has_part-middle : (t a b : String) → has_part t (a ++ (t ++ b)) ≡ true
unfolding has_part
has_part-middle t [] b =
    rw (nil-append (t ++ b)) (has_part-of_starts_with t (t ++ b) (starts_with-append t b))
has_part-middle t (c ∷ a) b = rw (cons-append c a (t ++ b)) (ground (arith, has_part-middle t a b))

pub has_part-of_IsPart : (t s : String) → IsPart t s → has_part t s ≡ true
has_part-of_IsPart t s (a, b, p) = subst (λ x. has_part t x ≡ true) p (has_part-middle t a b)

pub starts_with-split : (s t : String) → starts_with s t ≡ true → (b : String) × (t ++ b ≡ s)
unfolding starts_with
starts_with-split s [] h = (s, nil-append s)
starts_with-split [] (d ∷ t) h = ground arith
starts_with-split (c ∷ s) (d ∷ t) h =
    let parts = and-true (code c == code d) (starts_with s t) h in
    let same = Char-path c d (eq_of_== (code c) (code d) parts.0) in
    let (b, e) = starts_with-split s t parts.1 in
    (b, cons-append d t b ∙ ap (λ x. d ∷ x) e ∙ ap (λ x. x ∷ s) (sym same))

pub IsPart-of_has_part : (t s : String) → has_part t s ≡ true → IsPart t s
unfolding has_part
IsPart-of_has_part t [] h = let (b, e) = starts_with-split [] t h in IsPart-prefix t b [] e
IsPart-of_has_part t (c ∷ s) h = elim (Bool-cases (starts_with (c ∷ s) t)) [
  | inl e ↦ let (b, q) = starts_with-split (c ∷ s) t e in IsPart-prefix t b (c ∷ s) q
  | inr e ↦ IsPart-cons c t s (IsPart-of_has_part t s (ground (arith, e)))
]

starts_lower-nil : (s : String) → starts_lower s [] ≡ true
unfolding starts_lower
starts_lower-nil [] = refl
starts_lower-nil (c ∷ s) = refl

has_part_lower-of_starts : (t s : String) → starts_lower s t ≡ true → has_part_lower t s ≡ true
unfolding has_part_lower
has_part_lower-of_starts t [] h = h
has_part_lower-of_starts t (c ∷ s) h = ground (arith, h)

pub has_part_lower-middle :
    (t a b : String) → starts_lower (t ++ b) t ≡ true → has_part_lower t (a ++ (t ++ b)) ≡ true
unfolding has_part_lower
has_part_lower-middle t [] b h = rw (nil-append (t ++ b)) (has_part_lower-of_starts t (t ++ b) h)
has_part_lower-middle t (c ∷ a) b h =
    rw (cons-append c a (t ++ b)) (ground (arith, has_part_lower-middle t a b h))

starts_lower-append : (t b : String) → starts_lower t t ≡ true → starts_lower (t ++ b) t ≡ true
unfolding starts_lower
starts_lower-append [] b h = starts_lower-nil ([] ++ b)
starts_lower-append (c ∷ t) b h =
    rw (cons-append c t b) (ground (arith, h, starts_lower-append t b))

-- A part in lower case is found in the text's lower case.
pub has_part_lower-of_IsPart :
    (t s : String) → starts_lower t t ≡ true → IsPart t s → has_part_lower t s ≡ true
has_part_lower-of_IsPart t s low (a, b, p) =
    subst (λ x. has_part_lower t x ≡ true) p
      (has_part_lower-middle t a b (starts_lower-append t b low))

-- A part of the second text of two is one of both together.
pub IsPart-right : (t a s : String) → IsPart t s → IsPart t (a ++ s)
IsPart-right t a s h = IsPart-trans t s (a ++ s) h (IsPart-suffix a s (a ++ s) refl)

pub IsPart-left : (t a s : String) → IsPart t a → IsPart t (a ++ s)
IsPart-left t a s h = IsPart-trans t a (a ++ s) h (IsPart-prefix a s (a ++ s) refl)

-- What a line has as a part, the joined text has.
pub IsPart-join_lines :
    (t : String) (ls : List String) → any (λ l. has_part t l) ls ≡ true → IsPart t (join_lines ls)
unfolding join_lines
IsPart-join_lines t List.[] h = ground arith
IsPart-join_lines t (List.◌∷◌ k List.[]) h = IsPart-of_has_part t k (ground arith)
IsPart-join_lines t (List.◌∷◌ k (List.◌∷◌ j js)) h =
    let whole = join_lines (List.◌∷◌ j js) in
    elim (Bool-cases (has_part t k)) [
      | inl e ↦
          IsPart-trans t k (k ++ ("\n" ++ whole)) (IsPart-of_has_part t k e)
            (IsPart-prefix k ("\n" ++ whole) (k ++ ("\n" ++ whole)) refl)
      | inr e ↦
          IsPart-trans t whole (k ++ ("\n" ++ whole))
            (IsPart-join_lines t (List.◌∷◌ j js) (ground (arith, e)))
            (IsPart-suffix (k ++ "\n") whole (k ++ ("\n" ++ whole)) (append_assoc k "\n" whole))
    ]
