-- ===== src/ResearchEval/Tokens/Occurs.antt =====
-- Where a text has a token.
use Prim.Native.String.{String, [], ◌∷◌, ◌++◌}
use text.Mathlib.TextLemmas.{nil-append, cons-append}
use gpu_lab.Base.{◌≡◌, subst, ap, ◌∙◌, ◌↔◌, inl, inr, arith}
use gpu_lab.Base.{Bool, true, false, ◌&&◌, not}
use gpu_lab.Base.{Bool-cases, Option-cases, and-true}
use gpu_lab.Base.Text.{after_prefix}
use gpu_lab.Base.Trimmed.{after_prefix-split, after_prefix-append}
use gpu_lab.ResearchEval.Tokens.{in_token, token_ends, token_here, token_from, has_token}

-- Whether the last character of a text continues a token; of the empty text, the one before it.
abbrev pub last_in : Bool → String → Bool
last_in inside [] = inside
last_in inside (c ∷ s) = last_in (in_token c) s

-- The text has the token, with nothing before and nothing after it that would continue it.
abbrev pub Occurs : Bool → String → String → Type 0
Occurs inside tok text =
    (a : String) × (b : String) × (a ++ (tok ++ b) ≡ text)
    × (last_in inside a ≡ false)
    × (token_ends b ≡ true)

here-Occurs :
    (inside : Bool) (tok text : String)
    → (not inside && token_here tok text) ≡ true
    → Occurs inside tok text
here-Occurs inside tok text h =
    let both = and-true (not inside) (token_here tok text) h in
    elim (Option-cases (after_prefix tok text)) [
      | inl e ↦ let bad : false ≡ true = rw (token_here, e) at (both.1) in ground arith
      | inr (b, e) ↦
          let ends : token_ends b ≡ true = rw (token_here, e) at (both.1) in
          (
            [],
            b,
            nil-append (tok ++ b) ∙ after_prefix-split tok text b e,
            ground (arith, both.0),
            ends,
          )
    ]

token_from-Occurs :
    (inside : Bool) (tok text : String) → token_from inside tok text ≡ true → Occurs inside tok text
unfolding token_from
token_from-Occurs inside tok [] h = here-Occurs inside tok [] h
token_from-Occurs inside tok (c ∷ s) h = elim (Bool-cases (not inside && token_here tok (c ∷ s))) [
  | inl e ↦ here-Occurs inside tok (c ∷ s) e
  | inr e ↦
      let (a, b, p, q, r) = token_from-Occurs (in_token c) tok s (ground (arith, h, e)) in
      (c ∷ a, b, cons-append c a (tok ++ b) ∙ ap (λ x. c ∷ x) p, q, r)
]

token_from-here :
    (tok text : String) → token_here tok text ≡ true → token_from false tok text ≡ true
unfolding token_from
token_from-here tok [] h = ground arith
token_from-here tok (c ∷ s) h = ground arith

Occurs-token_from :
    (inside : Bool) (tok a b : String)
    → last_in inside a ≡ false
    → token_ends b ≡ true
    → token_from inside tok (a ++ (tok ++ b)) ≡ true
unfolding token_from
Occurs-token_from inside tok [] b q r =
    let here : token_here tok (tok ++ b) ≡ true = rw (token_here, after_prefix-append tok b) r in
    let found = token_from-here tok (tok ++ b) here in rw (nil-append (tok ++ b), q) found
Occurs-token_from inside tok (c ∷ a) b q r =
    let rest = Occurs-token_from (in_token c) tok a b q r in
    rw (cons-append c a (tok ++ b)) (ground (arith, rest))

-- `has_token` answers yes exactly if the text has the token with neither a word character nor a dash
-- directly before or after it.
pub has_token_exactly : (tok text : String) → (has_token tok text ≡ true) ↔ Occurs false tok text
unfolding has_token
has_token_exactly tok text = (
  token_from-Occurs false tok text,
  λ (a, b, p, q, r).
      subst (λ x. token_from false tok x ≡ true) p (Occurs-token_from false tok a b q r),
)
