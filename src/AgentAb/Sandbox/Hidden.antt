-- ===== src/AgentAb/Sandbox/Hidden.antt =====
-- What the list of hidden paths covers.
use text.Mathlib.TextPositions.{len-append}
use text.Mathlib.TextLemmas.{append_assoc}
use Prim.Native.String.{len}
use gpu_lab.Base.{ℕ, suc, zero, ◌<◌, String, ◌<>◌, ◌≡◌, refl, sym, ap, ◌∙◌, ◌⊎◌, inl, inr, arith}
use gpu_lab.Base.{true, false, not, List, [], ◌∷◌, ◌++◌, keep, any, contains}
use gpu_lab.Base.{◌==◌, string_eq, nat_eq, Bool-cases, contains-keep, subst, All}
use gpu_lab.Base.Members.{any-witness, any-at, contains-map, All-of_contains}
use gpu_lab.Base.Sorting.{contains-sorted, distinct, contains-distinct}
use gpu_lab.Base.Parts.{starts_with-split, starts_with-append}
use gpu_lab.Base.Text.{pieces, starts_with}
use gpu_lab.AgentAb.Sandbox.{is_under, hide_paths, hide_list}

-- `p` lies in the directory `q`.
abbrev pub IsBeneath : String → String → Type 0
IsBeneath p q = (t : String) × (q <> ("/" <> t) ≡ p)

-- A path in the list is `p` or a directory that has it.
abbrev pub Covered : List String → String → Type 0
Covered hidden p = (q : String) × (contains hidden q ≡ true) × ((p ≡ q) ⊎ IsBeneath p q)

IsBeneath-of_is_under : (p q : String) → is_under p q ≡ true → IsBeneath p q
IsBeneath-of_is_under p q h =
    let (t, e) = starts_with-split p (q <> "/") h in (t, sym (append_assoc q "/" t) ∙ e)

is_under-of_IsBeneath : (p q : String) → IsBeneath p q → is_under p q ≡ true
is_under-of_IsBeneath p q (t, e) =
    ap (λ s. starts_with s (q <> "/")) (sym e ∙ sym (append_assoc q "/" t))
    ∙ starts_with-append (q <> "/") t

IsBeneath-trans : (p q r : String) → IsBeneath p q → IsBeneath q r → IsBeneath p r
IsBeneath-trans p q r (t, e) (u, f) = (
  u <> ("/" <> t),
  ap (λ x. r <> x) (sym (append_assoc "/" u ("/" <> t)))
      ∙ sym (append_assoc r ("/" <> u) ("/" <> t))
      ∙ ap (λ x. x <> ("/" <> t)) f
      ∙ e,
)

len-IsBeneath : (p q : String) → IsBeneath p q → len q < len p
len-IsBeneath p q (t, e) = omega (arith, ap len e, len-append q ("/" <> t), len-append "/" t)

abbrev tops : List String → List String
tops paths = keep (λ p. not (any (λ q. is_under p q) paths)) paths

-- What covers a directory covers what it has.
Covered-beneath :
    (hidden : List String) (p q : String) → IsBeneath p q → Covered hidden q → Covered hidden p
Covered-beneath hidden p q h (r, listed, place) = (
  r,
  listed,
  inr (elim place [
    | inl same ↦ subst (IsBeneath p) same h
    | inr above ↦ IsBeneath-trans p q r h above
  ]),
)

-- A path that was asked for lies in the highest directory above it that was.
Covered-tops :
    (paths : List String) (n : ℕ) (p : String)
    → len p < n
    → contains paths p ≡ true
    → Covered (tops paths) p
Covered-tops paths zero p short asked = absurd (omega arith)
Covered-tops paths (suc n) p short asked = elim (Bool-cases (any (λ q. is_under p q) paths)) [
  | inr e ↦
      let kept = contains-keep (λ q. not (any (λ r. is_under q r) paths)) paths p in
      (p, ground (arith, kept, asked, e), inl refl)
  | inl e ↦
      let (q, there, under) = any-witness (λ q. is_under p q) paths e in
      let beneath = IsBeneath-of_is_under p q under in
      let shorter = len-IsBeneath p q beneath in
      Covered-beneath (tops paths) p q beneath (Covered-tops paths n q (omega arith) there)
]

module _ (real : String → String) (hide set out : String) where
  contains-hide_list :
      (p : String)
      → contains (hide_list real hide set out) p ≡ contains (tops (hide_paths real hide set out)) p
  unfolding hide_list
  contains-hide_list p =
      let paths = hide_paths real hide set out in
      contains-sorted (distinct (tops paths)) p ∙ contains-distinct (tops paths) p

  contains-hide_paths :
      (x : String)
      → contains (pieces ":" hide ++ set ∷ out ∷ []) x ≡ true
      → (x == "") ≡ false
      → contains (hide_paths real hide set out) (real x) ≡ true
  unfolding hide_paths
  contains-hide_paths x named some_path =
      let asked = pieces ":" hide ++ set ∷ out ∷ [] in
      let kept = contains-keep (λ p. not (p == "")) asked x in
      contains-map real (keep (λ p. not (p == "")) asked) x (ground (arith, kept, named, some_path))

  covers :
      (x : String)
      → contains (pieces ":" hide ++ set ∷ out ∷ []) x ≡ true
      → ((x == "") ≡ true) ⊎ Covered (hide_list real hide set out) (real x)
  covers x named = elim (Bool-cases (x == "")) [
    | inl e ↦ inl e
    | inr e ↦
        let paths = hide_paths real hide set out in
        let (q, listed, place) =
          Covered-tops paths (suc (len (real x))) (real x) (omega arith)
            (contains-hide_paths x named e) in
        inr (q, contains-hide_list q ∙ listed, place)
  ]

  apart :
      (p q : String)
      → contains (hide_list real hide set out) p ≡ true
      → contains (hide_list real hide set out) q ≡ true
      → ¬ (IsBeneath p q)
  apart p q here there beneath =
      let paths = hide_paths real hide set out in
      let top = contains-keep (λ q. not (any (λ r. is_under q r) paths)) paths in
      let in_p = sym (contains-hide_list p) ∙ here in
      let in_q = sym (contains-hide_list q) ∙ there in
      let not_under =
        any-at (λ r. is_under p r) paths q (ground (arith, top p, in_p))
          (ground (arith, top q, in_q)) in
      let under = is_under-of_IsBeneath p q beneath in ground (arith, under, not_under)

  -- Each path that --hide lists, the set and the results, unless it is empty, is in the list of hidden
  -- paths or lies beneath one of it, as `realpath` gives it; and no path of the list lies beneath
  -- another one of it.
  pub hide_list-covers :
      All
        (λ x. ((x == "") ≡ true) ⊎ Covered (hide_list real hide set out) (real x))
        (pieces ":" hide ++ set ∷ out ∷ [])
      × All
          (λ p. All (λ q. ¬ (IsBeneath p q)) (hide_list real hide set out))
          (hide_list real hide set out)
  hide_list-covers =
      let hidden = hide_list real hide set out in
      (
        All-of_contains (λ x. ((x == "") ≡ true) ⊎ Covered hidden (real x))
            (pieces ":" hide ++ set ∷ out ∷ []) covers,
        All-of_contains (λ p. All (λ q. ¬ (IsBeneath p q)) hidden) hidden
            (λ p here.
              All-of_contains (λ q. ¬ (IsBeneath p q)) hidden (λ q there. apart p q here there)),
      )
