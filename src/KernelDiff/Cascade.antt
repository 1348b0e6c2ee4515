-- ===== src/KernelDiff/Cascade.antt =====
-- What `cascade` finds: the first context kill after which nearly everything fails.
use gpu_lab.Base.{ℕ, zero, suc, ◌*◌, ◌≤◌, ◌<◌, String, ◌≡◌, refl, sym, subst}
use gpu_lab.Base.{◌⊎◌, inl, inr, Bool, true, ◌&&◌, Option, none, some, List, [], ◌∷◌, map}
use gpu_lab.Base.{arith, leb, Bool-cases, length, drop, get_elem?, count_if}
use gpu_lab.Base.{leb→le, le→leb, and-true}
use gpu_lab.KernelDiff.{TestCase, broken, is_hit, bad_of, hits, onset, cascade_in, cascade}

module _ {ℓ} {A : Type ℓ} where
  drop-suc : (i : ℕ) (xs rest : List A) (x : A) → drop i xs ≡ x ∷ rest → drop (suc i) xs ≡ rest
  drop-suc zero [] rest x h = cc
  drop-suc zero (y ∷ xs) rest x h = cc
  drop-suc (suc i) [] rest x h = cc
  drop-suc (suc i) (y ∷ xs) rest x h = drop-suc i xs rest x h

  get_elem?-of_drop :
      (i : ℕ) (xs rest : List A) (x : A) → drop i xs ≡ x ∷ rest → get_elem? xs i ≡ some x
  get_elem?-of_drop zero [] rest x h = cc
  get_elem?-of_drop zero (y ∷ xs) rest x h = cc
  get_elem?-of_drop (suc i) [] rest x h = cc
  get_elem?-of_drop (suc i) (y ∷ xs) rest x h = get_elem?-of_drop i xs rest x h

  get_elem?-of_drop_nil : (i j : ℕ) (xs : List A) → drop i xs ≡ [] → i ≤ j → get_elem? xs j ≡ none
  get_elem?-of_drop_nil zero j [] h le = refl
  get_elem?-of_drop_nil zero j (y ∷ xs) h le = cc
  get_elem?-of_drop_nil (suc i) j [] h le = refl
  get_elem?-of_drop_nil (suc i) zero (y ∷ xs) h le = absurd (omega arith)
  get_elem?-of_drop_nil (suc i) (suc j) (y ∷ xs) h le = get_elem?-of_drop_nil i j xs h (omega arith)

-- A context kill at index `i` from which on at least 50 outcomes, and 7 in 10, are failures.
pub record IsOnset (os : List (Bool × String)) (i : ℕ) : Type 0 where
  pub at : Bool × String
  pub here : get_elem? os i ≡ some at
  pub kill : is_hit at ≡ true
  pub many : 50 ≤ count_if bad_of (drop i os)
  pub most : 7 * length (drop i os) ≤ 10 * count_if bad_of (drop i os)

-- The answer names the first such index at or after `i`, or there is none.
abbrev pub FirstOnset : List (Bool × String) → ℕ → Option (ℕ × ℕ × ℕ) → Type 0
FirstOnset os i none = (j : ℕ) → i ≤ j → ¬ IsOnset os j
FirstOnset os i (some (k, n, p)) =
    IsOnset os k
    × (n ≡ length os)
    × (p ≡ count_if bad_of (drop k os))
    × ((j : ℕ) → i ≤ j → j < k → ¬ IsOnset os j)

le-cases : (i j : ℕ) → i ≤ j → (i ≡ j) ⊎ (suc i ≤ j)
le-cases i j h = omega arith

FirstOnset-skip :
    (os : List (Bool × String)) (i : ℕ) (r : Option (ℕ × ℕ × ℕ))
    → ¬ IsOnset os i
    → FirstOnset os (suc i) r
    → FirstOnset os i r
FirstOnset-skip os i none n f = λ j le o. elim (le-cases i j le) [
  | inl e ↦ n (subst (IsOnset os) (sym e) o)
  | inr lt ↦ f j lt o
]
FirstOnset-skip os i (some (k, m, p)) n f = (
  f.0,
  f.1,
  f.2,
  λ j le lt o. elim (le-cases i j le) [
    | inl e ↦ n (subst (IsOnset os) (sym e) o)
    | inr more ↦ f.3 j more lt o
  ],
)

IsOnset-of_tests :
    (os : List (Bool × String)) (i : ℕ) (at : Bool × String)
    → get_elem? os i ≡ some at
    → (leb 50 (count_if bad_of (drop i os))
        && leb (7 * length (drop i os)) (10 * count_if bad_of (drop i os)))
      ≡ true
    → is_hit at ≡ true
    → IsOnset os i
IsOnset-of_tests os i at h t k =
    let (m, r) = and-true _ _ t in
    record { at = at; here = h; kill = k; many = leb→le _ _ m; most = leb→le _ _ r }

onset-hits :
    (os rest : List (Bool × String)) (i : ℕ)
    → drop i os ≡ rest
    → FirstOnset os i (onset os (hits i rest))
unfolding onset hits
onset-hits os [] i e = λ j le o. cc (o.here, get_elem?-of_drop_nil i j os e le)
onset-hits os (x ∷ rest) i e =
    let later = onset-hits os rest (suc i) (drop-suc i os rest x e) in
    let found = get_elem?-of_drop i os rest x e in
    let poisoned = count_if bad_of (drop i os) in
    elim (Bool-cases (is_hit x)) [
      | inr miss ↦
          rw (miss, hits) (FirstOnset-skip os i _ (λ o. cc (o.here, o.kill, found, miss)) later)
      | inl hit ↦
          elim (Bool-cases (leb 50 poisoned && leb (7 * length (drop i os)) (10 * poisoned))) [
            | inl t ↦
                rw (hit, hits, t, onset)
                  (
                    IsOnset-of_tests os i x found t hit,
                    refl,
                    refl,
                    λ j le lt o. absurd (omega arith),
                  )
            | inr f ↦
                rw (hit, hits, f, onset)
                  (FirstOnset-skip os i _
                    (λ o. let m = o.many in let r = o.most in cc (le→leb _ _ m, le→leb _ _ r, f))
                    later)
          ]
    ]

-- `cascade` names the first test at which a killed context poisons the rest, with the number of
-- tests and of failures from there on, and answers `none` only if there is no such test.
pub cascade_first : (cs : List TestCase) → FirstOnset (map broken cs) 0 (cascade cs)
unfolding cascade cascade_in onset
cascade_first cs = onset-hits (map broken cs) (map broken cs) 0 refl
