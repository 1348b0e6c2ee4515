-- ===== src/Generator/Window.antt =====
-- What `get_observation_for_flag` keeps of a help text.
use gpu_lab.Base.{
  ℕ, zero, suc, ◌+◌, ◌-◌, ◌≤◌, ◌<◌, ◌≡◌, refl, ap, sym, subst, ◌∙◌, inl, inr, min, max,
}
use gpu_lab.Base.{Bool, true, false, ◌||◌, Option, none, some, List, [], ◌∷◌, arith, String}
use gpu_lab.Base.{ltb, leb, ◌==◌, nat_eq, string_eq, Bool-cases, Option-cases, eq_of_==, leb→le}
use gpu_lab.Base.{length, take, drop, get_elem?, any, any-append, length-append, length-take_le}
use gpu_lab.Base.{length-drop}
use gpu_lab.Base.Text.{has_part}
use gpu_lab.Base.Parts.{has_part-of_IsPart, IsPart-join_lines, IsPart-prefix}
use gpu_lab.Base.Format.{join_lines}
use text.Mathlib.TextLemmas.{nil-append}
use gpu_lab.Generator.Help.{target_idx, omitted, slice, window, observed_lines}
use gpu_lab.Generator.Help.{get_observation_for_flag}

module _ {ℓ} {A : Type ℓ} where
  get_elem?-take : (n i : ℕ) (xs : List A) → i < n → get_elem? (take n xs) i ≡ get_elem? xs i
  get_elem?-take zero i xs h = absurd (omega arith)
  get_elem?-take (suc n) i [] h = refl
  get_elem?-take (suc n) zero (x ∷ xs) h = refl
  get_elem?-take (suc n) (suc i) (x ∷ xs) h = get_elem?-take n i xs (omega arith)

  any-drop :
      (p : A → Bool) (n i : ℕ) (xs : List A) (x : A)
      → get_elem? xs i ≡ some x
      → p x ≡ true
      → n ≤ i
      → any p (drop n xs) ≡ true
  any-drop p n i [] x e h le = ground arith
  any-drop p zero zero (y ∷ xs) x e h le = cc
  any-drop p zero (suc i) (y ∷ xs) x e h le =
      ground (arith, any-drop p zero i xs x e h (omega arith))
  any-drop p (suc n) zero (y ∷ xs) x e h le = absurd (omega arith)
  any-drop p (suc n) (suc i) (y ∷ xs) x e h le = any-drop p n i xs x e h (omega arith)

Option-suc :
    (o : Option ℕ) (i : ℕ)
    → (elim o [ none ↦ none | some j ↦ some (suc j) ]) ≡ some i
    → (j : ℕ) × (o ≡ some j) × (i ≡ suc j)
Option-suc none i h = ground arith
Option-suc (some j) i h = (j, refl, ground (arith, h))

target_idx-found :
    (flag : String) (lines : List String) (i : ℕ)
    → target_idx flag lines ≡ some i
    → (i < length lines) × (l : String) × (get_elem? lines i ≡ some l) × (has_part flag l ≡ true)
unfolding target_idx
target_idx-found flag [] i h = ground arith
target_idx-found flag (l ∷ ls) i h = elim (Bool-cases (has_part flag l)) [
  | inl e ↦
      let zeroth : i ≡ 0 = let s : some 0 ≡ some i = rw (target_idx, e) at h in cc s in
      rw zeroth (omega arith, l, refl, e)
  | inr e ↦
      let (j, found, next) = Option-suc (target_idx flag ls) i (rw (target_idx, e) at h) in
      let (short, k, at, has) = target_idx-found flag ls j found in
      rw next (omega arith, k, at, has)
]

target_idx-none :
    (flag : String) (lines : List String)
    → target_idx flag lines ≡ none
    → any (λ l. has_part flag l) lines ≡ false
unfolding target_idx
target_idx-none flag [] h = refl
target_idx-none flag (l ∷ ls) h = elim (Bool-cases (has_part flag l)) [
  | inl e ↦ let bad : Path (Option ℕ) (some 0) none = rw (target_idx, e) at h in ground arith
  | inr e ↦ elim (Option-cases (target_idx flag ls)) [
    | inl n ↦ rw e (target_idx-none flag ls n)
    | inr (j, f) ↦ let bad : some (suc j) ≡ none = rw (target_idx, e, f) at h in ground arith
  ]
]

take_all {ℓ} : {A : Type ℓ} (n : ℕ) (xs : List A) → length xs ≤ n → take n xs ≡ xs
take_all zero [] h = refl
take_all zero (x ∷ xs) h = absurd (omega arith)
take_all (suc n) [] h = refl
take_all (suc n) (x ∷ xs) h = ap (λ ys. x ∷ ys) (take_all n xs (omega arith))

-- The window around line `i` shows it.
window-shows :
    (p : String → Bool) (lines : List String) (i n : ℕ) (l : String)
    → 37 ≤ n
    → n ≤ i
    → i < length lines
    → get_elem? lines i ≡ some l
    → p l ≡ true
    → any p (window lines i n) ≡ true
window-shows p lines i n l big far short at h =
    let start = max 5 (i - 30) in
    let end = min (length lines) (start + (n - 6)) in
    let within : i < end = omega arith in
    let kept = get_elem?-take end i lines within ∙ at in
    let shown = any-drop p start i (take end lines) l kept h (omega arith) in
    rw (any-append p (take 5 lines) (omitted ∷ slice start end lines)) (ground (arith, shown))

has_part-nil : (s : String) → has_part "" s ≡ true
has_part-nil s = has_part-of_IsPart "" s (IsPart-prefix "" s s (nil-append s))

any-first :
    (flag : String) (lines : List String) (n : ℕ)
    → flag ≡ ""
    → 37 ≤ n
    → any (λ l. has_part flag l) lines ≡ true
    → any (λ l. has_part flag l) (take n lines) ≡ true
any-first flag [] n e big h = ground arith
any-first flag (l ∷ ls) zero e big h = absurd (omega arith)
any-first flag (l ∷ ls) (suc n) e big h =
    let here : has_part flag l ≡ true = subst (λ f. has_part f l ≡ true) (sym e) (has_part-nil l) in
    ground (arith, here)

-- A line with the flag is among the lines that are kept, if 37 or more may be.
observed_lines-shows :
    (flag : String) (lines : List String) (n : ℕ)
    → 37 ≤ n
    → any (λ l. has_part flag l) lines ≡ true
    → any (λ l. has_part flag l) (observed_lines lines (some flag) n) ≡ true
unfolding observed_lines
observed_lines-shows flag lines n big h = elim (Bool-cases (flag == "")) [
  | inl e ↦ rw e (any-first flag lines n (eq_of_== flag "" e) big h)
  | inr named ↦ elim (Bool-cases (leb (length lines) n)) [
    | inl e ↦ rw (named, e, take_all n lines (leb→le (length lines) n e)) h
    | inr long ↦ elim (Option-cases (target_idx flag lines)) [
      | inl e ↦ let lost = target_idx-none flag lines e in ground arith
      | inr (i, e) ↦
          let (short, l, at, has) = target_idx-found flag lines i e in
          elim (Bool-cases (ltb i n)) [
            | inl near ↦
                let kept = get_elem?-take n i lines (ground arith) ∙ at in
                rw (named, long, e, near)
                  (any-drop (λ k. has_part flag k) 0 i (take n lines) l kept has (omega arith))
            | inr far ↦
                rw (named, long, e, far)
                  (window-shows (λ k. has_part flag k) lines i n l big (ground arith) short at has)
          ]
    ]
  ]
]

pub get_observation_for_flag-shows :
    (flag : String) (lines : List String) (n : ℕ)
    → 37 ≤ n
    → any (λ l. has_part flag l) lines ≡ true
    → has_part flag (get_observation_for_flag lines (some flag) n) ≡ true
unfolding get_observation_for_flag
get_observation_for_flag-shows flag lines n big h =
    let kept = observed_lines lines (some flag) n in
    has_part-of_IsPart flag (join_lines kept)
      (IsPart-join_lines flag kept (observed_lines-shows flag lines n big h))

length-slice {ℓ} :
    {A : Type ℓ} (start end : ℕ) (xs : List A) → length (slice start end xs) ≤ end - start
length-slice start end xs = omega (arith, length-drop start (take end xs), length-take_le end xs)

length-window : (lines : List String) (i n : ℕ) → 6 ≤ n → length (window lines i n) ≤ n
length-window lines i n h =
    let start = max 5 (i - 30) in
    let end = min (length lines) (start + (n - 6)) in
    let head = length-take_le 5 lines in
    let around = length-slice start end lines in
    let sum = length-append (take 5 lines) (omitted ∷ slice start end lines) in
    omega (arith, head, around, sum)

-- No more lines are kept than asked for.
pub length-observed_lines :
    (flag : Option String) (lines : List String) (n : ℕ)
    → 6 ≤ n
    → length (observed_lines lines flag n) ≤ n
unfolding observed_lines
length-observed_lines none lines n h = length-take_le n lines
length-observed_lines (some flag) lines n h =
    let plain = length-take_le n lines in
    elim (Bool-cases (flag == "" || leb (length lines) n)) [
      | inl e ↦ rw e plain
      | inr e ↦ elim (Option-cases (target_idx flag lines)) [
        | inl f ↦ rw (e, f) plain
        | inr (i, f) ↦ elim (Bool-cases (ltb i n)) [
          | inl g ↦ rw (e, f, g) plain
          | inr g ↦ rw (e, f, g) (length-window lines i n h)
        ]
      ]
    ]

-- A help text with a line that has the flag is cut to a text that has it, with as many lines as
-- asked for or fewer, if 37 lines or more are asked for.
pub get_observation_for_flag_complete :
    (flag : String) (lines : List String) (n : ℕ)
    → 37 ≤ n
    → any (λ l. has_part flag l) lines ≡ true
    → (has_part flag (get_observation_for_flag lines (some flag) n) ≡ true)
      × (length (observed_lines lines (some flag) n) ≤ n)
get_observation_for_flag_complete flag lines n big h = (
  get_observation_for_flag-shows flag lines n big h,
  length-observed_lines (some flag) lines n (omega arith),
)
