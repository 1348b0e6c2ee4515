-- ===== src/RunCompare/Sign.antt =====
-- What `mcnemar_exact` computes: the share of all outcomes of a fair coin, tossed once for each
-- discordant pair, that are at least as lopsided as the pairs.
use native.Mathlib.Nat.{pow-suc}
use gpu_lab.Base.{ℕ, zero, suc, ◌+◌, ◌*◌, ◌^◌, ◌≤◌, min, ◌≡◌, refl, ap, ◌∙◌}
use gpu_lab.Base.{Bool, true, false, ◌&&◌, ◌||◌, arith, leb, Bool-cases, if◌then◌else◌}
use gpu_lab.Base.{
  inl, inr, List, [], ◌∷◌, ◌++◌, map, count_if, count_if-append, length, length-append, ◌==◌,
  nat_eq, eq_of_==,
}
use gpu_lab.RunCompare.{comb, comb_sum, mcnemar_exact}

-- All outcomes of `n` tosses.
pub tosses : ℕ → List (List Bool)
tosses zero = [] ∷ []
tosses (suc n) = map (λ s. true ∷ s) (tosses n) ++ map (λ s. false ∷ s) (tosses n)

abbrev pub heads : List Bool → ℕ
heads [] = 0
heads (true ∷ s) = suc (heads s)
heads (false ∷ s) = heads s

-- The number of outcomes of `n` tosses whose number of heads passes.
ways : (ℕ → Bool) → ℕ → ℕ
ways f zero = if f 0 then 1 else 0
ways f (suc n) = ways (λ t. f (suc t)) n + ways f n

count_if-map {ℓ κ} :
    {A : Type ℓ} {B : Type κ} (p : B → Bool) (g : A → B) (xs : List A)
    → count_if p (map g xs) ≡ count_if (λ x. p (g x)) xs
count_if-map p g [] = refl
count_if-map p g (x ∷ xs) = omega (arith, count_if-map p g xs)

ways-tosses : (f : ℕ → Bool) (n : ℕ) → count_if (λ s. f (heads s)) (tosses n) ≡ ways f n
unfolding tosses ways
ways-tosses f zero = omega arith
ways-tosses f (suc n) =
    rw (count_if-append, count_if-map, count_if-map)
      (omega (arith, ways-tosses (λ t. f (suc t)) n, ways-tosses f n))

ways-all : (f : ℕ → Bool) (n : ℕ) → ((t : ℕ) → t ≤ n → f t ≡ true) → ways f n ≡ 2 ^ n
unfolding ways
ways-all f zero h = rw (h 0 (omega arith)) (omega arith)
ways-all f (suc n) h = omega (
  arith,
  pow-suc 2 n,
  ways-all (λ t. f (suc t)) n (λ t le. h (suc t) (omega arith)),
  ways-all f n (λ t le. h t (omega arith)),
)

ways-none : (f : ℕ → Bool) (n : ℕ) → ((t : ℕ) → t ≤ n → f t ≡ false) → ways f n ≡ 0
unfolding ways
ways-none f zero h = rw (h 0 (omega arith)) (omega arith)
ways-none f (suc n) h = omega (
  arith,
  ways-none (λ t. f (suc t)) n (λ t le. h (suc t) (omega arith)),
  ways-none f n (λ t le. h t (omega arith)),
)

ways-le : (f : ℕ → Bool) (n : ℕ) → ways f n ≤ 2 ^ n
unfolding ways
ways-le f zero = ground arith
ways-le f (suc n) = omega (arith, pow-suc 2 n, ways-le (λ t. f (suc t)) n, ways-le f n)

-- Inclusion and exclusion.
ways-or :
    (f g : ℕ → Bool) (n : ℕ)
    → ways (λ t. f t || g t) n + ways (λ t. f t && g t) n ≡ ways f n + ways g n
unfolding ways
ways-or f g zero = ground arith
ways-or f g (suc n) = omega (arith, ways-or (λ t. f (suc t)) (λ t. g (suc t)) n, ways-or f g n)

ways-ext : (f g : ℕ → Bool) (n : ℕ) → ((t : ℕ) → f t ≡ g t) → ways f n ≡ ways g n
unfolding ways
ways-ext f g zero h = rw (h 0)
ways-ext f g (suc n) h =
    omega (arith, ways-ext (λ t. f (suc t)) (λ t. g (suc t)) n (λ t. h (suc t)), ways-ext f g n h)

comb_sum-suc : (n m : ℕ) → comb_sum (suc n) (suc m) ≡ comb_sum n m + comb_sum n (suc m)
unfolding comb_sum comb
comb_sum-suc n zero = refl
comb_sum-suc n (suc m) = omega (arith, comb_sum-suc n m)

comb_sum-zero : (m : ℕ) → comb_sum 0 m ≡ 1
unfolding comb_sum comb
comb_sum-zero zero = refl
comb_sum-zero (suc m) = omega (arith, comb_sum-zero m)

-- At most `m` heads, and at most `m` tails.
ways-low : (n m : ℕ) → ways (λ t. leb t m) n ≡ comb_sum n m
unfolding ways comb_sum comb
ways-low zero m = ground (arith, comb_sum-zero m)
ways-low (suc n) zero =
    omega (arith, ways-none (λ t. leb (suc t) 0) n (λ t le. ground arith), ways-low n zero)
ways-low (suc n) (suc m) = omega (
  arith,
  ways-ext (λ t. leb (suc t) (suc m)) (λ t. leb t m) n (λ t. ground arith),
  ways-low n m,
  ways-low n (suc m),
  comb_sum-suc n m,
)

ways-high : (n m : ℕ) → ways (λ t. leb n (t + m)) n ≡ comb_sum n m
unfolding ways comb_sum comb
ways-high zero m = ground (arith, comb_sum-zero m)
ways-high (suc n) zero = omega (
  arith,
  ways-ext (λ t. leb (suc n) (suc t + 0)) (λ t. leb n (t + 0)) n (λ t. ground arith),
  ways-none (λ t. leb (suc n) (t + 0)) n (λ t le. ground arith),
  ways-high n zero,
)
ways-high (suc n) (suc m) = omega (
  arith,
  ways-ext (λ t. leb (suc n) (suc t + suc m)) (λ t. leb n (t + suc m)) n (λ t. ground arith),
  ways-ext (λ t. leb (suc n) (t + suc m)) (λ t. leb n (t + m)) n (λ t. ground arith),
  ways-high n (suc m),
  ways-high n m,
  comb_sum-suc n m,
)

-- At most `m` heads or at most `m` tails among `n`.
abbrev pub is_lopsided : ℕ → ℕ → ℕ → Bool
is_lopsided n m t = leb t m || leb n (t + m)

ways-lopsided : (n m : ℕ) → m + m ≤ n → ways (is_lopsided n m) n ≡ min (2 ^ n) (2 * comb_sum n m)
ways-lopsided n m h =
    let f : ℕ → Bool = λ t. leb t m in
    let g : ℕ → Bool = λ t. leb n (t + m) in
    let both = ways-or f g n in
    let low = ways-low n m in
    let high = ways-high n m in
    let room = ways-le (is_lopsided n m) n in
    elim (Bool-cases (leb n (m + m))) [
      | inl even ↦ let all = ways-all (is_lopsided n m) n (λ t le. ground arith) in omega arith
      | inr odd ↦ let apart = ways-none (λ t. f t && g t) n (λ t le. ground arith) in omega arith
    ]

length-map {ℓ κ} :
    {A : Type ℓ} {B : Type κ} (g : A → B) (xs : List A) → length (map g xs) ≡ length xs
length-map g [] = refl
length-map g (x ∷ xs) = omega (arith, length-map g xs)

length-tosses : (n : ℕ) → length (tosses n) ≡ 2 ^ n
unfolding tosses
length-tosses zero = refl
length-tosses (suc n) = omega (
  arith,
  length-append (map (λ s. true ∷ s) (tosses n)) (map (λ s. false ∷ s) (tosses n)),
  length-map (λ (s : List Bool). true ∷ s) (tosses n),
  length-map (λ (s : List Bool). false ∷ s) (tosses n),
  length-tosses n,
  pow-suc 2 n,
)

-- The p-value of `b` and `c` discordant pairs is the share of the outcomes of `b + c` tosses with
-- at most as many heads, or at most as many tails, as the smaller of the two numbers.
pub mcnemar_exact-tosses :
    (b c : ℕ)
    → ((mcnemar_exact b c).over
        ≡ count_if (λ s. is_lopsided (b + c) (min b c) (heads s)) (tosses (b + c)))
      × ((mcnemar_exact b c).under ≡ length (tosses (b + c)))
unfolding mcnemar_exact
mcnemar_exact-tosses b c =
    let n = b + c in
    let m = min b c in
    let w = ways-tosses (is_lopsided n m) n in
    let e = ways-lopsided n m (omega arith) in
    let l = length-tosses n in
    elim (Bool-cases (n == 0)) [
      | inl empty ↦
          let z = eq_of_== n 0 empty in
          let p : 2 ^ n ≡ 1 = ap (λ k. 2 ^ k) z in
          let q : comb_sum n m ≡ 1 = ap (λ k. comb_sum k m) z ∙ comb_sum-zero m in
          rw (empty, mcnemar_exact) (omega arith, omega arith)
      | inr some_pairs ↦ rw (some_pairs, mcnemar_exact) (omega arith, omega arith)
    ]
