-- ===== src/AdapterVerify/Degenerate.antt =====
-- What `_degenerate` finds: a run of equal characters.
use Prim.Native.Char.{Char, code}
use Prim.Native.String.{String}
use gpu_lab.Base.{◌⊎◌, inl, inr, ℕ, zero, suc, ◌+◌, ◌-◌, ◌≤◌, max, ◌≡◌, refl, sym, ap}
use gpu_lab.Base.{
  Bool, true, false, ◌&&◌, ◌||◌, arith, ltb, leb, if◌then◌else◌, ◌==◌, nat_eq, eq_of_==, Bool-cases,
}
use gpu_lab.Base.Text.{chars}
use gpu_lab.AdapterVerify.{squeezed, best_run, longest, degenerate}

-- The text starts with `n` characters of a code.
starts_run : ℕ → ℕ → String → Bool
starts_run a zero s = true
starts_run a (suc n) String.[] = false
starts_run a (suc n) (String.◌∷◌ c s) = a == code c && starts_run a n s

-- Somewhere in the text the same character stands `n` times in a row.
pub has_run : ℕ → String → Bool
unfolding starts_run
has_run n String.[] = n == 0
has_run n (String.◌∷◌ c s) = starts_run (code c) n (String.◌∷◌ c s) || has_run n s

starts_run-fewer :
    (a n m : ℕ) (s : String) → m ≤ n → starts_run a n s ≡ true → starts_run a m s ≡ true
unfolding starts_run
starts_run-fewer a n zero s le h = refl
starts_run-fewer a zero (suc m) s le h = ground arith
starts_run-fewer a (suc n) (suc m) String.[] le h = ground arith
starts_run-fewer a (suc n) (suc m) (String.◌∷◌ c s) le h =
    ground (arith, starts_run-fewer a n m s (omega arith))

starts_run-chars : (a n : ℕ) (s : String) → starts_run a n s ≡ true → n ≤ chars s
unfolding starts_run chars
starts_run-chars a zero s h = omega arith
starts_run-chars a (suc n) String.[] h = ground arith
starts_run-chars a (suc n) (String.◌∷◌ c s) h = ground (arith, starts_run-chars a n s)

has_run-chars : (n : ℕ) (s : String) → has_run n s ≡ true → n ≤ chars s
unfolding has_run chars
has_run-chars n String.[] h = ground arith
has_run-chars n (String.◌∷◌ c s) h =
    ground (arith, starts_run-chars (code c) n (String.◌∷◌ c s), has_run-chars n s)

starts_run-none : (a n : ℕ) (s : String) → n ≡ 0 → starts_run a n s ≡ true
unfolding starts_run
starts_run-none a zero s e = refl
starts_run-none a (suc n) s e = ground arith

-- How much of a run is still to come.
gap : (n r : ℕ) → (suc n ≤ r) ⊎ ((k : ℕ) × (suc n - r ≡ suc k))
gap n r = elim (Bool-cases (leb (suc n) r)) [
  | inl enough ↦ inl (ground arith)
  | inr short ↦ inr (n - r, ground arith)
]

best_run-has_run :
    (n : ℕ) (a : Char) (r b : ℕ) (s : String)
    → 1 ≤ r
    → r ≤ b
    → leb (suc n) (best_run a r b s)
      ≡ (leb (suc n) b || (starts_run (code a) (suc n - r) s || has_run (suc n) s))
unfolding best_run has_run starts_run
best_run-has_run n a r b String.[] one le = elim (gap n r) [
  | inl enough ↦ ground arith
  | inr (k, e) ↦ rw e (ground arith)
]
best_run-has_run n a r b (String.◌∷◌ c s) one le =
    let longer = best_run-has_run n c (r + 1) (max b (r + 1)) s (omega arith) (omega arith) in
    let anew = best_run-has_run n c 1 (max b 1) s (omega arith) (omega arith) in
    elim (Bool-cases (code a == code c)) [
      | inl same ↦
          let e = eq_of_== (code a) (code c) same in
          elim (gap n r) [
            | inl enough ↦ rw (best_run, same) (ground (arith, longer))
            | inr (k, f) ↦
                let less : suc n - (r + 1) ≡ k = omega arith in
                let fewer = starts_run-fewer (code c) n k s (omega arith) in
                let told = ap (λ x. starts_run x k s) e in
                let ih = rw less at longer in
                rw (f, same) (ground (arith, ih, fewer, told, starts_run-none (code c) k s))
          ]
      | inr apart ↦
          let one_less : suc n - 1 ≡ n = omega arith in
          let ih = rw one_less at anew in
          elim (gap n r) [
            | inl enough ↦ rw (best_run, apart) (ground (arith, ih))
            | inr (k, f) ↦ rw (best_run, f, apart) (ground (arith, ih))
          ]
    ]

longest-has_run :
    (n : ℕ) (c : Char) (s : String)
    → leb (suc n) (longest (String.◌∷◌ c s)) ≡ has_run (suc n) (String.◌∷◌ c s)
unfolding longest has_run starts_run
longest-has_run n c s =
    let found = best_run-has_run n c 1 1 s (omega arith) (omega arith) in
    let same : suc n - 1 ≡ n = omega arith in
    let least = rw same at found in ground (arith, least, starts_run-none (code c) n s)

long_enough-has_run :
    (s : String) (run : ℕ)
    → 1 ≤ run
    → (if ltb (chars s) run then false else leb run (longest s)) ≡ has_run run s
unfolding chars has_run
long_enough-has_run s zero one = ground arith
long_enough-has_run String.[] (suc n) one = ground arith
long_enough-has_run (String.◌∷◌ c s) (suc n) one =
    let text = String.◌∷◌ c s in
    let size = has_run-chars (suc n) text in
    let found = longest-has_run n c s in
    elim (Bool-cases (ltb (chars text) (suc n))) [
      | inl short ↦ rw short (elim (Bool-cases (has_run (suc n) text)) [
        | inl h ↦ ground (arith, size h, short)
        | inr h ↦ sym h
      ])
      | inr long ↦ rw long found
    ]

-- `_degenerate` flags a text exactly if, without its blanks, the same character stands `run` times
-- in a row somewhere.
pub degenerate-has_run :
    (text : String) (run : ℕ) → 1 ≤ run → degenerate text run ≡ has_run run (squeezed text)
unfolding degenerate
degenerate-has_run text run some_run = long_enough-has_run (squeezed text) run some_run
