-- ===== src/ResearchEval/Requests.antt =====
-- bench/research_eval.py, `post`: a request that is tried again, with the pauses in between. What
-- the server makes of each try is an argument, where none is an exception.
use gpu_lab.Base.{ℕ, zero, suc, ◌+◌, ◌*◌, ◌-◌, ◌<◌, ◌≡◌, refl, sym, subst, ap, ◌⊎◌, inl, inr, arith}
use gpu_lab.Base.{true, false, Option, none, some, List, [], ◌∷◌, ◌++◌, ◌==◌, nat_eq, if◌then◌else◌}
use gpu_lab.Base.{Option-cases, Bool-cases}

-- What a call gives: the answer, or the exception of its last try, and the seconds that it slept.
pub data Answer (A : Type 0) : Type 0 where
  returned : A → List ℕ → Answer A
  raised : List ℕ → Answer A
  -- the loop ends without a try
  no_try : Answer A

module _ {A : Type 0} (server : ℕ → Option A) (tries : ℕ) where
  -- The tries from `attempt` on, `left` of them, behind the pauses `slept`.
  unfoldable pub attempts : ℕ → ℕ → List ℕ → Answer A
  attempts attempt zero slept = no_try
  attempts attempt (suc left) slept =
      let again = attempts (suc attempt) left (slept ++ 2 * (attempt + 1) ∷ []) in
      elim (server attempt) [
        | some r ↦ returned r slept
        | none ↦ if attempt == tries - 1 then raised slept else again
      ]

  -- `post`
  unfoldable pub post : Answer A
  unfolding attempts
  post = attempts 0 tries []

-- The pauses of the first `n` tries.
unfoldable pub pauses : ℕ → List ℕ
pauses zero = []
pauses (suc n) = pauses n ++ 2 * (n + 1) ∷ []

module _ {A : Type 0} (server : ℕ → Option A) (tries : ℕ) where
  -- The first `n` tries fail.
  abbrev pub FailsBefore : ℕ → Type 0
  FailsBefore n = (j : ℕ) → j < n → server j ≡ none

  -- How a call ends: with the answer of the first try that has one, or with an exception after the
  -- last.
  abbrev pub Ends : Answer A → Type 0
  Ends a =
      ((k : ℕ) × (r : A) × (k < tries)
        × (server k ≡ some r)
        × FailsBefore k
        × (a ≡ returned r (pauses k)))
      ⊎ (FailsBefore tries × (a ≡ raised (pauses (tries - 1))))

  FailsBefore-suc : (n : ℕ) → FailsBefore n → server n ≡ none → FailsBefore (suc n)
  FailsBefore-suc n h e j le = elim (Bool-cases (j == n)) [
    | inl same ↦ let k : j ≡ n = ground arith in subst (λ i. server i ≡ none) (sym k) e
    | inr other ↦ h j (ground arith)
  ]

  attempts-Ends :
      (n left : ℕ) (slept : List ℕ)
      → n + suc left ≡ tries
      → slept ≡ pauses n
      → FailsBefore n
      → Ends (attempts server tries n (suc left) slept)
  unfolding attempts pauses
  attempts-Ends n zero slept sum same fails = elim (Option-cases (server n)) [
    | inr (r, e) ↦ inl (n, r, omega arith, e, fails, rw (attempts, e, same) refl)
    | inl e ↦
        let last : (n == tries - 1) ≡ true = ground (arith, sum) in
        let count : n ≡ tries - 1 = omega (arith, sum) in
        let every : FailsBefore tries =
          subst FailsBefore (omega (arith, sum)) (FailsBefore-suc n fails e) in
        inr (every, rw (attempts, e, last, same, count) refl)
  ]
  attempts-Ends n (suc left) slept sum same fails = elim (Option-cases (server n)) [
    | inr (r, e) ↦ inl (n, r, omega arith, e, fails, rw (attempts, e, same) refl)
    | inl e ↦
        let more : (n == tries - 1) ≡ false = ground (arith, sum) in
        let next : List ℕ = slept ++ 2 * (n + 1) ∷ [] in
        let rest =
          attempts-Ends (suc n) left next (omega (arith, sum))
            (ap (λ x. x ++ 2 * (n + 1) ∷ []) same)
            (subst FailsBefore (omega arith) (FailsBefore-suc n fails e)) in
        rw (attempts, e, more) rest
  ]

-- A call that may be tried ends with the answer of the first try that has one, after pauses of 2, 4,
-- 6 and so on seconds, one for each try that failed before it; if every try fails, it raises after
-- the last one and has not slept behind it.
pub post-Ends :
    {A : Type 0} (server : ℕ → Option A) (tries : ℕ)
    → 0 < tries
    → Ends server tries (post server tries)
unfolding post pauses
post-Ends server zero h = absurd (omega arith)
post-Ends server (suc n) h =
    attempts-Ends server (suc n) 0 n [] (omega arith) refl (λ j le. absurd (omega arith))
