-- ===== src/AgentAb/Plan/Once.antt =====
-- How often the plan has each run.
use native.Mathlib.Nat.{suc-mul, mul-zero, mul-add}
use gpu_lab.Base.{inl, inr, ℕ, zero, suc, ◌+◌, ◌*◌, ◌%◌, ◌≡◌, refl, ap, subst}
use gpu_lab.Base.{String, Bool, ◌&&◌, some, List, [], ◌∷◌, map}
use gpu_lab.Base.{arith, ltb, leb, if◌then◌else◌, ◌==◌, nat_eq, string_eq, eq_of_==, Bool-cases}
use gpu_lab.Base.{length, take, drop, count_if, count_if-append, any}
use gpu_lab.AgentAb.Plan.{
  Options, Slot, slot, groups, turned, group_slots, pass_slots, passes, plan,
}

abbrev pub count : String → List String → ℕ
count x xs = count_if (λ y. y == x) xs

abbrev pub is_slot : ℕ → String → String → Slot → Bool
is_slot rep tid arm s = s.rep == rep && s.task == tid && s.arm == arm

-- How often an arm stands in the groups.
abbrev pub arm_count : String → List (List String) → ℕ
arm_count arm [] = 0
arm_count arm (g ∷ gs) = count arm g + arm_count arm gs

count-take-drop :
    (x : String) (n : ℕ) (xs : List String) → count x (drop n xs) + count x (take n xs) ≡ count x xs
count-take-drop x zero xs = omega arith
count-take-drop x (suc n) [] = refl
count-take-drop x (suc n) (y ∷ ys) = omega (arith, count-take-drop x n ys)

-- The rotation loses no arm.
count-turned : (x : String) (i : ℕ) (g : List String) → count x (turned i g) ≡ count x g
unfolding turned
count-turned x i g =
    let joined = count_if-append (λ y. y == x) (drop (i % length g) g) (take (i % length g) g) in
    omega (arith, count-take-drop x (i % length g) g)

count-block :
    (rep r : ℕ) (tid t arm : String) (g : List String)
    → count_if (is_slot rep tid arm) (map (slot r t) g)
      ≡ (if r == rep && t == tid then count arm g else 0)
count-block rep r tid t arm [] = ground arith
count-block rep r tid t arm (a ∷ g) = ground (arith, count-block rep r tid t arm g)

count-group_slots :
    (rep r : ℕ) (tid arm : String) (g : List String) (i : ℕ) (order : List String)
    → count_if (is_slot rep tid arm) (group_slots r g i order)
      ≡ (if r == rep then count tid order * count arm g else 0)
unfolding group_slots
count-group_slots rep r tid arm g i [] = ground arith
count-group_slots rep r tid arm g i (t ∷ ts) =
    let block = map (slot r t) (turned i g) in
    let joined = count_if-append (is_slot rep tid arm) block (group_slots r g (suc i) ts) in
    let here = count-block rep r tid t arm (turned i g) in
    let rest = count-group_slots rep r tid arm g (suc i) ts in
    let same = count-turned arm i g in
    let more = suc-mul (count tid ts) (count arm g) in
    elim (Bool-cases (t == tid)) [
      | inl e ↦
          rw (joined, here, rest, same, e)
            (elim (Bool-cases (r == rep)) [ inl f ↦ rw f (omega arith) | inr f ↦ rw f refl ])
      | inr e ↦
          rw (joined, here, rest, same, e)
            (elim (Bool-cases (r == rep)) [ inl f ↦ rw f (omega arith) | inr f ↦ rw f refl ])
    ]

count-pass_slots :
    (rep r : ℕ) (tid arm : String) (gs : List (List String)) (order : List String)
    → count_if (is_slot rep tid arm) (pass_slots r gs order)
      ≡ (if r == rep then count tid order * arm_count arm gs else 0)
unfolding pass_slots
count-pass_slots rep r tid arm [] order = ground (arith, mul-zero (count tid order))
count-pass_slots rep r tid arm (g ∷ gs) order =
    let first = group_slots r g 0 order in
    let joined = count_if-append (is_slot rep tid arm) first (pass_slots r gs order) in
    let here = count-group_slots rep r tid arm g 0 order in
    let rest = count-pass_slots rep r tid arm gs order in
    let sum = mul-add (count tid order) (count arm g) (arm_count arm gs) in ground arith

count-passes :
    (order : ℕ → List String) (gs : List (List String)) (tid arm : String) (rep r n : ℕ)
    → count_if (is_slot rep tid arm) (passes order gs r n)
      ≡ (if leb r rep && ltb rep (r + n) then count tid (order rep) * arm_count arm gs else 0)
unfolding passes
count-passes order gs tid arm rep r zero = ground arith
count-passes order gs tid arm rep r (suc n) =
    let first = pass_slots r gs (order r) in
    let joined = count_if-append (is_slot rep tid arm) first (passes order gs (suc r) n) in
    let here = count-pass_slots rep r tid arm gs (order r) in
    let rest = count-passes order gs tid arm rep (suc r) n in
    elim (Bool-cases (r == rep)) [
      | inl e ↦ let at_rep = ap (λ k. count tid (order k)) (eq_of_== r rep e) in ground arith
      | inr e ↦ ground arith
    ]

-- Where shuffling loses and repeats no task, the plan has a run of a task with an arm in each pass
-- from the first to the last, as often as the task is listed and the arm stands in the groups, and
-- in no other pass.
pub plan_once :
    (a : Options) (tasks : List String) (shuffle : ℕ → List String → List String)
    (slots : List Slot) (rep : ℕ) (tid arm : String)
    → ((rep : ℕ) (t : String) → count t (shuffle rep tasks) ≡ count t tasks)
    → plan a tasks shuffle ≡ some slots
    → count_if (is_slot rep tid arm) slots
      ≡ (if leb 1 rep && leb rep a.reps then count tid tasks * arm_count arm (groups a) else 0)
unfolding plan
plan_once a tasks shuffle slots rep tid arm fair planned =
    let order : ℕ → List String = λ r. shuffle r tasks in
    let counted = count-passes order (groups a) tid arm rep 1 a.reps in
    let stuck = ltb 0 a.reps && ltb 0 (length tasks) && any (λ g. length g == 0) (groups a) in
    let same = fair rep tid in
    elim (Bool-cases stuck) [
      | inl e ↦ ground (arith, rw (plan, e) at planned)
      | inr e ↦
          let is : some (passes order (groups a) 1 a.reps) ≡ some slots = rw (plan, e) at planned in
          let all_slots : passes order (groups a) 1 a.reps ≡ slots = cc is in
          subst
            (λ s. count_if (is_slot rep tid arm) s ≡ (
              if leb 1 rep && leb rep a.reps
              then count tid tasks * arm_count arm (groups a)
              else 0))
            all_slots (ground (arith, counted, same))
    ]
