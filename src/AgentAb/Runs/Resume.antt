-- ===== src/AgentAb/Runs/Resume.antt =====
-- Interrupted and resumed, cmd_run makes each run of the plan once.
use gpu_lab.Base.{inl, inr, ◌≤◌, ◌≡◌, refl, sym, ap, ◌∙◌, Bool, true, false, ◌&&◌, ◌||◌, not}
use gpu_lab.Base.{Option, some, List, [], ◌∷◌, ◌++◌, arith, if◌then◌else◌, ◌==◌, nat_eq, string_eq}
use gpu_lab.Base.{any, count_if, count_if-append, any-append, append-nil, Bool-cases, Option-cases}
use gpu_lab.AgentAb.Plan.{Slot}
use gpu_lab.AgentAb.Runs.{Row, Attempt, same_slot, done_keys, in_keys, row_of, run_slots, cmd_run}

-- A line that counts for the slot: its own, and not an infra failure.
abbrev pub is_valid : Slot → Row → Bool
is_valid k r = same_slot k r.slot && not (r.status == "infra")

in_keys-done : (rows : List Row) (k : Slot) → in_keys (done_keys rows) k ≡ any (is_valid k) rows
unfolding done_keys
in_keys-done [] k = refl
in_keys-done (r ∷ rows) k = ground (arith, in_keys-done rows k)

same_slot-eq : (k s : Slot) → same_slot k s ≡ true → k ≡ s
same_slot-eq k s h = ground arith

count_if-any : (p : Row → Bool) (rows : List Row) → any p rows ≡ false → count_if p rows ≡ 0
count_if-any p [] h = refl
count_if-any p (r ∷ rows) h = ground (arith, count_if-any p rows)

-- A slot gets no more valid lines than the plan has of it, and none if it is done.
valid-run_slots :
    (attempt : Slot → Option Attempt) (done plan : List Slot) (k : Slot)
    → count_if (is_valid k) (run_slots attempt done plan).0
      ≤ (if in_keys done k then 0 else count_if (same_slot k) plan)
unfolding run_slots row_of
valid-run_slots attempt done [] k = ground arith
valid-run_slots attempt done (s ∷ ss) k =
    let ih = valid-run_slots attempt done ss k in
    let (rows, finished) = run_slots attempt done ss in
    elim (Bool-cases (in_keys done s)) [
      | inl e ↦ rw (run_slots, e) (ground (arith, ih))
      | inr e ↦ elim (Option-cases (attempt s)) [
        | inl f ↦ rw (run_slots, e, f) (ground arith)
        | inr (x, f) ↦ elim (Bool-cases (same_slot k s)) [
          | inl same ↦
              let not_done = ap (in_keys done) (same_slot-eq k s same) ∙ e in
              rw (run_slots, e, f) (ground (arith, ih))
          | inr other ↦ rw (run_slots, e, f) (ground (arith, ih))
        ]
      ]
    ]

-- However a run was interrupted, resuming it repeats none that is on file: if the plan has a slot
-- at most once and the results hold at most one line for it that is no infra failure, they hold at
-- most one afterwards.
pub cmd_run_once :
    (attempt : Slot → Option Attempt) (plan : List Slot) (rows : List Row) (k : Slot)
    → count_if (same_slot k) plan ≤ 1
    → count_if (is_valid k) rows ≤ 1
    → count_if (is_valid k) (cmd_run attempt plan rows).0 ≤ 1
unfolding cmd_run
cmd_run_once attempt plan rows k once on_file =
    let done = done_keys rows in
    let added = (run_slots attempt done plan).0 in
    let joined = count_if-append (is_valid k) rows added in
    let few = valid-run_slots attempt done plan k in
    let known = in_keys-done rows k in
    elim (Bool-cases (in_keys done k)) [
      | inl e ↦ rw joined (ground (arith, few, on_file))
      | inr e ↦
          rw joined (ground (arith, few, once, count_if-any (is_valid k) rows (sym known ∙ e)))
    ]

-- A run that gives a line which counts.
abbrev pub is_good : Attempt → Bool
is_good x = x.healthy && not (x.status == "infra")

-- A finished pass leaves every slot of the plan done.
finished-done :
    (attempt : Slot → Option Attempt) (done plan : List Slot)
    → ((s : Slot) (x : Attempt) → attempt s ≡ some x → is_good x ≡ true)
    → (run_slots attempt done plan).1 ≡ true
    → (k : Slot) → in_keys plan k ≡ true
    → (in_keys done k || any (is_valid k) (run_slots attempt done plan).0) ≡ true
unfolding run_slots row_of
finished-done attempt done [] good fin k h = ground arith
finished-done attempt done (s ∷ ss) good fin k h =
    let ih = finished-done attempt done ss good in
    elim (Bool-cases (in_keys done s)) [
      | inl e ↦
          let fin' : (run_slots attempt done ss).1 ≡ true = rw (run_slots, e) at fin in
          elim (Bool-cases (same_slot k s)) [
            | inl same ↦ rw (ap (in_keys done) (same_slot-eq k s same) ∙ e) refl
            | inr other ↦ rw (run_slots, e) (ih fin' k (ground arith))
          ]
      | inr e ↦ elim (Option-cases (attempt s)) [
        | inl f ↦ let never : false ≡ true = rw (run_slots, e, f) at fin in ground arith
        | inr (x, f) ↦
            let fin' : (run_slots attempt done ss).1 ≡ true = rw (run_slots, e, f) at fin in
            let fine = good s x f in
            elim (Bool-cases (same_slot k s)) [
              | inl same ↦ rw (run_slots, e, f) (ground arith)
              | inr other ↦ rw (run_slots, e, f) (ground (arith, ih fin' k (ground arith)))
            ]
      ]
    ]

run_slots-done :
    (attempt : Slot → Option Attempt) (done plan : List Slot)
    → ((k : Slot) → in_keys plan k ≡ true → in_keys done k ≡ true)
    → run_slots attempt done plan ≡ ([], true)
unfolding run_slots
run_slots-done attempt done [] all_done = refl
run_slots-done attempt done (s ∷ ss) all_done =
    let now : in_keys done s ≡ true = all_done s (ground arith) in
    rw (run_slots, now) (run_slots-done attempt done ss (λ k h. all_done k (ground (arith, h))))

-- Once a run gets to the end of the plan without an infra failure, running it again changes nothing.
pub cmd_run_again :
    (attempt later : Slot → Option Attempt) (plan : List Slot) (rows : List Row)
    → ((s : Slot) (x : Attempt) → attempt s ≡ some x → is_good x ≡ true)
    → (cmd_run attempt plan rows).1 ≡ true
    → cmd_run later plan (cmd_run attempt plan rows).0 ≡ ((cmd_run attempt plan rows).0, true)
unfolding cmd_run
cmd_run_again attempt later plan rows good fin =
    let done = done_keys rows in
    let added = (run_slots attempt done plan).0 in
    let after = rows ++ added in
    let all_done : (k : Slot) → in_keys plan k ≡ true → in_keys (done_keys after) k ≡ true = λ k h.
      let here = finished-done attempt done plan good fin k h in
      let before = in_keys-done rows k in
      in_keys-done after k
      ∙ any-append (is_valid k) rows added
      ∙ (ap (λ b. b || any (is_valid k) added) (sym before) ∙ here) in
    let none_left = run_slots-done later (done_keys after) plan all_done in
    ap (λ q. (after ++ q.0, q.1)) none_left ∙ ap (λ rs. (rs, true)) (append-nil after)
