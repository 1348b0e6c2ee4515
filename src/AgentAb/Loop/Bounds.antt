-- ===== src/AgentAb/Loop/Bounds.antt =====
-- How long run_loop runs, how many calls it makes, and what it records of them.
use gpu_lab.Base.{
  ◌⊎◌, inl, inr, subst, leb→le, ℕ, ◌+◌, ◌≤◌, ◌<◌, ◌≡◌, refl, String, Bool, true, false, ◌&&◌,
}
use gpu_lab.Base.{
  sym, ap, ◌∙◌, append-nil, none, Option, some, List, [], ◌∷◌, ◌++◌, arith, leb, ◌==◌, nat_eq,
  string_eq,
}
use gpu_lab.Base.{length, length-append, all, Option-cases, Bool-cases}
use gpu_lab.AgentAb.Loop.{ToolCall, Reply, Event, Status, Message, State, Run, Next, stop, go}
use gpu_lab.AgentAb.Loop.{expired, http_error, unreachable, failed, replied, user, assistant, tool}
use gpu_lab.AgentAb.Loop.{
  answered, truncated, timeout, context_exhausted, infra, error, call_limit, max_calls, trouble,
  noted, turn, result_of, record_call, record_result, batch, on_reply, round, loop, run_loop,
}

-- The results among the messages, with the ids that they carry.
abbrev pub results : List Message → List (Option String × Option String)
results [] = []
results (user _ ∷ ms) = results ms
results (assistant _ _ ∷ ms) = results ms
results (tool i out ∷ ms) = (some i, some out) ∷ results ms

-- What the results of the calls have to be.
abbrev pub outcomes : List ToolCall → List (Option String × Option String)
outcomes [] = []
outcomes (tc ∷ tcs) = (tc.id, result_of tc) ∷ outcomes tcs

-- The results are those of the calls, in their order and under their ids.
abbrev pub IsAnswered : State → Type 0
IsAnswered s = results s.messages ≡ outcomes s.calls

-- The last call has no id, and no result; the others have theirs.
abbrev pub LacksId : State → Type 0
LacksId s =
    (cs : List ToolCall) × (tc : ToolCall) × (s.calls ≡ cs ++ (tc ∷ []))
    × (tc.id ≡ none)
    × (results s.messages ≡ outcomes cs)

results-append : (ms ns : List Message) → results (ms ++ ns) ≡ results ms ++ results ns
results-append [] ns = refl
results-append (user _ ∷ ms) ns = results-append ms ns
results-append (assistant _ _ ∷ ms) ns = results-append ms ns
results-append (tool i out ∷ ms) ns = ap (λ rs. (some i, some out) ∷ rs) (results-append ms ns)

outcomes-append : (cs ds : List ToolCall) → outcomes (cs ++ ds) ≡ outcomes cs ++ outcomes ds
outcomes-append [] ds = refl
outcomes-append (c ∷ cs) ds = ap (λ rs. (c.id, result_of c) ∷ rs) (outcomes-append cs ds)

record_result-none :
    (s : State) (o : Option String) (out : String) → record_result s o out ≡ none → o ≡ none
unfolding record_result
record_result-none s none out h = refl
record_result-none s (some i) out h = absurd (ground (arith, h))

record_result-some :
    (s : State) (o : Option String) (out : String) (t : State)
    → record_result s o out ≡ some t
    → (i : String) × (o ≡ some i)
      × (t.calls ≡ s.calls)
      × (t.messages ≡ s.messages ++ (tool i out ∷ []))
unfolding record_result
record_result-some s none out t h = absurd (ground (arith, h))
record_result-some s (some i) out t h =
    let same : record s { messages = s.messages ++ (tool i out ∷ []) } ≡ t = cc h in
    (i, refl, ap (λ u. u.calls) (sym same), ap (λ u. u.messages) (sym same))

batch-calls :
    (s : State) (tcs : List ToolCall)
    → (length s.calls ≤ length (batch s tcs).0.calls)
      × (length (batch s tcs).0.calls ≤ length s.calls + length tcs)
      × ((batch s tcs).1 ≡ true → length (batch s tcs).0.calls ≡ length s.calls + length tcs)
unfolding batch
batch-calls s [] = (omega arith, omega arith, λ h. omega arith)
batch-calls s (tc ∷ tcs) = elim (Option-cases (result_of tc)) [
  | inl e ↦ rw (batch, e) (omega arith, omega arith, λ h. ground (arith, h))
  | inr (out, e) ↦
      let one = length-append s.calls (tc ∷ []) in
      elim (Option-cases (record_result (record_call s tc) tc.id out)) [
        | inl f ↦ rw (batch, e, f) (omega arith, omega arith, λ h. ground (arith, h))
        | inr (t, f) ↦
            let ih = batch-calls t tcs in
            let (i, named, calls, messages) = record_result-some (record_call s tc) tc.id out t f in
            let size : length t.calls ≡ length (s.calls ++ (tc ∷ [])) = ap length calls in
            rw (batch, e, f)
              (omega (arith, size), omega (arith, size), λ h. omega (arith, ih.2 h, size))
      ]
]

batch-IsAnswered :
    (s : State) (tcs : List ToolCall)
    → IsAnswered s
    → ((batch s tcs).1 ≡ true → IsAnswered (batch s tcs).0)
      × (IsAnswered (batch s tcs).0 ⊎ LacksId (batch s tcs).0)
unfolding batch
batch-IsAnswered s [] h = (λ _. h, inl h)
batch-IsAnswered s (tc ∷ tcs) h = elim (Option-cases (result_of tc)) [
  | inl e ↦ rw (batch, e) (λ _. h, inl h)
  | inr (out, e) ↦ elim (Option-cases (record_result (record_call s tc) tc.id out)) [
    | inl f ↦
        let nameless = record_result-none (record_call s tc) tc.id out f in
        rw (batch, e, f) (λ never. ground (arith, never), inr (s.calls, tc, refl, nameless, h))
    | inr (t, f) ↦
        let (i, named, calls, messages) = record_result-some (record_call s tc) tc.id out t f in
        let same : (some i, some out) ≡ (tc.id, result_of tc) =
          sym (ap (λ x. (x, result_of tc)) named ∙ ap (λ x. (some i, x)) e) in
        let fine : IsAnswered t =
          ap results messages
          ∙ results-append s.messages (tool i out ∷ [])
          ∙ ap (λ rs. rs ++ ((some i, some out) ∷ [])) h
          ∙ ap (λ x. outcomes s.calls ++ (x ∷ [])) same
          ∙ sym (outcomes-append s.calls (tc ∷ []))
          ∙ ap outcomes (sym calls) in
        rw (batch, e, f) (batch-IsAnswered t tcs fine)
  ]
]

abbrev pub asks : Event → ℕ
asks expired = 0
asks (http_error _ _) = 0
asks (unreachable _) = 0
asks failed = 0
asks (replied r) = length r.tool_calls

abbrev pub gives_answer : Status → Bool
gives_answer answered = true
gives_answer truncated = true
gives_answer timeout = false
gives_answer context_exhausted = false
gives_answer infra = false
gives_answer call_limit = false
gives_answer error = false

-- What holds of a run whose replies ask for at most `b` calls each.
pub record IsRun (b : ℕ) (r : Run) : Type 0 where
  pub each_answered : IsAnswered r.vars ⊎ ((r.status ≡ error) × LacksId r.vars)
  pub bounded : length r.vars.calls ≤ 59 + b
  pub limit : r.status ≡ call_limit → 60 ≤ length r.vars.calls
  pub silent : gives_answer r.status ≡ false → r.final ≡ ""

wordless :
    (b : ℕ) (s : State) (st : Status)
    → IsAnswered s ⊎ ((st ≡ error) × LacksId s)
    → length s.calls ≤ 59 + b
    → (st ≡ call_limit → 60 ≤ length s.calls)
    → IsRun b (record { status = st; final = ""; vars = s })
wordless b s st h c limit = record {
  each_answered = h;
  bounded = c;
  limit = limit;
  silent = λ _. refl;
}

-- What holds after a round that starts in `s`.
abbrev IsNext : ℕ → State → Next → Type 0
IsNext b s (stop r) = IsRun b r
IsNext b s (go t) =
    IsAnswered t
    × (length s.calls < 60)
    × (length s.calls < length t.calls)
    × (length t.calls ≤ length s.calls + b)

on_reply-IsNext :
    (b : ℕ) (s : State) (r : Reply)
    → IsAnswered s
    → length s.calls ≤ 59 + b
    → length r.tool_calls ≤ b
    → IsNext b s (on_reply s r)
unfolding on_reply
on_reply-IsNext b s r h c m =
    let asked = record s { messages = s.messages ++ (assistant r.content r.tool_calls ∷ []) } in
    let said = results-append s.messages (assistant r.content r.tool_calls ∷ []) in
    let counts = batch-calls asked r.tool_calls in
    let fine = batch-IsAnswered asked r.tool_calls (said ∙ append-nil (results s.messages) ∙ h) in
    elim (Bool-cases (length r.tool_calls == 0)) [
      | inl no_calls ↦
          rw (on_reply, no_calls)
            (elim (Bool-cases r.cut_off) [
              | inl e ↦ rw e (record {
                each_answered = inl h;
                bounded = c;
                limit = λ q. ground (arith, q);
                silent = λ q. ground (arith, q);
              })
              | inr e ↦ rw e (record {
                each_answered = inl h;
                bounded = c;
                limit = λ q. ground (arith, q);
                silent = λ q. ground (arith, q);
              })
            ])
      | inr some_calls ↦ elim (Bool-cases (leb max_calls (length s.calls))) [
        | inl full ↦
            rw (on_reply, some_calls, full) (wordless b s call_limit (inl h) c (λ _. ground arith))
        | inr room ↦ elim (Bool-cases (batch asked r.tool_calls).1) [
          | inl returned ↦
              rw (on_reply, some_calls, room, returned)
                (
                  fine.0 returned,
                  ground arith,
                  ground (arith, counts.2 returned),
                  ground (arith, counts.2 returned),
                )
          | inr raised ↦
              rw (on_reply, some_calls, room, raised)
                (wordless b (noted trouble (batch asked r.tool_calls).0) error
                  (elim fine.1 [ inl fine ↦ inl fine | inr lost ↦ inr (refl, lost) ]) (ground arith)
                  (λ q. ground (arith, q)))
        ]
      ]
    ]

round-IsNext :
    (b : ℕ) (s : State) (e : Event)
    → IsAnswered s
    → length s.calls ≤ 59 + b
    → asks e ≤ b
    → IsNext b s (round s e)
unfolding round
round-IsNext b s expired h c m = wordless b s timeout (inl h) c (λ q. ground (arith, q))
round-IsNext b s (http_error code context) h c m = elim (Bool-cases (code == 400 && context)) [
  | inl e ↦ rw e (wordless b (noted trouble s) context_exhausted (inl h) c (λ q. ground (arith, q)))
  | inr e ↦ rw e (wordless b (noted trouble s) infra (inl h) c (λ q. ground (arith, q)))
]
round-IsNext b s (unreachable true) h c m =
    wordless b (noted trouble s) timeout (inl h) c (λ q. ground (arith, q))
round-IsNext b s (unreachable false) h c m =
    wordless b (noted trouble s) infra (inl h) c (λ q. ground (arith, q))
round-IsNext b s failed h c m =
    wordless b (noted trouble s) error (inl h) c (λ q. ground (arith, q))
round-IsNext b s (replied r) h c m =
    on_reply-IsNext b (record s { turns = s.turns ++ (turn (length r.tool_calls) ∷ []) }) r h c m

Next-cases : (n : Next) → ((r : Run) × (n ≡ stop r)) ⊎ ((t : State) × (n ≡ go t))
Next-cases (stop r) = inl (r, refl)
Next-cases (go t) = inr (t, refl)

loop-IsRun :
    (b : ℕ) (s : State) (es : List Event) (r : Run)
    → IsAnswered s
    → length s.calls ≤ 59 + b
    → all (λ e. leb (asks e) b) es ≡ true
    → loop s es ≡ some r
    → IsRun b r
unfolding loop
loop-IsRun b s [] r h c m ended = ground arith
loop-IsRun b s (e ∷ es) r h c m ended =
    let after = round-IsNext b s e h c (leb→le (asks e) b (ground (arith, m))) in
    elim (Next-cases (round s e)) [
      | inl (stopped, is) ↦
          let same : some stopped ≡ some r = rw (loop, is) at ended in
          subst (IsRun b) (cc same) (rw is at after)
      | inr (t, is) ↦
          let later : loop t es ≡ some r = rw (loop, is) at ended in
          let going : IsNext b s (go t) = rw is at after in
          loop-IsRun b t es r going.0 (ground arith) (ground (arith, m)) later
    ]

-- A run whose replies ask for at most `b` calls each makes at most 59 + b calls. The results among
-- the messages are those of the calls made, in their order and under their ids; a call without an id
-- is the last one, has none, and ends the run with an error. A run is ended by the call limit only
-- after 60 calls, and only a run that ends with a reply has a final message.
pub run_loop-IsRun :
    (prompt : String) (es : List Event) (b : ℕ) (r : Run)
    → all (λ e. leb (asks e) b) es ≡ true
    → run_loop prompt es ≡ some r
    → IsRun b r
unfolding run_loop
run_loop-IsRun prompt es b r m ended =
    loop-IsRun b (record { calls = []; turns = []; messages = user prompt ∷ [] }) es r refl
      (omega arith) m ended

loop_ends :
    (s : State) (es : List Event)
    → 0 < length es
    → 60 < length es + length s.calls
    → IsAnswered s
    → (r : Run) × (loop s es ≡ some r)
unfolding loop
loop_ends s [] some_left enough h = ground arith
loop_ends s (e ∷ es) some_left enough h =
    let b = asks e + length s.calls in
    let after = round-IsNext b s e h (omega arith) (omega arith) in
    elim (Next-cases (round s e)) [
      | inl (stopped, is) ↦ (stopped, rw (loop, is) refl)
      | inr (t, is) ↦
          let going : IsNext b s (go t) = rw is at after in
          let rest = loop_ends t es (ground arith) (ground arith) going.0 in
          (rest.0, rw (loop, is) rest.1)
    ]

-- Whatever the server, the clock and the shell do, a run ends within 61 rounds.
pub run_loop_ends :
    (prompt : String) (es : List Event) → 61 ≤ length es → (r : Run) × (run_loop prompt es ≡ some r)
unfolding run_loop
run_loop_ends prompt es enough =
    loop_ends (record { calls = []; turns = []; messages = user prompt ∷ [] }) es (omega arith)
      (omega arith) refl
