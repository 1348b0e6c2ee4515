-- ===== src/ResearchEval/Items/Safe.antt =====
-- What run_item has run for a model, and how it ends.
use gpu_lab.Base.{◌⊎◌, inl, inr, ℕ, zero, suc, ◌+◌, ◌≤◌, ◌≡◌, refl, sym, String, Bool, true, false}
use gpu_lab.Base.{Option, none, some, List, [], ◌∷◌, ◌++◌, arith, ◌==◌, nat_eq, string_eq}
use gpu_lab.Base.{length, length-append, All, Option-cases, Bool-cases}
use gpu_lab.ResearchEval.Commands.{allowed_argv}
use gpu_lab.ResearchEval.Commands.Harmless.{is_harmless, allowed_argv-harmless}
use gpu_lab.ResearchEval.Items.{
  Command, nothing, other, line, ParsedCall, PromAnswer, prom_failure, prom_series,
}
use gpu_lab.ResearchEval.Items.{
  Outcome, executed, failed, refused, web_unavailable, prom_error, queried, Env,
}
use gpu_lab.ResearchEval.Items.{
  run_argv, run_bash, ask_prom, execute, ChatMessage, user, assistant, tool,
}
use gpu_lab.ResearchEval.Items.{Exchange, raises, full, completed, ItemStatus, CallRecord, ItemRun}
use gpu_lab.ResearchEval.Items.{
  answered, truncated, truncated_in_think, context_exhausted, call_limit, error,
}
use gpu_lab.ResearchEval.Items.{finish, ended, call_in, split_think, rounds, run_item}

-- No command was run for the outcome, or one that only reads documentation.
abbrev pub is_safe : List String → Outcome → Bool
is_safe bins (executed argv) = is_harmless bins argv
is_safe bins (failed argv) = is_harmless bins argv
is_safe bins refused = true
is_safe bins web_unavailable = true
is_safe bins prom_error = true
is_safe bins queried = true

-- What holds of the answer to a call, if there is one.
abbrev IsSafeAnswer : List String → Option (String × Outcome) → Type 0
IsSafeAnswer bins none = Unit
IsSafeAnswer bins (some (result, outcome)) = is_safe bins outcome ≡ true

run_argv-safe :
    (env : Env) (argv : List String)
    → is_harmless env.bins argv ≡ true
    → is_safe env.bins (run_argv env argv).1 ≡ true
unfolding run_argv
run_argv-safe env argv h = elim (Option-cases (env.run_doc argv)) [
  | inl e ↦ rw (run_argv, e) h
  | inr (out, e) ↦ rw (run_argv, e) h
]

line-safe : (env : Env) (s : String) → IsSafeAnswer env.bins (run_bash env (line s))
unfolding run_bash
line-safe env s = elim (Option-cases (allowed_argv env.bins s)) [
  | inl e ↦ rw (run_bash, e) refl
  | inr (argv, e) ↦
      rw (run_bash, e) (run_argv-safe env argv (allowed_argv-harmless env.bins s argv e))
]

run_bash-safe : (env : Env) (c : Command) → IsSafeAnswer env.bins (run_bash env c)
unfolding run_bash
run_bash-safe env other = tt
run_bash-safe env nothing = line-safe env ""
run_bash-safe env (line s) = line-safe env s

ask_prom-safe : (env : Env) (a : PromAnswer) → is_safe env.bins (ask_prom env a).1 ≡ true
unfolding ask_prom
ask_prom-safe env (prom_failure e) = refl
ask_prom-safe env (prom_series out) = refl

execute-safe : (env : Env) (t : ParsedCall) → IsSafeAnswer env.bins (execute env t)
unfolding execute
execute-safe env t =
    let bash = run_bash-safe env t.cmd in
    elim (Option-cases env.prom) [
      | inl e ↦ elim (Bool-cases (t.name == "web_search")) [
        | inl web ↦ rw (execute, e, web) refl
        | inr no_web ↦ rw (execute, e, no_web) bash
      ]
      | inr (ask, e) ↦ elim (Bool-cases (t.name == "promql")) [
        | inl prom ↦ rw (execute, e, prom) (ask_prom-safe env (ask t.query))
        | inr no_prom ↦ elim (Bool-cases (t.name == "web_search")) [
          | inl web ↦ rw (execute, e, no_prom, web) refl
          | inr no_web ↦ rw (execute, e, no_prom, no_web) bash
        ]
      ]
    ]

abbrev pub is_some {ℓ} : {A : Type ℓ} → Option A → Bool
is_some none = false
is_some (some _) = true

-- The statuses of a run that has an answer.
abbrev pub has_answer : ItemStatus → Bool
has_answer answered = true
has_answer truncated = true
has_answer truncated_in_think = false
has_answer context_exhausted = false
has_answer call_limit = false
has_answer error = false

-- What holds of a run that may make `most` calls.
pub record IsItemRun (bins : List String) (most : ℕ) (r : ItemRun) : Type 0 where
  pub bounded : length r.calls ≤ most
  pub limit : r.status ≡ call_limit → length r.calls ≡ most
  pub safe : All (λ c. is_safe bins c.outcome ≡ true) r.calls
  pub answer : is_some r.final ≡ has_answer r.status

ended-IsItemRun :
    (bins : List String) (most : ℕ) (st : ItemStatus) (calls : List CallRecord)
    → length calls ≤ most
    → (st ≡ call_limit → length calls ≡ most)
    → has_answer st ≡ false
    → All (λ c. is_safe bins c.outcome ≡ true) calls
    → IsItemRun bins most (ended st calls)
ended-IsItemRun bins most st calls le limit silent safe = record {
  bounded = le;
  limit = limit;
  safe = safe;
  answer = sym silent;
}

finish-IsItemRun :
    (bins : List String) (most : ℕ) (open_think cut : Bool) (visible : String)
    (calls : List CallRecord)
    → length calls ≤ most
    → All (λ c. is_safe bins c.outcome ≡ true) calls
    → IsItemRun bins most (finish open_think cut visible calls)
finish-IsItemRun bins most true cut visible calls le safe = record {
  bounded = le;
  limit = λ q. ground (arith, q);
  safe = safe;
  answer = refl;
}
finish-IsItemRun bins most false true visible calls le safe = record {
  bounded = le;
  limit = λ q. ground (arith, q);
  safe = safe;
  answer = refl;
}
finish-IsItemRun bins most false false visible calls le safe = record {
  bounded = le;
  limit = λ q. ground (arith, q);
  safe = safe;
  answer = refl;
}

All-snoc {ℓ κ} :
    {A : Type ℓ} (P : A → Type κ) (xs : List A) (x : A) → All P xs → P x → All P (xs ++ (x ∷ []))
All-snoc P [] x h p = (p, tt)
All-snoc P (y ∷ ys) x h p = (h.0, All-snoc P ys x h.1 p)

Exchange-cases :
    (x : Exchange)
    → (x ≡ raises) ⊎ (x ≡ full) ⊎ ((text : String) × (cut : Bool) × (x ≡ completed text cut))
Exchange-cases raises = inl refl
Exchange-cases full = inr (inl refl)
Exchange-cases (completed text cut) = inr (inr (text, cut, refl))

rounds-IsItemRun :
    (env : Env) (model : List ChatMessage → Exchange) (most left : ℕ) (messages : List ChatMessage)
    (calls : List CallRecord)
    → left + length calls ≡ most
    → All (λ c. is_safe env.bins c.outcome ≡ true) calls
    → IsItemRun env.bins most (rounds env model left messages calls)
unfolding rounds
rounds-IsItemRun env model most zero messages calls size safe =
    elim (Exchange-cases (model messages)) [
      | inl e ↦
          rw (rounds, e)
            (ended-IsItemRun env.bins most error calls (omega arith) (λ q. ground (arith, q)) refl
              safe)
      | inr (inl e) ↦
          rw (rounds, e)
            (ended-IsItemRun env.bins most context_exhausted calls (omega arith)
              (λ q. ground (arith, q)) refl safe)
      | inr (inr (text, cut, e)) ↦
          let think = split_think text in
          elim (Option-cases (call_in env think.0)) [
            | inl f ↦
                rw (rounds, e, f)
                  (finish-IsItemRun env.bins most think.1 cut think.0 calls (omega arith) safe)
            | inr (t, f) ↦
                rw (rounds, e, f)
                  (ended-IsItemRun env.bins most call_limit calls (omega arith) (λ q. omega arith)
                    refl safe)
          ]
    ]
rounds-IsItemRun env model most (suc left) messages calls size safe =
    elim (Exchange-cases (model messages)) [
      | inl e ↦
          rw (rounds, e)
            (ended-IsItemRun env.bins most error calls (omega arith) (λ q. ground (arith, q)) refl
              safe)
      | inr (inl e) ↦
          rw (rounds, e)
            (ended-IsItemRun env.bins most context_exhausted calls (omega arith)
              (λ q. ground (arith, q)) refl safe)
      | inr (inr (text, cut, e)) ↦
          let think = split_think text in
          elim (Option-cases (call_in env think.0)) [
            | inl f ↦
                rw (rounds, e, f)
                  (finish-IsItemRun env.bins most think.1 cut think.0 calls (omega arith) safe)
            | inr (t, f) ↦ elim (Option-cases (execute env t)) [
              | inl g ↦
                  rw (rounds, e, f, g)
                    (ended-IsItemRun env.bins most error calls (omega arith)
                      (λ q. ground (arith, q)) refl safe)
              | inr ((result, outcome), g) ↦
                  let ok : is_safe env.bins outcome ≡ true = rw g at (execute-safe env t) in
                  let made : CallRecord = record { call = t; outcome = outcome } in
                  rw (rounds, e, f, g)
                    (rounds-IsItemRun env model most left
                      (messages ++ (assistant t.prefix t ∷ tool result ∷ [])) (calls ++ (made ∷ []))
                      (omega (arith, length-append calls (made ∷ [])))
                      (All-snoc (λ c. is_safe env.bins c.outcome ≡ true) calls made safe ok))
            ]
          ]
    ]

-- Whatever the model writes, an item makes at most `max_calls` calls, every command that is run for
-- it is man with one or two arguments and no option, or a known program that is asked for help, the
-- call limit ends it only after that many calls, and it has a final answer exactly if its status says
-- that it answered or was truncated.
pub run_item-IsItemRun :
    (env : Env) (model : List ChatMessage → Exchange) (question : String)
    → IsItemRun env.bins env.max_calls (run_item env model question)
unfolding run_item
run_item-IsItemRun env model question =
    rounds-IsItemRun env model env.max_calls env.max_calls (user question ∷ []) [] (omega arith) tt
