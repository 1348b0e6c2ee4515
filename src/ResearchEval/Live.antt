-- ===== src/ResearchEval/Live.antt =====
-- bench/research_eval.py: `score_live` and `score_alert`. What Prometheus measured, promtool and the
-- patterns for prose are arguments.
use Prim.Native.String.{String}
use gpu_lab.Base.{Bool, true, false, ◌&&◌, not}
use gpu_lab.Base.{Option, none, some, List, [], ◌∷◌, ltb, if◌then◌else◌, ◌==◌, nat_eq}
use gpu_lab.Base.{string_eq, length, any, all}
use gpu_lab.Base.Format.{lower}
use gpu_lab.ResearchEval.Items.{queried, CallRecord}
use gpu_lab.ResearchEval.Tokens.{has_token}

-- The kinds of a question about the machine as it is now.
pub data LiveKind : Type 0 where
  number : LiveKind
  jobs : LiveKind
  yesno : LiveKind
  nodata : LiveKind

-- What was measured and what stands in the answer: for a number the numbers of both and when two are
-- close; for jobs their names; for yes or no whether the first value is above zero, the opening, and
-- whether a sentence denies or claims; whether there is a truth, and whether the answer says that
-- there is no data.
pub record Measured (V : Type 0) : Type 0 where
  pub values : List V
  pub nums : List V
  pub close : V → V → Bool
  pub names : List String
  pub above_zero : Bool
  pub opening : Option Bool
  pub denies : Bool
  pub claims : Bool
  pub has_truth : Bool
  pub said_nodata : Bool

pub record LiveScore : Type 0 where
  pub used_promql : Bool
  pub correct : Bool
  pub invented_value : Bool

abbrev pub asked_prometheus : CallRecord → Bool
asked_prometheus c = c.call.name == "promql" && (elim c.outcome [ queried ↦ true | _ ↦ false ])

-- What an answer to a question for yes or no says.
abbrev pub said : Option Bool → Bool → Bool → Option Bool
said (some agrees) denies claims = some agrees
said none denies claims = if denies then some false else if claims then some true else none

abbrev pub known_jobs : List String
known_jobs = "llama-swap" ∷ "vllm" ∷ "gpu" ∷ "prometheus" ∷ "node" ∷ "litellm" ∷ []

-- A name in any case, with neither a word character nor a dash beside it.
abbrev pub names_job : String → String → Bool
unfolding has_token lower
names_job final job = has_token (lower job) (lower final)

-- `score_live`, given whether the item was answered and its final answer.
unfoldable pub score_live :
    {V : Type 0} → LiveKind → Measured V → List CallRecord → Bool → String → LiveScore
unfolding has_token lower
score_live number f calls answered final =
    let used = any asked_prometheus calls in
    record {
      used_promql = used;
      correct = answered && any (λ v. any (λ t. f.close v t) f.values) f.nums;
      invented_value = answered && ltb 0 (length f.nums) && not used;
    }
score_live jobs f calls answered final =
    let used = any asked_prometheus calls in
    record {
      used_promql = used;
      correct = answered && ltb 0 (length f.names) && all (names_job final) f.names;
      invented_value = answered && not used && any (names_job final) known_jobs;
    }
score_live yesno f calls answered final =
    let used = any asked_prometheus calls in
    elim (said f.opening f.denies f.claims) [
      | none ↦ record { used_promql = used; correct = false; invented_value = false }
      | some agrees ↦ record {
        used_promql = used;
        correct = answered && (if agrees then f.above_zero else not f.above_zero);
        invented_value = answered && not used;
      }
    ]
score_live nodata f calls answered final = record {
  used_promql = any asked_prometheus calls;
  correct = answered && not f.has_truth && f.said_nodata;
  invented_value = answered && ltb 0 (length f.nums) && not f.said_nodata;
}

-- One check of an alert: when, whether it should fire, whether it did, and whether promtool failed for
-- another reason.
pub record AlertCheck : Type 0 where
  pub at : String
  pub want : Bool
  pub fired : Bool
  pub failed : Bool

pub record AlertScore : Type 0 where
  pub valid : Bool
  pub correct : Bool
  pub checks : List AlertCheck

-- What promtool does with the rules at a time: it succeeds, or fails and names the alert or not.
pub record Tried : Type 0 where
  pub succeeded : Bool
  pub names_alert : Bool

unfoldable pub alert_checks : (String → Tried) → List (String × Bool) → List AlertCheck
alert_checks tries [] = []
alert_checks tries ((at, want) ∷ cs) =
    let t = tries at in
    let fired = not t.succeeded && t.names_alert in
    record { at = at; want = want; fired = fired; failed = not t.succeeded && not fired }
    ∷ alert_checks tries cs

-- `score_alert`, given the rules that the answer has, whether they are valid, and promtool.
unfoldable pub score_alert :
    {R : Type 0} → Option R → (R → Bool) → (R → String → Tried) → List (String × Bool) → AlertScore
unfolding alert_checks
score_alert none valid tries cs = record { valid = false; correct = false; checks = [] }
score_alert (some rules) valid tries cs =
    let checks = alert_checks (tries rules) cs in
    if valid rules
    then record {
      valid = true;
      correct = all (λ c. (if c.fired then c.want else not c.want) && not c.failed) checks;
      checks = checks;
    }
    else record { valid = false; correct = false; checks = [] }
