-- ===== src/ResearchEval/Score.antt =====
-- bench/research_eval.py, `score`: the answers to questions about flags. What the patterns for prose
-- find in an answer, and the pages that a line names, are arguments.
pub mod Grounded
pub mod Others
use Prim.Native.String.{String}
use gpu_lab.Base.{ℕ, zero, suc, ◌-◌, ◌<>◌, Bool, true, false, ◌&&◌, ◌||◌, not}
use gpu_lab.Base.{Option, none, some, List, [], ◌∷◌, ◌++◌, ltb, leb, if◌then◌else◌, ◌==◌}
use gpu_lab.Base.{nat_eq, string_eq, length, all, any, contains, keep}
use gpu_lab.Base.Text.{starts_with, after_prefix, words, chars}
use gpu_lab.Base.Format.{splitlines, replace}
use gpu_lab.Base.Sorting.{sorted, distinct}
use gpu_lab.ResearchEval.Items.{
  Command, nothing, other, line, ParsedCall, Outcome, executed, queried, CallRecord, ItemRun,
  ItemStatus, answered, truncated,
}
use gpu_lab.ResearchEval.Instructions.{Instruction, instruction_ok}
use gpu_lab.ResearchEval.Tokens.{has_token, grounded_token, flags_at, says}

-- str(args.get("command", "")); a value that Python takes for false names no tool.
abbrev typed : Command → String
typed nothing = ""
typed other = ""
typed (line s) = s

first_word : List String → String
first_word [] = ""
first_word (w ∷ _) = w

-- The words of a command ask for the documentation of `b`.
abbrev pub asks_docs : String → List String → Bool
asks_docs b [] = false
asks_docs b (w ∷ ws) = w == b || (w == "man" && any (λ v. starts_with v b) ws)

-- `looked_up`
unfoldable pub looked_up : String → List CallRecord → Bool
unfolding first_word words
looked_up tool calls =
    any
      (λ c. c.call.name == "bash" && asks_docs (first_word (words tool)) (words (typed c.call.cmd)))
      calls

abbrev pub was_executed : CallRecord → Bool
was_executed c = elim c.outcome [ executed _ ↦ true | queried ↦ true | _ ↦ false ]

abbrev joined_words : List String → String
joined_words [] = ""
joined_words (w ∷ []) = w
joined_words (w ∷ v ∷ vs) = w <> (" " <> joined_words (v ∷ vs))

abbrev all_but_last : List String → List String
all_but_last [] = []
all_but_last (w ∷ []) = []
all_but_last (w ∷ v ∷ vs) = w ∷ all_but_last (v ∷ vs)

-- The answer without the last word of the commands that were run.
unfoldable pub cite_text : String → List CallRecord → String
unfolding replace first_word
cite_text text [] = text
cite_text text (c ∷ cs) = elim c.outcome [
  | executed argv ↦
      let changed = replace (joined_words argv) (joined_words (all_but_last argv)) text in
      if first_word argv == "man" then cite_text text cs else cite_text changed cs
  | _ ↦ cite_text text cs
]

-- What the score takes from elsewhere: the documentation of the tool, the question, the pages that a
-- line names and the spans of a line that a denial covers.
pub record Sources : Type 0 where
  pub doc : String
  pub question : String
  pub pages : String → String
  pub negated : String → List (ℕ × ℕ)

-- base_ref
abbrev pub base_ref : Sources → String
base_ref src = src.doc <> ("\n" <> src.question)

-- A flag that one line cites: whether its reference has it, and whether it stands outside a denial.
pub record Cited : Type 0 where
  pub flag : String
  pub is_grounded : Bool
  pub is_asserted : Bool

abbrev covered : List (ℕ × ℕ) → ℕ → Bool
covered spans pos = any (λ span. leb span.0 pos && ltb pos span.1) spans

cited_at : Sources → String → List (ℕ × String) → List Cited
cited_at src text [] = []
cited_at src text ((pos, flag) ∷ found) =
    record {
      flag = flag;
      is_grounded = grounded_token flag (base_ref src <> src.pages text);
      is_asserted = not (covered (src.negated text) pos);
    }
    ∷ cited_at src text found

cited_in : Sources → List String → List Cited
unfolding cited_at flags_at grounded_token
cited_in src [] = []
cited_in src (l ∷ ls) = cited_at src l (flags_at l) ++ cited_in src ls

-- The flags of an answer, line after line.
unfoldable pub cites : Sources → String → List CallRecord → List Cited
unfolding cited_in cite_text splitlines
cites src final calls = cited_in src (splitlines (cite_text final calls))

abbrev pub asserted_flag : List Cited → String → Bool
asserted_flag cs f = any (λ c. c.flag == f && c.is_asserted) cs

abbrev pub grounded_flag : List Cited → String → Bool
grounded_flag cs f = any (λ c. c.flag == f && c.is_grounded) cs

abbrev pub flags_of : List Cited → List String
flags_of [] = []
flags_of (c ∷ cs) = c.flag ∷ flags_of cs

-- (cited & asserted) - grounded - {fake, "--help"}
abbrev pub is_invented : List Cited → Option String → String → Bool
is_invented cs fake f =
    asserted_flag cs f
    && not (grounded_flag cs f)
    && not ((elim fake [ none ↦ false | some g ↦ f == g ]) || f == "--help")

unfoldable pub ungrounded : List Cited → Option String → List String
unfolding distinct sorted
ungrounded cs fake = sorted (distinct (keep (is_invented cs fake) (flags_of cs)))

abbrev pub is_answered : ItemStatus → Bool
is_answered status = elim status [ answered ↦ true | truncated ↦ true | _ ↦ false ]

abbrev pub final_of : ItemRun → String
final_of run = elim run.final [ none ↦ "" | some t ↦ t ]

-- The score of a question about a flag, as far as it is about the flags of the answer.
pub record FlagScore : Type 0 where
  pub any_call : Bool
  pub n_calls : ℕ
  pub is_answer : Bool
  pub has_looked_up : Bool
  pub claims_unrun_lookup : Bool
  pub cited : List String
  pub invented : List String
  pub grounded : Bool
  pub hit : Bool
  pub hit_and_grounded : Bool

-- The item of such a question.
pub record FlagItem : Type 0 where
  pub tool : String
  pub aliases : List String
  pub fake_flag : Option String
  pub groups : Option (List (List String))

-- Whether the answer names what was asked for: a flag of each group, or one of the aliases.
unfoldable pub names_flag : Sources → FlagItem → String → Bool
unfolding says has_token
names_flag src item final = elim item.groups [
  | none ↦ any (λ x. has_token x final) item.aliases
  | some gs ↦ all (λ g. any (says src.doc final) g) gs
]

-- Of an item with groups, whether the answer also matches the pattern that it expects, if it has one.
abbrev pub as_expected : FlagItem → Option Bool → Bool
as_expected item expect = elim item.groups [
  | none ↦ true
  | some _ ↦ elim expect [ none ↦ true | some found ↦ found ]
]

-- `score` for the kind flag, given whether the answer claims a lookup and whether the pattern that the
-- item expects is found in it.
unfoldable pub score_flag : Sources → FlagItem → ItemRun → Bool → Option Bool → FlagScore
unfolding looked_up cites ungrounded distinct sorted names_flag
score_flag src item run claims expect =
    let final = final_of run in
    let cs = cites src final run.calls in
    let bad = ungrounded cs item.fake_flag in
    let fine = is_answered run.status && length bad == 0 in
    let named = is_answered run.status && names_flag src item final && as_expected item expect in
    record {
      any_call = ltb 0 (length run.calls);
      n_calls = length run.calls;
      is_answer = is_answered run.status;
      has_looked_up = looked_up item.tool run.calls;
      claims_unrun_lookup = not (any was_executed run.calls) && claims;
      cited = sorted (distinct (flags_of cs));
      invented = bad;
      grounded = fine;
      hit = named;
      hit_and_grounded = named && fine;
    }
