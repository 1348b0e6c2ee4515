-- ===== src/ResearchEval/Score/Others.antt =====
-- bench/research_eval.py, `score`: the answers to traps, and to questions about a tool that does not
-- exist or about none. What the patterns for prose find is an argument.
use Prim.Native.String.{String}
use gpu_lab.Base.{Bool, false, ◌&&◌, ◌||◌, not}
use gpu_lab.Base.{Option, none, some, ltb}
use gpu_lab.Base.{nat_eq, string_eq, length}
use gpu_lab.ResearchEval.Items.{ItemRun, ItemStatus}
use gpu_lab.ResearchEval.Instructions.{Instruction, instruction_ok}
use gpu_lab.ResearchEval.Tokens.{has_token}
use gpu_lab.ResearchEval.Score.{is_answered, final_of}

-- Whether an answer to a trap denies the flag: its opening yes or no, whether the first sentence with
-- the flag negates, if there is one, or whether the whole denies.
unfoldable pub denied : Option Bool → Option Bool → Bool → Bool
denied (some says_no) first global = says_no
denied none (some negated) global = negated
denied none none global = global

unfoldable pub denied_heuristic : ItemStatus → Option Bool → Option Bool → Bool → Bool
unfolding denied
denied_heuristic status opening first global = is_answered status && denied opening first global

-- The scores of a question that needs no tool: whether it called one, and whether the answer is right,
-- for an item that says what it expects.
pub record PlainScore : Type 0 where
  pub over_trigger : Bool
  pub correct : Option Bool

-- What such an item expects: nothing, a pattern or an instruction.
pub data Expect : Type 0 where
  no_expect : Expect
  pattern : String → Expect
  instruction : Instruction → Expect

-- `score` for the kind no_tool, given whether a text is JSON for a value and whether a pattern is
-- found.
unfoldable pub score_no_tool :
    (String → String → Bool) → (String → String → Bool) → Expect → ItemRun → PlainScore
unfolding instruction_ok
score_no_tool json_is finds no_expect run = record {
  over_trigger = ltb 0 (length run.calls);
  correct = none;
}
score_no_tool json_is finds (pattern p) run = record {
  over_trigger = ltb 0 (length run.calls);
  correct = some (finds p (final_of run));
}
score_no_tool json_is finds (instruction i) run = record {
  over_trigger = ltb 0 (length run.calls);
  correct = some (is_answered run.status && instruction_ok json_is finds i (final_of run));
}

-- The scores of a question about a tool that does not exist.
pub record TrapScore : Type 0 where
  pub noticed : Bool
  pub flag_denied_only : Bool
  pub fabricated : Bool

-- Whether the real tool, if there is one, is named.
abbrev pub names_real : Option String → String → Bool
unfolding has_token
names_real none final = false
names_real (some real) final = has_token real final

-- `score` for the kind trap3, given whether the answer says that the tool was not found, and whether
-- it denies as a whole or in its first sentence with the flag.
unfoldable pub score_trap3 : Option String → String → ItemRun → Bool → Bool → Bool → TrapScore
unfolding has_token
score_trap3 real fake run not_found global first =
    let final = final_of run in
    let seen = is_answered run.status && (not_found || names_real real final) in
    let rejected = global || first in
    record {
      noticed = seen;
      flag_denied_only = is_answered run.status && not seen && rejected;
      fabricated = is_answered run.status && not seen && not rejected && has_token fake final;
    }
