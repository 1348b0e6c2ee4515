-- ===== src/DatasetAudit/Samples.antt =====
-- training/audit_dataset.py: the samples, and the gates on one sample.
use Prim.Native.String.{String}
use gpu_lab.Base.{ℕ, Bool, true, false, ◌&&◌, ◌||◌, not}
use gpu_lab.Base.{Option, none, some, List, [], ◌∷◌, ltb, ◌==◌, nat_eq, string_eq}
use gpu_lab.Base.{length}

-- A value that should be a text: missing, a text, or another value, with whether Python takes that
-- for true.
pub data Field : Type 0 where
  missing : Field
  text : String → Field
  other : Bool → Field

-- The arguments of a tool call, read as JSON: no JSON, a number or another value in which nothing
-- can be looked for, a list or a text with whether it has `command` and `query` in it, or an object
-- with what stands under `command` and whether it has `query`.
pub data Arguments : Type 0 where
  invalid : Arguments
  no_object : Arguments
  holder : Bool → Bool → Arguments
  object : Field → Bool → Arguments

pub record Call : Type 0 where
  pub name : Option String
  pub arguments : Arguments

-- The value of `tool_calls`: a list, or another value, with whether a loop over it raises.
pub data Calls : Type 0 where
  calls : List Call → Calls
  no_list : Bool → Calls

pub record Message : Type 0 where
  pub role : Option String
  pub tool_calls : Option Calls
  pub content : Field

pub record Sample : Type 0 where
  pub type : Option String
  pub flag : Option String
  pub tool : Option String
  pub messages : List Message

-- What a gate does: it lets the sample pass, raises DatasetAuditError, or raises something else.
pub data Verdict : Type 0 where
  pass : Verdict
  reject : ℕ → Verdict
  crash : Verdict

-- One check after the other, up to the first that raises.
abbrev pub and_then : Verdict → Verdict → Verdict
and_then pass v = v
and_then (reject n) v = reject n
and_then crash v = crash

abbrev pub require : ℕ → Bool → Verdict
require gate true = pass
require gate false = reject gate

unfoldable pub each {ℓ} : {A : Type ℓ} → (A → Verdict) → List A → Verdict
each f [] = pass
each f (x ∷ xs) = let rest = each f xs in and_then (f x) rest

abbrev pub is_role : Option String → String → Bool
is_role none r = false
is_role (some s) r = s == r

abbrev pub known_role : Option String → Bool
known_role none = false
known_role (some r) = r == "user" || r == "assistant" || r == "tool" || r == "system"

abbrev pub known_tool : Option String → Bool
known_tool none = false
known_tool (some n) = n == "bash" || n == "web_search"

abbrev pub is_missing : Field → Bool
is_missing missing = true
is_missing (text _) = false
is_missing (other _) = false

-- The arguments of a call of a known tool.
unfoldable pub arguments_ok : Option String → Arguments → Verdict
arguments_ok name invalid = reject 2
arguments_ok name no_object = crash
arguments_ok name (holder command query) =
    require 2
      (not (is_role name "bash" && not command) && not (is_role name "web_search" && not query))
arguments_ok name (object command query) = require 2 (
    not (is_role name "bash" && is_missing command) && not (is_role name "web_search" && not query))

unfoldable pub call_ok : Call → Verdict
unfolding arguments_ok
call_ok c = and_then (require 2 (known_tool c.name)) (arguments_ok c.name c.arguments)

unfoldable pub calls_ok : Calls → Verdict
unfolding each call_ok
calls_ok (no_list _) = reject 2
calls_ok (calls cs) = and_then (require 2 (ltb 0 (length cs))) (each call_ok cs)

-- The tool calls of a message, given whether it is an assistant's.
unfoldable pub tool_calls_ok : Bool → Option Calls → Verdict
unfolding calls_ok
tool_calls_ok assistant none = pass
tool_calls_ok assistant (some cs) = and_then (require 2 assistant) (calls_ok cs)

unfoldable pub message_ok : Message → Verdict
unfolding tool_calls_ok
message_ok m =
    and_then (require 2 (known_role m.role))
      (tool_calls_ok (is_role m.role "assistant") m.tool_calls)

-- `audit_schema_and_roles`
unfoldable pub audit_schema_and_roles : Sample → Verdict
unfolding message_ok each
audit_schema_and_roles s =
    and_then (require 2 (ltb 1 (length s.messages))) (each message_ok s.messages)
