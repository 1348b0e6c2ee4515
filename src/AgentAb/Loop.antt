-- ===== src/AgentAb/Loop.antt =====
-- bench/agent_ab.py, run_loop: a model asks for commands until it answers. An `Event` is what one
-- round meets; the server, the clock and the sandboxed shell are given by the events.
pub mod Bounds
use gpu_lab.Base.{ℕ, zero, suc, ◌+◌, String, Bool, true, false, ◌&&◌, ◌||◌, not}
use gpu_lab.Base.{
  Option, none, some, List, [], ◌∷◌, ◌++◌, leb, if◌then◌else◌, ◌==◌, nat_eq, string_eq,
}
use gpu_lab.Base.{length}

-- The arguments of a tool call: an exception, no string under `command`, or the command.
pub data Arguments : Type 0 where
  raises : Arguments
  unusable : Arguments
  command : String → Arguments

-- A tool call, with what the sandbox answers if the command is run: `none` if that raises.
pub record ToolCall : Type 0 where
  pub id : Option String
  pub name : String
  pub arguments : Arguments
  pub output : Option String

pub record Reply : Type 0 where
  pub tool_calls : List ToolCall
  pub cut_off : Bool
  pub content : Option String

pub data Event : Type 0 where
  expired : Event
  http_error : ℕ → Bool → Event
  unreachable : Bool → Event
  failed : Event
  replied : Reply → Event

pub data Status : Type 0 where
  answered : Status
  truncated : Status
  timeout : Status
  context_exhausted : Status
  infra : Status
  call_limit : Status
  error : Status

pub data Message : Type 0 where
  user : String → Message
  assistant : Option String → List ToolCall → Message
  tool : String → String → Message

pub data Turn : Type 0 where
  trouble : Turn
  turn : ℕ → Turn

-- The variables of the loop.
pub record State : Type 0 where
  pub calls : List ToolCall
  pub turns : List Turn
  pub messages : List Message

pub record Run : Type 0 where
  pub status : Status
  pub final : String
  pub vars : State

abbrev pub max_calls : ℕ
max_calls = 60

-- The result that a call is answered with, if no exception escapes.
unfoldable pub result_of : ToolCall → Option String
result_of tc = elim tc.arguments [
  | raises ↦ none
  | unusable ↦ some "error: the only tool is bash, called with a string `command`"
  | command c ↦
      if tc.name == "bash"
      then tc.output
      else some "error: the only tool is bash, called with a string `command`"
]

-- calls.append
abbrev pub record_call : State → ToolCall → State
record_call s tc = record s { calls = s.calls ++ (tc ∷ []) }

-- messages.append, with a KeyError for a call without an id.
unfoldable pub record_result : State → Option String → String → Option State
record_result s none out = none
record_result s (some i) out = some (record s { messages = s.messages ++ (tool i out ∷ []) })

-- The calls of one reply in turn, and whether all of them returned.
unfoldable pub batch : State → List ToolCall → State × Bool
batch s [] = (s, true)
batch s (tc ∷ tcs) = elim (result_of tc) [
  | none ↦ (s, false)
  | some out ↦
      let called = record_call s tc in
      elim (record_result called tc.id out) [ none ↦ (called, false) | some t ↦ batch t tcs ]
]

pub data Next : Type 0 where
  stop : Run → Next
  go : State → Next

abbrev pub noted : Turn → State → State
noted t s = record s { turns = s.turns ++ (t ∷ []) }

abbrev text : Option String → String
text none = ""
text (some c) = c

-- A reply, after its turn is noted.
unfoldable pub on_reply : State → Reply → Next
on_reply s r =
    let asked = record s { messages = s.messages ++ (assistant r.content r.tool_calls ∷ []) } in
    let (after, returned) = batch asked r.tool_calls in
    if length r.tool_calls == 0
    then stop (record {
      status = if r.cut_off then truncated else answered;
      final = text r.content;
      vars = s;
    })
    else if leb max_calls (length s.calls)
    then stop (record { status = call_limit; final = ""; vars = s })
    else if returned
    then go after
    else stop (record { status = error; final = ""; vars = noted trouble after })

-- One round of the loop.
unfoldable pub round : State → Event → Next
round s expired = stop (record { status = timeout; final = ""; vars = s })
round s (http_error code context) = stop (record {
  status = if code == 400 && context then context_exhausted else infra;
  final = "";
  vars = noted trouble s;
})
round s (unreachable late) =
    stop (record { status = if late then timeout else infra; final = ""; vars = noted trouble s })
round s failed = stop (record { status = error; final = ""; vars = noted trouble s })
round s (replied r) = on_reply (noted (turn (length r.tool_calls)) s) r

-- The loop, `none` where it still runs after the events.
unfoldable pub loop : State → List Event → Option Run
loop s [] = none
loop s (e ∷ es) = elim (round s e) [ stop r ↦ some r | go t ↦ loop t es ]

-- `run_loop`
unfoldable pub run_loop : String → List Event → Option Run
run_loop prompt es = loop (record { calls = []; turns = []; messages = user prompt ∷ [] }) es
