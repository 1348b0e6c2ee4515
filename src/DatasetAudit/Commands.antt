-- ===== src/DatasetAudit/Commands.antt =====
-- The tool calls that the schema and the command gate let through.
use gpu_lab.Base.{inl, inr, ◌≡◌, refl, Bool, true, false, ◌||◌, not}
use gpu_lab.Base.{Option, none, some, List, [], arith, ltb, nat_eq, string_eq}
use gpu_lab.Base.{length, All, Bool-cases}
use gpu_lab.DatasetAudit.Samples.{
  missing, text, other, Arguments, invalid, no_object, holder, object, Call,
}
use gpu_lab.DatasetAudit.Samples.{Calls, calls, no_list, pass}
use gpu_lab.DatasetAudit.Samples.{
  require, each, is_role, known_tool, call_ok, calls_ok, arguments_ok, tool_calls_ok,
}
use gpu_lab.DatasetAudit.Gates.{is_command}
use gpu_lab.DatasetAudit.Gates.{bash_ok, command_ok, commands_in}
use gpu_lab.DatasetAudit.Passes.{and_then-pass, require-pass, each-pass, All-map}

-- The calls of a message.
abbrev pub calls_in : Option Calls → List Call
calls_in none = []
calls_in (some (calls xs)) = xs
calls_in (some (no_list _)) = []

-- The arguments have a command that is neither blank nor dangerous.
abbrev pub has_command : Arguments → Bool
has_command invalid = false
has_command no_object = false
has_command (holder _ _) = false
has_command (object missing _) = false
has_command (object (text cmd) _) = is_command cmd
has_command (object (other _) _) = false

abbrev pub is_vetted : Call → Bool
is_vetted c = not (is_role c.name "bash") || has_command c.arguments

bash_ok-has_command : (a : Arguments) → bash_ok a ≡ pass → has_command a ≡ true
unfolding bash_ok
bash_ok-has_command invalid h = ground arith
bash_ok-has_command no_object h = ground arith
bash_ok-has_command (holder c q) h = ground arith
bash_ok-has_command (object missing q) h = ground arith
bash_ok-has_command (object (text cmd) q) h = require-pass 3 (is_command cmd) h
bash_ok-has_command (object (other true) q) h = ground arith
bash_ok-has_command (object (other false) q) h = ground arith

command_ok-vetted : (c : Call) → command_ok c ≡ pass → is_vetted c ≡ true
unfolding command_ok
command_ok-vetted c h = elim (Bool-cases (is_role c.name "bash")) [
  | inl e ↦
      let bash : bash_ok c.arguments ≡ pass = rw (command_ok, e) at h in
      let good = bash_ok-has_command c.arguments bash in rw e good
  | inr e ↦ rw e refl
]

pub commands_in-vetted :
    (cs : Option Calls) → commands_in cs ≡ pass → All (λ c. is_vetted c ≡ true) (calls_in cs)
unfolding commands_in
commands_in-vetted none h = tt
commands_in-vetted (some (calls xs)) h = All-map xs command_ok-vetted (each-pass command_ok xs h)
commands_in-vetted (some (no_list r)) h = tt

pub calls_ok-known :
    (cs : Option Calls) (assistant : Bool)
    → tool_calls_ok assistant cs ≡ pass
    → All (λ c. known_tool c.name ≡ true) (calls_in cs)
unfolding tool_calls_ok calls_ok call_ok
calls_ok-known none a h = tt
calls_ok-known (some (no_list r)) a h = tt
calls_ok-known (some (calls xs)) a h =
    let listed = and_then-pass (require 2 a) (calls_ok (calls xs)) h in
    let some_calls = require 2 (ltb 0 (length xs)) in
    let checked = and_then-pass some_calls (each call_ok xs) listed.1 in
    All-map xs
      (λ c ok.
        let name_ok = require 2 (known_tool c.name) in
        require-pass 2 (known_tool c.name)
          (and_then-pass name_ok (arguments_ok c.name c.arguments) ok).0)
      (each-pass call_ok xs checked.1)
