-- ===== src/Generator/Records.antt =====
-- training/dataset_generator.py: `run_cmd`, and the form of a training sample.
use gpu_lab.Base.{String, ◌<>◌, Bool, true, false, ◌||◌, not, Option, none, some, [], ◌∷◌}
use gpu_lab.Base.{◌==◌, string_eq, if◌then◌else◌}
use gpu_lab.Base.Text.{strip}
use gpu_lab.DatasetAudit.Samples.{missing, text, object, calls, Message, Sample}

-- What a shell returns; the program gets none where it raises or takes too long.
pub record Finished : Type 0 where
  pub succeeded : Bool
  pub stdout : String
  pub stderr : String

abbrev pub Shell : Type 0
Shell = String → Option Finished

-- `run_cmd`
unfoldable pub run_cmd : Shell → String → Option String
run_cmd shell cmd = elim (shell cmd) [
  | none ↦ none
  | some res ↦
      let out = strip (res.stdout <> res.stderr) in
      if res.succeeded || not (out == "") then some out else none
]

-- A training sample: the part that the audit reads, and the other keys.
pub record Trajectory : Type 0 where
  pub sample : Sample
  pub open sample use *
  pub command : Option String
  pub fake_flag : Option String
  pub query : Option String
  pub search_term : Option String

abbrev pub user : String → Message
user t = record { role = some "user"; tool_calls = none; content = text t }

abbrev pub answered : String → Message
answered t = record { role = some "assistant"; tool_calls = none; content = text t }

abbrev pub response : String → Message
response t = record { role = some "tool"; tool_calls = none; content = text t }

abbrev pub bash_call : String → Message
bash_call cmd = record {
  role = some "assistant";
  tool_calls =
      some (calls (record { name = some "bash"; arguments = object (text cmd) false } ∷ []));
  content = missing;
}

abbrev pub search_call : Message
search_call = record {
  role = some "assistant";
  tool_calls =
      some (calls (record { name = some "web_search"; arguments = object missing true } ∷ []));
  content = missing;
}
