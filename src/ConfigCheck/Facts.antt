-- ===== src/ConfigCheck/Facts.antt =====
-- What bin/check.py reads out of the text of bin/lab: the hosts, and the ports and names of the
-- pool and of the agent model.
pub mod Read
use Prim.Native.Char.{Char, code}
use Prim.Native.String.{[], ◌∷◌}
use gpu_lab.Base.{String, ◌<>◌, Bool, true, ◌||◌, not, Option, none, some, List}
use gpu_lab.Base.{◌==◌, string_eq, nat_eq, contains, length, if◌then◌else◌}
use gpu_lab.Base.Text.{span, after_prefix, is_digit, is_word, is_space, pieces}
use gpu_lab.ConfigCheck.{Line, fail, no_hosts, no_pool, no_agent}
use mathlib.Core.List

pub record Facts : Type 0 where
  pub desktop_host : Option String
  pub laptop_host : Option String
  pub pool_port : Option String
  pub pool_name : Option String
  pub agent_port : Option String
  pub agent_names : List String

-- The first answer that a line of the file gives.
first_line : (String → Option String) → List String → Option String
first_line f List.[] = none
first_line f (List.◌∷◌ l ls) =
    let rest = first_line f ls in elim (f l) [ some v ↦ some v | none ↦ rest ]

filled : String → Option String
filled s = if s == "" then none else some s

-- `[\w.-]`
abbrev in_value : Char → Bool
in_value c = is_word c || code c == 46 || code c == 45

-- re.search(rf"^{name}=([\w.-]+)", lab_src, re.M)
value_in : String → String → Option String
unfolding filled
value_in name line = elim (after_prefix (name <> "=") line) [
  | none ↦ none
  | some rest ↦ filled (span in_value rest).0
]

pub lab_var : String → String → Option String
unfolding first_line value_in
lab_var lab_src name = first_line (value_in name) (pieces "\n" lab_src)

-- re.search(r"^NAME=(\d+)$", lab_src, re.M)
number_in : String → String → Option String
unfolding filled
number_in name line = elim (after_prefix (name <> "=") line) [
  | none ↦ none
  | some rest ↦
      let (digits, tail) = span is_digit rest in if tail == "" then filled digits else none
]

-- re.search(T + r"(\S+)", s): the first place where `T` stands before a word.
word_after : String → String → Option String
unfolding filled
word_after t [] = none
word_after t (c ∷ s) =
    let later = word_after t s in
    elim (after_prefix t (c ∷ s)) [
      | none ↦ later
      | some rest ↦ elim (filled (span (λ d. not (is_space d)) rest).0) [
        | some w ↦ some w
        | none ↦ later
      ]
    ]

add_name : Option String → List String → List String
add_name none names = names
add_name (some n) names = if contains names n then names else List.◌∷◌ n names

-- The facts, from the text of bin/lab.
unfoldable pub read_facts : String → Facts
unfolding lab_var number_in word_after add_name
read_facts src = record {
  desktop_host = lab_var src "DESKTOP_HOST";
  laptop_host = lab_var src "LAPTOP_HOST";
  pool_port = first_line (number_in "POOL_PORT") (pieces "\n" src);
  pool_name = word_after "--served-model-name $POOL_MODEL " src;
  agent_port = first_line (number_in "AGENT_PORT") (pieces "\n" src);
  agent_names =
      add_name (lab_var src "AGENT_NAME") (add_name (lab_var src "AGENT_LORA_NAME") List.[]);
}

missing : Option String → Bool
missing none = true
missing (some s) = s == ""

-- The failures that stop the gate where a fact could not be read.
unfoldable pub facts_lines : Facts → List Line
unfolding missing
facts_lines f =
    let hosts =
      if missing f.desktop_host || missing f.laptop_host
      then List.◌∷◌ (fail no_hosts) List.[]
      else List.[] in
    let pool =
      if missing f.pool_port || missing f.pool_name
      then List.◌∷◌ (fail no_pool) List.[]
      else List.[] in
    let agent =
      if missing f.agent_port || not (length f.agent_names == 2)
      then List.◌∷◌ (fail no_agent) List.[]
      else List.[] in
    List.◌++◌ hosts (List.◌++◌ pool agent)
