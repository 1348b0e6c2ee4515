-- ===== src/Training/Augment.antt =====
-- training/augment_research.py: the records that are read and added, and what is read in a man page
-- and in an answer.
pub mod Fallbacks
pub mod Compose
pub mod Answers
pub mod Marks
mod Examples
use Prim.Native.Char.{Char, code}
use Prim.Native.String.{String}
use gpu_lab.Base.{ℕ, zero, suc, ◌-◌, ◌<>◌, Bool, true, false, ◌&&◌, ◌||◌, not}
use gpu_lab.Base.{Option, none, some, List, [], ◌∷◌, ◌++◌, ltb, if◌then◌else◌, ◌==◌, nat_eq}
use gpu_lab.Base.{string_eq, take, drop}
use gpu_lab.Base.Text.{is_space, after_prefix, span}
use gpu_lab.Base.Format.{splitlines, join_lines, rstrip_of}
use gpu_lab.DatasetAudit.Samples.{Message}
use gpu_lab.Generator.Records.{Finished, answered, response}
use gpu_lab.ResearchEval.Items.{after_last}
use gpu_lab.ResearchEval.Tokens.{token_here}

-- A record of the first data set that looks a flag up: `flag` is the invented one in a trap. The
-- messages are the question, the call, what it showed and the answer.
pub record Lookup : Type 0 where
  pub tool : String
  pub flag : String
  pub command : String
  pub question : Message
  pub call : Message
  pub shown : String
  pub answer : String

-- The first data set: records of the types cli_grounded and trap_refusal, and others.
pub data Source : Type 0 where
  cli_grounded : Lookup → Source
  trap_refusal : Lookup → Source
  other_type : List Message → Source

abbrev pub messages_of : Lookup → List Message
messages_of l = l.question ∷ l.call ∷ response l.shown ∷ answered l.answer ∷ []

-- A record that is added. Some have no tool, no flag or no command.
pub record Addition : Type 0 where
  pub type : String
  pub tool : Option String
  pub flag : Option String
  pub flag2 : Option String
  pub fake_flag : Option String
  pub command : Option String
  pub source : Option String
  pub messages : List Message

-- re.sub(r".\x08", "", s)
unfoldable pub plain : String → String
plain String.[] = ""
plain (String.◌∷◌ c String.[]) = String.◌∷◌ c ""
plain (String.◌∷◌ c (String.◌∷◌ d s)) =
    let cut = plain s in
    let kept = String.◌∷◌ c (plain (String.◌∷◌ d s)) in
    if code d == 8 && not (code c == 10) then cut else kept

-- `man_page`, given what man returns.
unfoldable pub man_page : (String → Option Finished) → String → Option String
unfolding plain
man_page man page = elim (man page) [
  | none ↦ none
  | some res ↦ if res.succeeded then some (plain res.stdout) else none
]

-- Where the match of \s*(-\S+,\s+)*FLAG(?![\w-]) is: between the parts, behind the dash of a part,
-- within a part, and behind its comma.
pub data Place : Type 0 where
  between : Place
  dashed : Place
  within : Place
  comma : Place

unfoldable pub defines_at : String → Place → String → Bool
defines_at flag place String.[] = elim place [ between ↦ token_here flag "" | _ ↦ false ]
defines_at flag between (String.◌∷◌ c s) =
    let more = defines_at flag between s in
    let part = defines_at flag dashed s in
    token_here flag (String.◌∷◌ c s) || (is_space c && more) || (code c == 45 && part)
defines_at flag dashed (String.◌∷◌ c s) =
    let more = defines_at flag within s in not (is_space c) && more
defines_at flag within (String.◌∷◌ c s) =
    let more = defines_at flag within s in
    let ended = defines_at flag comma s in (code c == 44 && ended) || (not (is_space c) && more)
defines_at flag comma (String.◌∷◌ c s) = let more = defines_at flag between s in is_space c && more

-- The number of the first line that defines the flag.
unfoldable pub defining_line : String → List String → Option ℕ
unfolding defines_at
defining_line flag [] = none
defining_line flag (l ∷ ls) =
    let later = defining_line flag ls in
    if defines_at flag between l then some 0 else elim later [ none ↦ none | some i ↦ some (suc i) ]

-- `man_window` with its sixty lines.
unfoldable pub man_window : String → String → Option String
unfolding defining_line splitlines join_lines
man_window text flag =
    let lines = splitlines text in
    elim (defining_line flag lines) [
      | none ↦ none
      | some i ↦
          let start = i - 10 in
          let head =
            if ltb 6 start then take 6 lines ++ "... [sections omitted] ..." ∷ [] else [] in
          some (join_lines (head ++ take 60 (drop start lines)))
    ]

abbrev spec_here : String → Option String
unfolding span
spec_here s = elim (after_prefix "the option is `" s) [
  | none ↦ none
  | some t ↦
      let (spec, rest) = span (λ c. not (code c == 96)) t in
      if spec == "" || rest == "" then none else some spec
]

-- `spec_of`
unfoldable pub spec_of : String → Option String
unfolding span after_prefix
spec_of String.[] = none
spec_of (String.◌∷◌ c s) =
    let later = spec_of s in elim (spec_here (String.◌∷◌ c s)) [ none ↦ later | some t ↦ some t ]

-- s.rsplit(sep, 1)[-1]
abbrev pub behind_last : String → String → String
unfolding after_last
behind_last sep s = elim (after_last sep s) [ none ↦ s | some t ↦ t ]

-- What the answer says that the flag is for.
unfoldable pub desc_of : Lookup → String
unfolding after_last rstrip_of
desc_of l = rstrip_of "." (behind_last ("`" <> (l.tool <> "` to ")) l.answer)
