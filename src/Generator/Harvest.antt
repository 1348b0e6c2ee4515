-- ===== src/Generator/Harvest.antt =====
-- training/clippy_harvest.py: `extract`, which keeps the diagnostics of clippy for the corpus, and
-- the lines of its output that hold one.
use gpu_lab.Base.{String, Bool, ◌&&◌, ◌||◌, not, Option, none, some, List, [], ◌∷◌, ◌++◌}
use gpu_lab.Base.{◌==◌, string_eq, if◌then◌else◌, keep}
use gpu_lab.Base.Text.{starts_with, has_part, strip, rstrip}
use gpu_lab.Base.Pattern.{first}
use gpu_lab.Base.Format.{after_first}
use gpu_lab.Generator.Clippy.{Diagnostic}

-- A span of a message of the compiler; a key that is missing or null is empty, or none.
pub record Span : Type 0 where
  pub is_primary : Bool
  pub file_name : String
  pub line_start : String
  pub text : List String
  pub suggested_replacement : Option String
  pub suggestion_applicability : Option String

pub record Child : Type 0 where
  pub message : String
  pub spans : List Span

pub record CompilerMessage : Type 0 where
  pub code : String
  pub message : String
  pub rendered : String
  pub spans : List Span
  pub children : List Child

-- A line of the output: none if it is not JSON, or the reason with the message.
abbrev pub OutputLine : Type 0
OutputLine = Option (String × CompilerMessage)

-- The loop over the output of `run_clippy`; a run that takes too long has none.
unfoldable pub compiler_messages : List OutputLine → List CompilerMessage
compiler_messages [] = []
compiler_messages (none ∷ ls) = compiler_messages ls
compiler_messages (some (reason, m) ∷ ls) =
    let rest = compiler_messages ls in if reason == "compiler-message" then m ∷ rest else rest

unfoldable pub run_clippy : Option (List OutputLine) → List CompilerMessage
unfolding compiler_messages
run_clippy none = []
run_clippy (some stdout) = compiler_messages stdout

abbrev first_text : List String → String
first_text [] = ""
first_text (t ∷ _) = t

-- The first replacement that is not empty.
abbrev replacement_in : List Span → Option String
replacement_in [] = none
replacement_in (s ∷ ss) =
    let rest = replacement_in ss in
    elim s.suggested_replacement [ none ↦ rest | some t ↦ if t == "" then rest else some t ]

unfoldable pub suggestion_of : List Child → Option String
suggestion_of [] = none
suggestion_of (c ∷ cs) =
    let rest = suggestion_of cs in elim (replacement_in c.spans) [ none ↦ rest | some t ↦ some t ]

-- The address in the first child that names one; `none` is an IndexError.
unfoldable pub doc_url_of : List Child → Option (Option String)
unfolding starts_with after_first strip
doc_url_of [] = some none
doc_url_of (c ∷ cs) =
    let rest = doc_url_of cs in
    if starts_with c.message "for further information visit"
    then (elim (after_first "visit " c.message) [
      | none ↦ none
      | some url ↦ some (some (strip url))
    ])
    else rest

abbrev pub elsewhere : String → Bool
elsewhere file_name = has_part "/.cargo/registry/" file_name || starts_with file_name "/"

abbrev pub diagnostic : String → CompilerMessage → Span → Option String → Diagnostic
diagnostic project_name m span doc_url = record {
  lint = m.code;
  message = m.message;
  project = project_name;
  file = span.file_name;
  line = span.line_start;
  source_line = strip (first_text span.text);
  suggestion = suggestion_of m.children;
  applicability = span.suggestion_applicability;
  doc_url = doc_url;
  rendered = rstrip m.rendered;
}

-- What a message with a span outside the registry adds; `none` is an exception.
unfoldable pub kept_record : String → CompilerMessage → Span → Option (List Diagnostic)
unfolding after_first has_part suggestion_of doc_url_of
kept_record project_name m span = elim (after_first "::" m.code) [
  | none ↦ none
  | some short ↦
      if not (has_part short m.rendered) && not (has_part m.code m.rendered)
      then some []
      else (elim (doc_url_of m.children) [
        | none ↦ none
        | some doc_url ↦ some (diagnostic project_name m span doc_url ∷ [])
      ])
]

-- One pass of the loop over the messages.
unfoldable pub records_of : String → CompilerMessage → Option (List Diagnostic)
unfolding kept_record
records_of project_name m =
    if not (starts_with m.code "clippy::")
    then some []
    else (elim (first (keep (λ s. s.is_primary) m.spans)) [
      | none ↦ some []
      | some span ↦
          if m.rendered == "" || elsewhere span.file_name
          then some []
          else kept_record project_name m span
    ])

-- `extract`
unfoldable pub extract : List CompilerMessage → String → Option (List Diagnostic)
unfolding records_of
extract [] project_name = some []
extract (m ∷ ms) project_name = elim (records_of project_name m) [
  | none ↦ none
  | some ds ↦ elim (extract ms project_name) [ none ↦ none | some more ↦ some (ds ++ more) ]
]
