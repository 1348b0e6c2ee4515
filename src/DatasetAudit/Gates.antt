-- ===== src/DatasetAudit/Gates.antt =====
-- training/audit_dataset.py: grounding, refusals and commands, and run_full_audit.
use Prim.Native.Char.{Char, code}
use Prim.Native.String.{String}
use gpu_lab.Base.{◌*◌, ◌<>◌, Bool, true, false, ◌&&◌, ◌||◌, not}
use gpu_lab.Base.{
  Option, none, some, List, [], ◌∷◌, ltb, leb, if◌then◌else◌, ◌==◌, nat_eq, string_eq,
}
use gpu_lab.Base.{length, all, any, contains, count_if}
use gpu_lab.Base.Text.{strip, has_part, has_part_lower, is_word}
use gpu_lab.DatasetAudit.Samples.{
  missing, text, other, Arguments, invalid, no_object, holder, object, Call,
}
use gpu_lab.DatasetAudit.Samples.{
  Calls, calls, no_list, Message, Sample, Verdict, pass, reject, crash,
}
use gpu_lab.DatasetAudit.Samples.{and_then, require, each, is_role, audit_schema_and_roles}

-- How far the pattern for a cited flag has matched.
pub data Scan : Type 0 where
  outside : Scan
  tick : Scan
  dash : Scan
  dashes : Scan
  flag : String → Scan

abbrev is_flag_char : Char → Bool
is_flag_char c = is_word c || code c == 45

-- One character of a text, with the flag that it completes.
unfoldable pub scan : Scan → Char → Scan × List String
scan outside c = (if code c == 96 then tick else outside, [])
scan tick c = (if code c == 96 then tick else if code c == 45 then dash else outside, [])
scan dash c = (if code c == 96 then tick else if code c == 45 then dashes else outside, [])
scan dashes c = (
  if code c == 96 then tick else if is_flag_char c then flag ("--" <> String.◌∷◌ c "") else outside,
  [],
)
scan (flag f) c =
    if code c == 96
    then (outside, f ∷ [])
    else if is_flag_char c
    then (flag (f <> String.◌∷◌ c ""), [])
    else (outside, [])

cited_from : Scan → String → List String
unfolding scan
cited_from m String.[] = []
cited_from m (String.◌∷◌ c s) =
    let (n, found) = scan m c in
    let rest = cited_from n s in elim found [ [] ↦ rest | f ∷ _ ↦ f ∷ rest ]

-- re.findall(r"`(--[a-zA-Z0-9_-]+)`", s)
unfoldable pub cited_flags : String → List String
unfolding cited_from
cited_flags s = cited_from outside s

abbrev pub first_where {ℓ} : {A : Type ℓ} → (A → Bool) → List A → Option A
first_where p [] = none
first_where p (x ∷ xs) = let rest = first_where p xs in if p x then some x else rest

abbrev pub last_where {ℓ} : {A : Type ℓ} → (A → Bool) → List A → Option A
last_where p [] = none
last_where p (x ∷ xs) = elim (last_where p xs) [
  | some y ↦ some y
  | none ↦ if p x then some x else none
]

abbrev pub has_calls : Message → Bool
has_calls m = elim m.tool_calls [ none ↦ false | some _ ↦ true ]

abbrev pub is_final : Message → Bool
is_final m = is_role m.role "assistant" && not (has_calls m)

-- The last answer, and the first tool response.
abbrev pub assistant_final : Sample → Option Message
assistant_final s = last_where is_final s.messages

abbrev pub tool_msg : Sample → Option Message
tool_msg s = first_where (λ m. is_role m.role "tool") s.messages

-- m.get("content", "")
abbrev pub content_of : Message → Option String
content_of m = elim m.content [ missing ↦ some "" | text s ↦ some s | other _ ↦ none ]

-- The flag that a sample claims stands in the tool response.
unfoldable pub claim_ok : Option String → Option String → Verdict
claim_ok none tool_text = pass
claim_ok (some f) tool_text =
    if f == "" then pass else (elim tool_text [ none ↦ crash | some t ↦ require 4 (has_part f t) ])

-- So do those that the answer cites.
unfoldable pub cites_ok : List String → Option String → Verdict
cites_ok [] tool_text = pass
cites_ok (f ∷ fs) tool_text = elim tool_text [
  | none ↦ crash
  | some t ↦ require 4 (all (λ k. has_part k t) (f ∷ fs))
]

-- `audit_strict_grounding`
unfoldable pub audit_strict_grounding : Sample → Verdict
unfolding claim_ok cites_ok
audit_strict_grounding s =
    if is_role s.type "cli_grounded"
    then (elim (tool_msg s) [
      | none ↦ reject 4
      | some t ↦ elim (assistant_final s) [
        | none ↦ reject 4
        | some a ↦ and_then (claim_ok s.flag (content_of t)) (elim (content_of a) [
          | none ↦ crash
          | some final_text ↦ cites_ok (cited_flags final_text) (content_of t)
        ])
      ]
    ])
    else pass

abbrev pub refusal_cues : List String
refusal_cues =
    "does not have" ∷ "does not support" ∷ "not list" ∷ "no such" ∷ "not found" ∷ "no `" ∷ []

-- `audit_trap_refusal`
unfoldable pub audit_trap_refusal : Sample → Verdict
audit_trap_refusal s =
    if is_role s.type "trap_refusal"
    then (elim (assistant_final s) [
      | none ↦ reject 5
      | some a ↦ elim (content_of a) [
        | none ↦ crash
        | some final_text ↦ require 5 (any (λ cue. has_part_lower cue final_text) refusal_cues)
      ]
    ])
    else pass

abbrev pub dangerous : List String
dangerous = "rm -rf" ∷ "mkfs" ∷ "dd if=" ∷ "> /dev/sd" ∷ []

abbrev pub is_command : String → Bool
is_command cmd = not (strip cmd == "") && not (any (λ bad. has_part bad cmd) dangerous)

-- The arguments of a call of bash in `audit_empirical_commands`.
unfoldable pub bash_ok : Arguments → Verdict
bash_ok invalid = crash
bash_ok no_object = crash
bash_ok (holder _ _) = crash
bash_ok (object missing query) = reject 3
bash_ok (object (text cmd) query) = require 3 (is_command cmd)
bash_ok (object (other truthy) query) = if truthy then crash else reject 3

unfoldable pub command_ok : Call → Verdict
unfolding bash_ok
command_ok c = if is_role c.name "bash" then bash_ok c.arguments else pass

-- The calls of a message, one after the other.
unfoldable pub commands_in : Option Calls → Verdict
unfolding command_ok each
commands_in none = pass
commands_in (some (calls xs)) = each command_ok xs
commands_in (some (no_list raises)) = if raises then crash else pass

abbrev pub commands_ok : Message → Verdict
commands_ok m = commands_in m.tool_calls

-- `audit_empirical_commands`
unfoldable pub audit_empirical_commands : Sample → Verdict
unfolding commands_in each
audit_empirical_commands s = each commands_ok s.messages

-- The loop over the calls that counts the tools.
unfoldable pub tally : Sample → Verdict
unfolding each
tally s =
    each
      (λ m. elim m.tool_calls [
        | none ↦ pass
        | some cs ↦ elim cs [ calls _ ↦ pass | no_list raises ↦ if raises then crash else pass ]
      ])
      s.messages

-- One sample in the loop of `run_full_audit`.
unfoldable pub audit_sample : Sample → Verdict
unfolding tally audit_schema_and_roles audit_strict_grounding audit_trap_refusal
    audit_empirical_commands
audit_sample s = and_then (tally s) (
    and_then (audit_schema_and_roles s) (
      and_then (audit_strict_grounding s)
        (and_then (audit_trap_refusal s) (audit_empirical_commands s))))

abbrev pub is_technical : Sample → Bool
is_technical s =
    is_role s.type "cli_grounded" || is_role s.type "trap_refusal" || is_role s.type "web_research"

abbrev pub uses_tools : Sample → Bool
uses_tools s = any has_calls s.messages

-- research_rate >= 0.90, where the rate is 0 without technical samples. The division rounds
-- correctly, so for fewer than 2 ** 50 samples it compares as the fraction does.
unfoldable pub rate_ok : List Sample → Bool
rate_ok samples =
    let technical = count_if is_technical samples in
    ltb 0 technical && leb (9 * technical) (10 * count_if uses_tools samples)

-- set(s.get("tool") for s in data if s.get("tool"))
unfoldable pub distinct_tools : List Sample → List String
distinct_tools [] = []
distinct_tools (s ∷ samples) =
    let rest = distinct_tools samples in
    elim s.tool [ none ↦ rest | some t ↦ if t == "" || contains rest t then rest else t ∷ rest ]

-- `run_full_audit`
unfoldable pub run_full_audit : List Sample → Verdict
unfolding audit_sample each rate_ok distinct_tools
run_full_audit samples = and_then (require 0 (leb 50 (length samples))) (
    and_then (each audit_sample samples) (
      and_then (require 1 (rate_ok samples)) (require 6 (leb 8 (length (distinct_tools samples))))))
