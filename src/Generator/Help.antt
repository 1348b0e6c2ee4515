-- ===== src/Generator/Help.antt =====
-- training/dataset_generator.py: `extract_flags_from_help` and `get_observation_for_flag`.
use Prim.Native.Char.{Char, code}
use Prim.Native.String.{String}
use gpu_lab.Base.{ℕ, suc, ◌+◌, ◌-◌, min, max, Bool, ◌&&◌, ◌||◌, not}
use gpu_lab.Base.{
  Option, none, some, List, [], ◌∷◌, ◌++◌, ltb, leb, if◌then◌else◌, ◌==◌, nat_eq, string_eq,
}
use gpu_lab.Base.{take, drop, length}
use gpu_lab.Base.Text.{chars, strip, starts_with, has_part, is_space, is_word}
use gpu_lab.Base.Pattern.{Pattern, nothing, class, both, either, Match, each_of, matches, find_all}
use gpu_lab.Base.Format.{splitlines, join_lines}

abbrev is_dash : Char → Bool
is_dash c = code c == 45

-- [a-zA-Z0-9_-]
abbrev is_flag_char : Char → Bool
is_flag_char c = is_word c || is_dash c

-- [A-Z_-]
abbrev is_upper : Char → Bool
is_upper c = let n = code c in (leb 65 n && leb n 90) || n == 95 || n == 45

abbrev is_char : ℕ → Char → Bool
is_char n c = code c == n

-- -{1,2}[a-zA-Z0-9_-]+
abbrev pub dashed : Pattern
dashed = both (class is_dash 1 (some 2)) (class is_flag_char 1 none)

-- The rest of the pattern for a flag and its argument.
abbrev second_flag : Pattern
second_flag =
    both (class is_space 0 none)
      (both (class (is_char 44) 0 (some 1)) (both (class is_space 0 none) dashed))

abbrev argument : Pattern
argument =
    either
      (both (class is_space 1 none) (
        both (class (is_char 60) 1 (some 1))
          (both (class (λ c. not (is_char 62 c)) 1 none) (class (is_char 62) 1 (some 1)))))
      (both (class is_space 1 none) (class is_upper 1 none))

abbrev pub flag_spec_pattern : Pattern
flag_spec_pattern = both dashed (both (either second_flag nothing) (either argument nothing))

-- The two groups of a match of `flag_pattern` on a line.
abbrev pub spec_then_text : Match → List Match
spec_then_text spec =
    each_of (λ gap. if gap.1 == "" then [] else (spec.0, gap.1) ∷ [])
      (matches (class is_space 2 none) spec.1)

unfoldable pub flag_lines : String → List Match
unfolding each_of matches
flag_lines line =
    each_of (λ indent. each_of spec_then_text (matches flag_spec_pattern indent.1))
      (matches (class is_space 2 (some 6)) line)

-- The first long flag, or the first flag.
unfoldable pub first_long : List String → Option String
first_long [] = none
first_long (f ∷ fs) = let rest = first_long fs in if starts_with f "--" then some f else rest

abbrev pub primary : String → List String → String
primary f fs = elim (first_long (f ∷ fs)) [ none ↦ f | some long ↦ long ]

pub record Entry : Type 0 where
  pub flag : String
  pub spec : String
  pub desc : String

-- What a matched line adds to the results, given the flags in its first group.
abbrev pub entry_of : List String → String → String → List Entry
entry_of [] spec desc = []
entry_of (f ∷ fs) spec desc =
    if ltb 5 (chars desc) then record { flag = primary f fs; spec = spec; desc = desc } ∷ [] else []

-- What the first match of a line, if there is one, adds.
abbrev pub entries_of : List Match → List Entry
entries_of [] = []
entries_of (m ∷ _) = entry_of (find_all dashed (strip m.0)) (strip m.0) (strip m.1)

unfoldable pub line_entries : String → List Entry
unfolding flag_lines first_long strip find_all
line_entries line = entries_of (flag_lines line)

-- The loop over the lines.
unfoldable pub entries_in : List String → List Entry
unfolding line_entries
entries_in [] = []
entries_in (l ∷ ls) = line_entries l ++ entries_in ls

-- `extract_flags_from_help`
unfoldable pub extract_flags_from_help : String → List Entry
unfolding entries_in splitlines
extract_flags_from_help help_text = entries_in (splitlines help_text)

-- The index of the first line with the flag.
unfoldable pub target_idx : String → List String → Option ℕ
target_idx flag [] = none
target_idx flag (l ∷ ls) =
    let rest = target_idx flag ls in
    if has_part flag l then some 0 else (elim rest [ none ↦ none | some i ↦ some (suc i) ])

abbrev pub omitted : String
omitted = "... [flags omitted] ..."

-- lines[start:end]
abbrev pub slice {ℓ} : {A : Type ℓ} → ℕ → ℕ → List A → List A
slice start end xs = drop start (take end xs)

-- The lines of the window around the line with index `i`.
abbrev pub window : List String → ℕ → ℕ → List String
window lines i max_lines =
    let start = max 5 (i - 30) in
    let end = min (length lines) (start + (max_lines - 6)) in
    take 5 lines ++ (omitted ∷ slice start end lines)

-- The lines that `get_observation_for_flag` joins.
unfoldable pub observed_lines : List String → Option String → ℕ → List String
unfolding target_idx
observed_lines lines target_flag max_lines = elim target_flag [
  | none ↦ take max_lines lines
  | some flag ↦
      if flag == "" || leb (length lines) max_lines
      then take max_lines lines
      else (elim (target_idx flag lines) [
        | none ↦ take max_lines lines
        | some i ↦ if ltb i max_lines then take max_lines lines else window lines i max_lines
      ])
]

-- `get_observation_for_flag`
unfoldable pub get_observation_for_flag : List String → Option String → ℕ → String
unfolding observed_lines join_lines
get_observation_for_flag lines target_flag max_lines =
    join_lines (observed_lines lines target_flag max_lines)
