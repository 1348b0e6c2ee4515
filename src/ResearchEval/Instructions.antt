-- ===== src/ResearchEval/Instructions.antt =====
-- bench/research_eval.py: `instruction_ok`. The reading of JSON and the search for a pattern are
-- arguments.
use Prim.Native.Char.{Char, code}
use Prim.Native.String.{String}
use gpu_lab.Base.{ℕ, zero, suc, ◌-◌, Bool, true, false, ◌&&◌, ◌||◌, not}
use gpu_lab.Base.{none, some, List, [], ◌∷◌, ltb, leb, if◌then◌else◌, ◌==◌, nat_eq}
use gpu_lab.Base.{string_eq, length, keep}
use gpu_lab.Base.Text.{is_space, is_digit, is_word, strip, has_part, after_prefix, chars}
use gpu_lab.Base.Format.{splitlines, lower}
use gpu_lab.Base.Pattern.{Pattern, class, both, either, matches, first, find_all}

-- What an item without a tool asks of its answer.
pub data Instruction : Type 0 where
  words : ℕ → Instruction
  max_words : ℕ → Instruction
  exact : String → Instruction
  exact_i : String → Instruction
  bullets : ℕ → Instruction
  json : String → Instruction
  contains_i : String → Instruction
  contains_part : String → Instruction
  regex : String → Instruction
  lower_with : String → Instruction
  count : String → ℕ → Instruction
  sentences : ℕ → Instruction

-- ^```\w*\n?
abbrev fence : Pattern
fence =
    both (class (λ c. code c == 96) 3 (some 3))
      (both (class is_word 0 none) (class (λ c. code c == 10) 0 (some 1)))

abbrev without_opening : String → String
unfolding matches
without_opening s = elim (first (matches fence s)) [ none ↦ s | some m ↦ m.1 ]

-- Without \n?``` at the end.
without_closing : String → String
without_closing String.[] = ""
without_closing (String.◌∷◌ c s) =
    let whole = String.◌∷◌ c s in
    let kept = String.◌∷◌ c (without_closing s) in
    if whole == "\n```" || whole == "```" then "" else kept

-- The answer without a code fence around it.
unfoldable pub bare_of : String → String
unfolding matches without_closing strip
bare_of final = strip (without_closing (without_opening (strip final)))

-- s.strip(" \t\n.!\"'*")
abbrev is_trimmed : Char → Bool
is_trimmed c =
    let n = code c in
    n == 32 || n == 9 || n == 10 || n == 46 || n == 33 || n == 34 || n == 39 || n == 42

trimmed_left : String → String
trimmed_left String.[] = ""
trimmed_left (String.◌∷◌ c s) =
    let rest = trimmed_left s in if is_trimmed c then rest else String.◌∷◌ c s

trimmed_right : String → String
trimmed_right String.[] = ""
trimmed_right (String.◌∷◌ c s) =
    let rest = trimmed_right s in if rest == "" && is_trimmed c then "" else String.◌∷◌ c rest

unfoldable pub plain_of : String → String
unfolding trimmed_left trimmed_right
plain_of bare = trimmed_right (trimmed_left bare)

-- [A-Za-z0-9'-]+
abbrev in_word : Char → Bool
in_word c =
    let n = code c in
    is_digit c || (leb 65 n && leb n 90) || (leb 97 n && leb n 122) || n == 39 || n == 45

-- \s*([-*•]|\d+[.)])\s+\S
abbrev bullet : Pattern
bullet = both (class is_space 0 none) (
    both
      (either (class (λ c. code c == 45 || code c == 42 || code c == 8226) 1 (some 1))
        (both (class is_digit 1 none) (class (λ c. code c == 46 || code c == 41) 1 (some 1))))
      (both (class is_space 1 none) (class (λ c. not (is_space c)) 1 (some 1))))

-- re.split(r"(?<=[.!?])\s+", s), as the first part and the others: whether the character before ends
-- a sentence, and whether it belongs to the separator.
parts_from : Bool → Bool → String → String × List String
parts_from stop gap String.[] = ("", [])
parts_from stop gap (String.◌∷◌ c s) =
    let n = code c in
    let (here, others) = parts_from (n == 46 || n == 33 || n == 63) false s in
    let (later, rest) = parts_from false true s in
    if is_space c && gap
    then (later, rest)
    else if is_space c && stop
    then ("", later ∷ rest)
    else (String.◌∷◌ c here, others)

unfoldable pub sentence_parts : String → List String
unfolding parts_from
sentence_parts s = let (head, others) = parts_from false false s in head ∷ others

-- s.count(t), where the first `skip` characters belong to the occurrence before.
count_from : String → ℕ → String → ℕ
count_from t skip String.[] = 0
count_from t (suc skip) (String.◌∷◌ c s) = count_from t skip s
count_from t zero (String.◌∷◌ c s) =
    let apart = count_from t 0 s in
    let here = count_from t (chars t - 1) s in
    elim (after_prefix t (String.◌∷◌ c s)) [ none ↦ apart | some _ ↦ suc here ]

-- `instruction_ok`, given whether a text is JSON for a value and whether a pattern is found.
unfoldable pub instruction_ok :
    (String → String → Bool) → (String → String → Bool) → Instruction → String → Bool
unfolding bare_of plain_of find_all matches splitlines sentence_parts count_from lower has_part
    strip
instruction_ok json_is finds check final =
    let bare = bare_of final in
    let plain = plain_of bare in
    let count_words = length (find_all (class in_word 1 none) bare) in
    elim check [
      | words n ↦ count_words == n
      | max_words n ↦ ltb 0 count_words && leb count_words n
      | exact t ↦ plain == t
      | exact_i t ↦ lower plain == t
      | bullets n ↦ length (keep (λ l. ltb 0 (length (matches bullet l))) (splitlines bare)) == n
      | json t ↦ json_is bare t
      | contains_i t ↦ has_part (lower t) (lower bare)
      | contains_part t ↦ has_part t bare
      | regex p ↦ finds p bare
      | lower_with t ↦ bare == lower bare && has_part t bare
      | count t n ↦ count_from t 0 bare == n
      | sentences n ↦ length (keep (λ x. not (strip x == "")) (sentence_parts bare)) == n
    ]
