-- ===== src/ResearchEval/Tokens.antt =====
-- bench/research_eval.py: `has_token`, `grounded_token` and the pattern for a flag.
pub mod Occurs
use Prim.Native.Nat.{ℕ, zero, suc, ◌+◌, ◌-◌}
use Prim.Native.Char.{Char, code}
use Prim.Native.String.{String, [], ◌∷◌, ◌++◌}
use gpu_lab.Base.{List, Bool, true, false, ◌&&◌, ◌||◌, not, Option, none, some, leb}
use gpu_lab.Base.{if◌then◌else◌, ◌==◌, nat_eq, string_eq, any, keep}
use gpu_lab.Base.Text.{is_word, is_digit, after_prefix, first_n, chars}
use gpu_lab.Base.Pattern.{Pattern, Match, class, both, matches, first}

-- [\w-]
abbrev pub in_token : Char → Bool
in_token c = is_word c || code c == 45

-- [A-Za-z]
abbrev is_letter : Char → Bool
is_letter c = let n = code c in (leb 65 n && leb n 90) || (leb 97 n && leb n 122)

-- Nothing that continues a token follows.
abbrev pub token_ends : String → Bool
token_ends [] = true
token_ends (c ∷ s) = not (in_token c)

-- The token stands at the start of the text.
abbrev pub token_here : String → String → Bool
token_here tok s = elim (after_prefix tok s) [ none ↦ false | some rest ↦ token_ends rest ]

-- The search, given whether the character before continues a token.
unfoldable pub token_from : Bool → String → String → Bool
token_from inside tok [] = not inside && token_here tok []
token_from inside tok (c ∷ s) =
    let rest = token_from (in_token c) tok s in (not inside && token_here tok (c ∷ s)) || rest

-- `has_token`
unfoldable pub has_token : String → String → Bool
unfolding token_from
has_token tok text = token_from false tok text

abbrev full_match : Pattern → String → Bool
full_match p s = any (λ m. m.1 == "") (matches p s)

abbrev dash : Pattern
dash = class (λ c. code c == 45) 1 (some 1)

-- -[A-Za-z]\d+ and -[A-Za-z]{2,}
abbrev numbered : Pattern
numbered = both dash (both (class is_letter 1 (some 1)) (class is_digit 1 none))

abbrev bundled : Pattern
bundled = both dash (class is_letter 2 none)

unfoldable pub all_letters : String → String → Bool
unfolding has_token
all_letters [] text = true
all_letters (c ∷ s) text = has_token ("-" ++ (c ∷ [])) text && all_letters s text

abbrev tail : String → String
tail [] = []
tail (c ∷ s) = s

-- `grounded_token`
unfoldable pub grounded_token : String → String → Bool
unfolding has_token all_letters matches first_n
grounded_token tok text =
    if has_token tok text
    then true
    else if full_match numbered tok
    then has_token (first_n 2 tok) text
    else if full_match bundled tok
    then all_letters (tail tok) text
    else false

-- --?[A-Za-z][\w-]*
abbrev flag_pattern : Pattern
flag_pattern =
    both (class (λ c. code c == 45) 1 (some 2))
      (both (class is_letter 1 (some 1)) (class in_token 0 none))

-- [\w/.-]
abbrev blocks_flag : Char → Bool
blocks_flag c = in_token c || code c == 47 || code c == 46

-- The flags from a position on, each with where it starts, given how one matches at the start of a
-- text; `skip` characters belong to the last one.
flags_from : (String → List Match) → ℕ → Bool → ℕ → String → List (ℕ × String)
flags_from found pos blocked skip [] = List.[]
flags_from found pos blocked (suc skip) (c ∷ s) = flags_from found (pos + 1) (blocks_flag c) skip s
flags_from found pos blocked zero (c ∷ s) =
    let apart = flags_from found (pos + 1) (blocks_flag c) 0 s in
    elim (first (found (c ∷ s))) [
      | none ↦ apart
      | some m ↦
          let behind = flags_from found (pos + 1) (blocks_flag c) (chars m.0 - 1) s in
          if blocked then apart else List.◌∷◌ (pos, m.0) behind
    ]

-- FLAG_RE.finditer(line)
unfoldable pub flags_at : String → List (ℕ × String)
unfolding flags_from matches
flags_at line = flags_from (matches flag_pattern) 0 false 0 line

-- -[A-Za-z]
abbrev short_flag : Pattern
short_flag = both dash (class is_letter 1 (some 1))

-- -[A-Za-z]{2,6}(?![\w-])
abbrev combined_flags : String → List Match
unfolding matches
combined_flags s = keep (λ m. token_ends m.1) (matches (both dash (class is_letter 2 (some 6))) s)

has_char : Char → String → Bool
has_char c [] = false
has_char c (d ∷ s) = code c == code d || has_char c s

-- x[1] in t[1:]
abbrev letter_in : String → String → Bool
unfolding has_char
letter_in (_ ∷ (c ∷ _)) (_ ∷ t) = has_char c t
letter_in _ _ = false

-- `says`: the answer has the flag, or a combined flag with its letter of which the tool documents
-- every one.
unfoldable pub says : String → String → String → Bool
unfolding has_token grounded_token flags_from matches has_char
says doc final x =
    has_token x final
    || (full_match short_flag x
        && any (λ t. letter_in x t.1 && grounded_token t.1 doc)
            (flags_from combined_flags 0 false 0 final))
