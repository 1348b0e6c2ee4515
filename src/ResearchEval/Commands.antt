-- ===== src/ResearchEval/Commands.antt =====
-- bench/research_eval.py, allowed_argv: which commands of a model are run. `shlex.split` of the
-- standard library is written out, for texts of ASCII characters.
pub mod Harmless
use Prim.Native.Char.{Char, code}
use Prim.Native.String.{String}
use gpu_lab.Base.{ℕ, ◌-◌, ◌<>◌, Bool, true, false, ◌&&◌, ◌||◌, not}
use gpu_lab.Base.{
  Option, none, some, List, [], ◌∷◌, ◌++◌, leb, if◌then◌else◌, ◌==◌, nat_eq, string_eq,
}
use gpu_lab.Base.{length, contains}
use gpu_lab.Base.Text.{strip, rstrip, cut_suffix, is_word, is_digit}

-- Where shlex stands: between words, in one, in quotes, or behind a backslash in either.
pub data Lexer : Type 0 where
  between : Lexer
  in_word : Lexer
  in_quotes : Char → Lexer
  escape_word : Lexer
  escape_quotes : Char → Lexer

abbrev is_blank : Char → Bool
is_blank c = let n = code c in n == 32 || n == 9 || n == 10 || n == 13

abbrev is_quote : Char → Bool
is_quote c = code c == 34 || code c == 39

abbrev is_backslash : Char → Bool
is_backslash c = code c == 92

-- What one character does outside quotes: the state, the token and the token that it ends.
unfoldable pub outside : Bool → String → Char → Lexer × String × List String
outside some_token tok c =
    if is_blank c
    then (between, "", if some_token then tok ∷ [] else [])
    else if is_backslash c
    then (escape_word, tok, [])
    else if is_quote c
    then (in_quotes c, tok, [])
    else (in_word, tok <> String.◌∷◌ c "", [])

-- One character of read_token.
unfoldable pub advance : Lexer → String → Char → Lexer × String × List String
unfolding outside
advance between tok c = outside false "" c
advance in_word tok c = outside true tok c
advance (in_quotes q) tok c =
    if code c == code q
    then (in_word, tok, [])
    else if is_backslash c && code q == 34
    then (escape_quotes q, tok, [])
    else (in_quotes q, tok <> String.◌∷◌ c "", [])
advance escape_word tok c = (in_word, tok <> String.◌∷◌ c "", [])
advance (escape_quotes q) tok c = (
  in_quotes q,
  (if is_backslash c || code c == code q then tok else tok <> "\\") <> String.◌∷◌ c "",
  [],
)

abbrev behind {ℓ} : {A : Type ℓ} → List A → Option (List A) → Option (List A)
behind xs none = none
behind xs (some ys) = some (xs ++ ys)

-- The tokens of the rest, `none` for a quotation or an escape that does not end.
unfoldable pub tokens : Lexer → String → String → Option (List String)
unfolding advance
tokens between tok String.[] = some []
tokens in_word tok String.[] = some (tok ∷ [])
tokens (in_quotes q) tok String.[] = none
tokens escape_word tok String.[] = none
tokens (escape_quotes q) tok String.[] = none
tokens m tok (String.◌∷◌ c s) = let (n, t, out) = advance m tok c in behind out (tokens n t s)

-- shlex.split
unfoldable pub shlex_split : String → Option (List String)
unfolding tokens
shlex_split s = tokens between "" s

-- re.sub(r"\s*2>&1\s*$", "", s.strip())
unfoldable pub without_redirect : String → String
unfolding strip
without_redirect s = elim (cut_suffix "2>&1" (strip s)) [ none ↦ strip s | some t ↦ rstrip t ]

unfoldable pub every : (Char → Bool) → String → Bool
every p String.[] = true
every p (String.◌∷◌ c s) = p c && every p s

abbrev is_lower : Char → Bool
is_lower c = let n = code c in leb 97 n && leb n 122

abbrev is_upper : Char → Bool
is_upper c = let n = code c in leb 65 n && leb n 90

-- `[A-Za-z0-9][\w.+-]*`
unfoldable pub is_page : String → Bool
unfolding every
is_page String.[] = false
is_page (String.◌∷◌ c s) =
    (is_lower c || is_upper c || is_digit c)
    && every (λ d. is_word d || code d == 46 || code d == 43 || code d == 45) s

-- s.isdigit()
unfoldable pub is_number : String → Bool
unfolding every
is_number s = not (s == "") && every is_digit s

-- `[a-z][a-z0-9-]*`
unfoldable pub is_subcommand : String → Bool
unfolding every
is_subcommand String.[] = false
is_subcommand (String.◌∷◌ c s) =
    is_lower c && every (λ d. is_lower d || is_digit d || code d == 45) s

abbrev pub is_help : String → Bool
is_help s = s == "--help" || s == "-h"

abbrev pub subcommand_bins : List String
subcommand_bins = "git" ∷ "docker" ∷ "cargo" ∷ "pip" ∷ "podman" ∷ "dnf" ∷ "sssctl" ∷ "ipa" ∷ []

-- The commands that are run: the tests of `allowed_argv` on two words and on three.
unfoldable pub is_allowed : List String → List String → Bool
is_allowed bins (a ∷ b ∷ []) = (a == "man" && is_page b) || (contains bins a && is_help b)
is_allowed bins (a ∷ b ∷ c ∷ []) =
    (a == "man" && is_number b && is_page c)
    || (contains bins a && contains subcommand_bins a && is_subcommand b && is_help c)
is_allowed bins [] = false
is_allowed bins (_ ∷ []) = false
is_allowed bins (_ ∷ _ ∷ _ ∷ _ ∷ _) = false

-- `allowed_argv`
unfoldable pub allowed_argv : List String → String → Option (List String)
allowed_argv bins cmd = elim (shlex_split (without_redirect cmd)) [
  | none ↦ none
  | some argv ↦ if is_allowed bins argv then some argv else none
]
