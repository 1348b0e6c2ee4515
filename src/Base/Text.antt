-- ===== src/Base/Text.antt =====
-- The methods of Python's `str` that the program calls, on texts of ASCII characters.
use Prim.Native.Nat.{ℕ, zero, suc, ◌+◌, ◌-◌, ◌*◌}
use mathlib.Core.Option.{Option, none, some}
use Prim.Native.Char.{Char, code}
use Prim.Native.String.{String, [], ◌∷◌}
use mathlib.Core.Bool.{Bool, true, false, ◌&&◌, ◌||◌}
use mathlib.Core.List.{List}
use gpu_lab.Base.Tests.{leb, if◌then◌else◌}
use gpu_lab.Base.Equality.{◌==◌, nat_eq, string_eq}

-- c.isspace(): tab to carriage return, the four separators, and the blank.
abbrev pub is_space : Char → Bool
is_space c = let n = code c in (leb 9 n && leb n 13) || (leb 28 n && leb n 31) || n == 32

-- `\d`
abbrev pub is_digit : Char → Bool
is_digit c = let n = code c in leb 48 n && leb n 57

-- s.startswith(t)
unfoldable pub starts_with : String → String → Bool
starts_with s [] = true
starts_with [] (d ∷ t) = false
starts_with (c ∷ s) (d ∷ t) = code c == code d && starts_with s t

-- t in s
unfoldable pub has_part : String → String → Bool
unfolding starts_with
has_part t [] = starts_with [] t
has_part t (c ∷ s) = starts_with (c ∷ s) t || has_part t s

-- s.lstrip()
unfoldable pub lstrip : String → String
lstrip [] = []
lstrip (c ∷ s) = let rest = lstrip s in if is_space c then rest else c ∷ s

-- s.rstrip(): a blank goes if only blanks follow it.
unfoldable pub rstrip : String → String
rstrip [] = []
rstrip (c ∷ s) =
    let rest = rstrip s in elim rest [ [] ↦ if is_space c then [] else c ∷ [] | d ∷ t ↦ c ∷ d ∷ t ]

-- s.strip()
unfoldable pub strip : String → String
unfolding lstrip rstrip
strip s = rstrip (lstrip s)

-- The text up to the first `sep`, and what follows it, if there is one.
unfoldable pub cut : Char → String → String × List String
cut sep [] = ([], List.[])
cut sep (c ∷ s) =
    let (head, rest) = cut sep s in
    if code c == code sep then ([], List.◌∷◌ s List.[]) else (c ∷ head, rest)

-- s.split(sep)
unfoldable pub split : Char → String → String × List String
split sep [] = ([], List.[])
split sep (c ∷ s) =
    let (head, rest) = split sep s in
    if code c == code sep then ([], List.◌∷◌ head rest) else (c ∷ head, rest)

-- s.split(sep), as a list.
abbrev pub pieces : Char → String → List String
pieces sep s = let (head, rest) = split sep s in List.◌∷◌ head rest

-- The first word of a text, as far as it has been read, and the words behind it.
words_from : String → String × List String
words_from [] = ([], List.[])
words_from (c ∷ s) =
    let (head, rest) = words_from s in
    if is_space c then ([], if head == "" then rest else List.◌∷◌ head rest) else (c ∷ head, rest)

-- s.split()
unfoldable pub words : String → List String
unfolding words_from
words s = let (head, rest) = words_from s in if head == "" then rest else List.◌∷◌ head rest

abbrev lower_code : Char → ℕ
lower_code c = let n = code c in if leb 65 n && leb n 90 then n + 32 else n

-- s.lower() == t
unfoldable pub lower_is : String → String → Bool
lower_is [] [] = true
lower_is [] (d ∷ t) = false
lower_is (c ∷ s) [] = false
lower_is (c ∷ s) (d ∷ t) = lower_code c == code d && lower_is s t

digits_value : ℕ → String → Option ℕ
digits_value n [] = some n
digits_value n (c ∷ s) =
    let rest = digits_value (n * 10 + (code c - 48)) s in if is_digit c then rest else none

-- int(s) for a text of digits; anything else is a ValueError, `none`.
unfoldable pub int_of : String → Option ℕ
unfolding digits_value
int_of s = if s == "" then none else digits_value 0 s

-- s.replace("\n", " ")
unfoldable pub blanked : String → String
blanked [] = []
blanked (c ∷ s) = (if code c == 10 then " " else c) ∷ blanked s

-- The longest prefix of characters that pass, and what follows it: a greedy `[...]*`.
unfoldable pub span : (Char → Bool) → String → String × String
span p [] = ([], [])
span p (c ∷ s) = let (head, rest) = span p s in if p c then (c ∷ head, rest) else ([], c ∷ s)

-- What follows `t` at the start of the text, if it begins with it.
unfoldable pub after_prefix : String → String → Option String
after_prefix [] s = some s
after_prefix (d ∷ t) [] = none
after_prefix (d ∷ t) (c ∷ s) =
    let rest = after_prefix t s in if code c == code d then rest else none

-- `\w`, for ASCII.
abbrev pub is_word : Char → Bool
is_word c =
    let n = code c in is_digit c || (leb 65 n && leb n 90) || (leb 97 n && leb n 122) || n == 95

-- s.lstrip(c), for one character.
unfoldable pub lstrip_of : Char → String → String
lstrip_of d [] = []
lstrip_of d (c ∷ s) = let rest = lstrip_of d s in if code c == code d then rest else c ∷ s

-- What stands before `t`, if the text ends in it.
unfoldable pub cut_suffix : String → String → Option String
cut_suffix t [] = if t == "" then some [] else none
cut_suffix t (c ∷ s) =
    let rest = cut_suffix t s in
    if (c ∷ s) == t then some [] else elim rest [ none ↦ none | some h ↦ some (c ∷ h) ]

-- len(s)
unfoldable pub chars : String → ℕ
chars [] = 0
chars (c ∷ s) = 1 + chars s

-- s[:n]
unfoldable pub first_n : ℕ → String → String
first_n zero s = []
first_n (suc n) [] = []
first_n (suc n) (c ∷ s) = c ∷ first_n n s

unfoldable pub starts_lower : String → String → Bool
starts_lower s [] = true
starts_lower [] (d ∷ t) = false
starts_lower (c ∷ s) (d ∷ t) = lower_code c == code d && starts_lower s t

-- t in s.lower()
unfoldable pub has_part_lower : String → String → Bool
unfolding starts_lower
has_part_lower t [] = starts_lower [] t
has_part_lower t (c ∷ s) = starts_lower (c ∷ s) t || has_part_lower t s
