-- ===== src/Base/Format.antt =====
-- Lines of a text, texts put together, and `str.format`.
use Prim.Native.Nat.{ℕ, zero, suc, ◌-◌, ◌/◌, ◌%◌}
use Prim.Native.Char.{Char, code}
use Prim.Native.String.{String, [], ◌∷◌, ◌++◌}
use mathlib.Core.Bool.{Bool, false, ◌&&◌, ◌||◌}
use mathlib.Core.Option.{Option, none, some}
use mathlib.Core.List.{List}
use gpu_lab.Base.Tests.{leb, if◌then◌else◌}
use gpu_lab.Base.Text.{after_prefix, chars}
use gpu_lab.Base.Equality.{◌==◌, nat_eq, string_eq}

-- A character that ends a line.
abbrev pub is_break : Char → Bool
is_break c = let n = code c in (leb 10 n && leb n 13) || (leb 28 n && leb n 30)

abbrev line_list : Option (String × List String) → List String
line_list none = List.[]
line_list (some l) = List.◌∷◌ l.0 l.1

abbrev longer_line : Char → Option (String × List String) → String × List String
longer_line c none = (c ∷ [], List.[])
longer_line c (some l) = (c ∷ l.0, l.1)

-- The first line of a text and the lines behind it, if anything is left; `cr` says that the
-- character before was a carriage return, which ends one line together with a line feed.
lines_from : Bool → String → Option (String × List String)
lines_from cr [] = none
lines_from cr (c ∷ s) =
    let behind = lines_from (code c == 13) s in
    let rest = lines_from false s in
    if cr && code c == 10
    then rest
    else if is_break c
    then some ([], line_list behind)
    else some (longer_line c rest)

-- s.splitlines()
unfoldable pub splitlines : String → List String
unfolding lines_from
splitlines s = line_list (lines_from false s)

-- "\n".join(lines)
unfoldable pub join_lines : List String → String
join_lines List.[] = []
join_lines (List.◌∷◌ l ls) =
    let rest = join_lines ls in elim ls [ List.[] ↦ l | List.◌∷◌ _ _ ↦ l ++ ("\n" ++ rest) ]

-- s.replace(a, b), for one character.
unfoldable pub replaced : Char → Char → String → String
replaced a b [] = []
replaced a b (c ∷ s) = (if code c == code a then b else c) ∷ replaced a b s

-- The value of a field in braces; a name that has none is a KeyError.
abbrev pub Fields : Type 0
Fields = List (String × String)

abbrev pub field_of : Fields → String → Option String
field_of List.[] name = none
field_of (List.◌∷◌ f fs) name =
    let rest = field_of fs name in if f.0 == name then some f.1 else rest

-- What stands in a template: plain text, or the name of a field.
pub data Piece : Type 0 where
  plain : Char → Piece
  field : String → Piece

-- `open` is the name that has been read since the last brace.
pieces_from : Option String → String → List Piece
pieces_from inside [] = List.[]
pieces_from none (c ∷ s) =
    let name = pieces_from (some []) s in
    let rest = pieces_from none s in if code c == 123 then name else List.◌∷◌ (plain c) rest
pieces_from (some name) (c ∷ s) =
    let more = pieces_from (some (name ++ (c ∷ []))) s in
    let rest = pieces_from none s in if code c == 125 then List.◌∷◌ (field name) rest else more

filled : Fields → List Piece → Option String
filled fs List.[] = some []
filled fs (List.◌∷◌ (plain c) ps) = elim (filled fs ps) [ none ↦ none | some t ↦ some (c ∷ t) ]
filled fs (List.◌∷◌ (field name) ps) = elim (field_of fs name) [
  | none ↦ none
  | some v ↦ elim (filled fs ps) [ none ↦ none | some t ↦ some (v ++ t) ]
]

-- template.format(**fields), for templates with plain fields and no doubled brace.
unfoldable pub format : String → Fields → Option String
unfolding pieces_from filled
format template fs = filled fs (pieces_from none template)

lower_in : String → String → Char → Char
lower_in [] lowers c = c
lower_in (a ∷ uppers) [] c = c
lower_in (a ∷ uppers) (b ∷ lowers) c =
    let rest = lower_in uppers lowers c in if code a == code c then b else rest

-- s.lower()
unfoldable pub lower : String → String
unfolding lower_in
lower [] = []
lower (c ∷ s) = lower_in "ABCDEFGHIJKLMNOPQRSTUVWXYZ" "abcdefghijklmnopqrstuvwxyz" c ∷ lower s

-- s.rstrip(d), for one character.
unfoldable pub rstrip_of : Char → String → String
rstrip_of d [] = []
rstrip_of d (c ∷ s) =
    let rest = rstrip_of d s in
    elim rest [ [] ↦ if code c == code d then [] else c ∷ [] | e ∷ t ↦ c ∷ e ∷ t ]

-- s.split(sep, 1)[1]; a text without the separator is an IndexError, `none`.
unfoldable pub after_first : String → String → Option String
after_first sep [] = after_prefix sep []
after_first sep (c ∷ s) =
    let rest = after_first sep s in
    elim (after_prefix sep (c ∷ s)) [ none ↦ rest | some t ↦ some t ]

nth_char : String → ℕ → String
nth_char [] n = []
nth_char (c ∷ s) zero = c ∷ []
nth_char (c ∷ s) (suc n) = nth_char s n

abbrev digit : ℕ → String
unfolding nth_char
digit n = nth_char "0123456789" n

-- On fuel above the number, which is divided by ten each time.
digits_from : ℕ → ℕ → String
unfolding nth_char
digits_from zero n = []
digits_from (suc fuel) n =
    let higher = digits_from fuel (n / 10) in if leb 10 n then higher ++ digit (n % 10) else digit n

-- str(n)
unfoldable pub str_of : ℕ → String
unfolding digits_from
str_of n = digits_from (suc n) n

-- `skip` characters belong to the part that was replaced last.
replace_from : String → String → ℕ → String → String
replace_from old new skip [] = []
replace_from old new (suc skip) (c ∷ s) = replace_from old new skip s
replace_from old new zero (c ∷ s) =
    let kept = c ∷ replace_from old new 0 s in
    let changed = new ++ replace_from old new (chars old - 1) s in
    elim (after_prefix old (c ∷ s)) [ none ↦ kept | some _ ↦ changed ]

-- s.replace(old, new), for a part that is not empty.
unfoldable pub replace : String → String → String → String
unfolding replace_from
replace old new s = replace_from old new 0 s
