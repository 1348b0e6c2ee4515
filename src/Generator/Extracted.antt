-- ===== src/Generator/Extracted.antt =====
-- Where the flags that `extract_flags_from_help` finds stand in the help text.
use Prim.Native.Char.{Char}
use text.Mathlib.TextLemmas.{nil-append, cons-append}
use Prim.Native.String.{String}
use gpu_lab.Base.{◌<◌, ◌<>◌, ◌≡◌, subst, ap, ◌∙◌, inl, inr, Bool, true, false}
use gpu_lab.Base.{none, some, List, [], ◌∷◌, arith, ltb, if◌then◌else◌, ◌==◌, nat_eq, string_eq}
use gpu_lab.Base.{All, any, Bool-cases, Option-cases}
use gpu_lab.Base.Text.{chars, strip, lstrip, rstrip, starts_with, has_part, is_space}
use gpu_lab.Base.Pattern.{Match, class, each_of, matches, find_all}
use gpu_lab.Base.Parts.{
  IsPart, IsPart-refl, IsPart-trans, IsPart-cons, IsPart-prefix, IsPart-suffix,
}
use gpu_lab.Base.Parts.{has_part-of_IsPart}
use gpu_lab.Base.Alls.{All-append, All-imp, All-each_of}
use gpu_lab.Base.Matched.{matches-Splits, find_all-IsPart}
use gpu_lab.Base.Format.{splitlines}
use gpu_lab.Generator.Help.{
  dashed, flag_spec_pattern, spec_then_text, flag_lines, first_long, primary, Entry, entry_of,
  entries_of, line_entries, entries_in, extract_flags_from_help,
}

-- A text without its leading, and without its trailing, blanks is a part of it.
lstrip-IsPart : (s : String) → IsPart (lstrip s) s
unfolding lstrip
lstrip-IsPart String.[] = IsPart-refl ""
lstrip-IsPart (String.◌∷◌ c s) = elim (Bool-cases (is_space c)) [
  | inl e ↦ rw (lstrip, e) (IsPart-cons c (lstrip s) s (lstrip-IsPart s))
  | inr e ↦ rw (lstrip, e) (IsPart-refl (String.◌∷◌ c s))
]

rstrip_step :
    (c : Char) (t b s : String)
    → t <> b ≡ s
    → (d : String) × ((elim t [
      | String.[] ↦ if is_space c then String.[] else String.◌∷◌ c String.[]
      | String.◌∷◌ e u ↦ String.◌∷◌ c (String.◌∷◌ e u)
    ])
          <> d
        ≡ String.◌∷◌ c s)
rstrip_step c String.[] b s h = elim (Bool-cases (is_space c)) [
  | inl e ↦ rw e (String.◌∷◌ c s, nil-append (String.◌∷◌ c s))
  | inr e ↦ rw e (b, cons-append c "" b ∙ ap (λ x. String.◌∷◌ c x) h)
]
rstrip_step c (String.◌∷◌ e u) b s h =
    (b, cons-append c (String.◌∷◌ e u) b ∙ ap (λ x. String.◌∷◌ c x) h)

rstrip-left : (s : String) → (b : String) × (rstrip s <> b ≡ s)
unfolding rstrip
rstrip-left String.[] = ("", nil-append "")
rstrip-left (String.◌∷◌ c s) = let (b, e) = rstrip-left s in rstrip_step c (rstrip s) b s e

strip-IsPart : (s : String) → IsPart (strip s) s
unfolding strip
strip-IsPart s =
    let (b, e) = rstrip-left (lstrip s) in
    IsPart-trans (rstrip (lstrip s)) (lstrip s) s (IsPart-prefix (rstrip (lstrip s)) b (lstrip s) e)
      (lstrip-IsPart s)

flag_lines-IsPart : (line : String) → All (λ m. IsPart m.0 line) (flag_lines line)
unfolding flag_lines
flag_lines-IsPart line =
    All-each_of (λ m. IsPart m.0 line)
      (λ indent. each_of spec_then_text (matches flag_spec_pattern indent.1))
      (matches (class is_space 2 (some 6)) line)
      (λ indent e.
        All-each_of (λ m. IsPart m.0 line) spec_then_text (matches flag_spec_pattern indent.1)
          (λ spec f.
            All-each_of (λ m. IsPart m.0 line)
              (λ gap. if gap.1 == "" then [] else (spec.0, gap.1) ∷ [])
              (matches (class is_space 2 none) spec.1)
              (λ gap _.
                kept (gap.1 == "") (spec.0, gap.1) line
                  (IsPart-trans spec.0 indent.1 line (IsPart-prefix spec.0 spec.1 indent.1 f)
                    (IsPart-suffix indent.0 indent.1 line e)))
              (matches-Splits (class is_space 2 none) spec.1))
          (matches-Splits flag_spec_pattern indent.1))
      (matches-Splits (class is_space 2 (some 6)) line)
  where
    kept :
        (b : Bool) (m : Match) (l : String)
        → IsPart m.0 l
        → All (λ n. IsPart n.0 l) (if b then [] else m ∷ [])
    kept true m l h = tt
    kept false m l h = (h, tt)

first_long-All {κ} :
    (P : String → Type κ) (fs : List String) (f : String) → first_long fs ≡ some f → All P fs → P f
unfolding first_long
first_long-All P [] f e h = ground arith
first_long-All P (g ∷ gs) f e h = elim (Bool-cases (starts_with g "--")) [
  | inl long ↦
      let same : some g ≡ some f = rw (first_long, long) at e in
      let s : g ≡ f = cc same in subst P s h.0
  | inr short ↦ first_long-All P gs f (rw (first_long, short) at e) h.1
]

primary-All {κ} :
    (P : String → Type κ) (f : String) (fs : List String) → All P (f ∷ fs) → P (primary f fs)
primary-All P f fs h = elim (Option-cases (first_long (f ∷ fs))) [
  | inl e ↦ rw (primary, e) h.0
  | inr (long, e) ↦ rw (primary, e) (first_long-All P (f ∷ fs) long e h)
]

-- What an entry has: its flag stands in its line, and its text is longer than five characters.
abbrev pub IsFrom : String → Entry → Type 0
IsFrom line e = IsPart e.flag line × (5 < chars e.desc)

entry_of-IsFrom :
    (flags : List String) (spec desc line : String)
    → All (λ f. IsPart f spec) flags
    → IsPart spec line
    → All (IsFrom line) (entry_of flags spec desc)
entry_of-IsFrom [] spec desc line hs h = tt
entry_of-IsFrom (f ∷ fs) spec desc line hs h =
    let flag = primary f fs in
    let part = IsPart-trans flag spec line (primary-All (λ g. IsPart g spec) f fs hs) h in
    elim (Bool-cases (ltb 5 (chars desc))) [
      | inl e ↦ rw e ((part, ground arith), tt)
      | inr e ↦ rw e tt
    ]

entries_of-IsFrom :
    (ms : List Match) (line : String)
    → All (λ m. IsPart m.0 line) ms
    → All (IsFrom line) (entries_of ms)
entries_of-IsFrom [] line h = tt
entries_of-IsFrom (m ∷ ms) line h =
    let spec = strip m.0 in
    entry_of-IsFrom (find_all dashed spec) spec (strip m.1) line (find_all-IsPart dashed spec)
      (IsPart-trans spec m.0 line (strip-IsPart m.0) h.0)

line_entries-IsFrom : (line : String) → All (IsFrom line) (line_entries line)
unfolding line_entries
line_entries-IsFrom line = entries_of-IsFrom (flag_lines line) line (flag_lines-IsPart line)

-- Every entry has a flag that stands in a line, and a text of more than five characters.
abbrev pub IsShown : List String → Entry → Type 0
IsShown lines e = (any (λ l. has_part e.flag l) lines ≡ true) × (5 < chars e.desc)

pub entries_in-IsShown : (lines : List String) → All (IsShown lines) (entries_in lines)
unfolding entries_in
entries_in-IsShown [] = tt
entries_in-IsShown (l ∷ ls) =
    All-append (IsShown (l ∷ ls)) (line_entries l) (entries_in ls)
      (All-imp (IsFrom l) (line_entries l)
        (λ e h. let here = has_part-of_IsPart e.flag l h.0 in (ground arith, h.1))
        (line_entries-IsFrom l))
      (All-imp (IsShown ls) (entries_in ls) (λ e h. let there = h.0 in (ground arith, h.1))
        (entries_in-IsShown ls))

pub extract_flags_from_help-IsShown :
    (text : String) → All (IsShown (splitlines text)) (extract_flags_from_help text)
unfolding extract_flags_from_help
extract_flags_from_help-IsShown text = entries_in-IsShown (splitlines text)
