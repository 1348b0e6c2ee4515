-- ===== src/ConfigCheck/Machine.antt =====
-- bin/check.py, sections 1, 2, 6, 6b and 7: the syntax of bin/lab, the files that have to parse, the
-- installed unit, the mounts of the laptop and the Rust crate. What bash, YAML, the resolver, cargo
-- and the file system answer is an argument.
pub mod Quiet
use Prim.Native.Char.{Char, code}
use Prim.Native.String.{String}
use gpu_lab.Base.{ℕ, zero, suc, ◌<>◌, Bool, true, false, ◌&&◌, ◌||◌, not, Option, none, some}
use gpu_lab.Base.{List, [], ◌∷◌, ◌++◌, map, if◌then◌else◌, ◌==◌, nat_eq, string_eq}
use gpu_lab.Base.{any, all, keep, length, take, contains}
use gpu_lab.Base.Text.{is_space, strip, lstrip, cut, span, words, starts_with, has_part, pieces}
use gpu_lab.Base.Text.{after_prefix, rstrip}
use gpu_lab.Base.Format.{splitlines}
use gpu_lab.ConfigCheck.{Line, ok, warn, fail}
use gpu_lab.ConfigCheck.{syntax, parses, unit_config, model_mounts, crate, slow_crate}
use gpu_lab.ConfigCheck.{no_cargo, failed_crate}

-- `bash -n` on bin/lab: it is clean or not; none if there is no such file.
unfoldable pub syntax_lines : Option Bool → List Line
syntax_lines none = []
syntax_lines (some true) = ok syntax ∷ []
syntax_lines (some false) = fail syntax ∷ []

-- A file that YAML reads: it is not there, does not parse, is empty, or holds something.
pub data File {ℓ} (A : Type ℓ) : Type ℓ where
  absent : File A
  unparsed : File A
  empty : File A
  holds : A → File A

-- What `load` returns; Python takes an empty file for false, too.
abbrev pub value_of {ℓ} : {A : Type ℓ} → File A → Option A
value_of (holds a) = some a
value_of absent = none
value_of unparsed = none
value_of empty = none

abbrev pub is_broken {ℓ} : {A : Type ℓ} → File A → Bool
is_broken unparsed = true
is_broken _ = false

-- The lines of `load`.
abbrev pub load_lines {ℓ} : {A : Type ℓ} → String → File A → List Line
load_lines path absent = []
load_lines path unparsed = fail (parses path) ∷ []
load_lines path empty = ok (parses path) ∷ []
load_lines path (holds a) = ok (parses path) ∷ []

-- re.search(r"--config\s+(\S+)", line)
abbrev config_here : String → Option String
config_here s = elim (after_prefix "--config" s) [
  | none ↦ none
  | some t ↦
      let (gap, rest) = span is_space t in
      let word = (span (λ c. not (is_space c)) rest).0 in
      if gap == "" || word == "" then none else some word
]

unfoldable pub config_of : String → Option String
unfolding after_prefix span
config_of String.[] = none
config_of (String.◌∷◌ c s) =
    let later = config_of s in
    elim (config_here (String.◌∷◌ c s)) [ none ↦ later | some w ↦ some w ]

-- The configs that the lines of the installed unit name.
unfoldable pub unit_configs : List String → List String
unfolding config_of starts_with
unit_configs [] = []
unit_configs (l ∷ ls) =
    let later = unit_configs ls in
    if starts_with l "ExecStart="
    then elim (config_of l) [ none ↦ later | some path ↦ path ∷ later ]
    else later

-- The check of the installed unit, if there is one.
unfoldable pub unit_lines : (String → Bool) → Option String → List Line
unfolding unit_configs
unit_lines exists unit = elim unit [
  | none ↦ []
  | some text ↦
      map (λ path. if exists path then ok (unit_config path) else fail (unit_config path))
        (unit_configs (pieces "\n" text))
]

-- The first field of a mount, with the host of a server resolved where it can be.
abbrev resolved : (String → Option String) → List String → List String
unfolding cut
resolved address [] = []
resolved address (f ∷ fs) =
    let (host, rest) = cut ":" f in
    elim rest [
      | [] ↦ f ∷ fs
      | path ∷ _ ↦ ((elim (address host) [ none ↦ host | some a ↦ a ]) <> (":" <> path)) ∷ fs
    ]

-- line.split()[1:2] in (["/srv/model-cache"], ["/srv/model-cache-nfs"])
abbrev on_cache : List String → Bool
on_cache (_ ∷ at ∷ _) = at == "/srv/model-cache" || at == "/srv/model-cache-nfs"
on_cache _ = false

-- The mounts of the model cache that a file lists; a comment is none.
unfoldable pub mount_lines : (String → Option String) → List String → List (List String)
unfolding cut words starts_with lstrip
mount_lines address [] = []
mount_lines address (l ∷ ls) =
    let later = mount_lines address ls in
    let fields = words l in
    if on_cache fields && not (starts_with (lstrip l) "#")
    then resolved address fields ∷ later
    else later

unfoldable pub same_fields : List String → List String → Bool
same_fields [] [] = true
same_fields (x ∷ xs) (y ∷ ys) = x == y && same_fields xs ys
same_fields _ _ = false

-- xs - ys, without repetitions.
unfoldable pub only_mounts : List (List String) → List (List String) → List (List String)
unfolding same_fields
only_mounts [] ys = []
only_mounts (x ∷ xs) ys =
    let later = only_mounts xs ys in
    if any (same_fields x) ys || any (same_fields x) later then later else x ∷ later

-- The check of the laptop's mounts against their record: on another node it is left out.
unfoldable pub fstab_lines : (String → Option String) → String → String → String → List Line
unfolding mount_lines only_mounts
fstab_lines address node record_text fstab_text =
    let want = mount_lines address (pieces "\n" record_text) in
    let have = mount_lines address (pieces "\n" fstab_text) in
    let extra = length (only_mounts have want) in
    let lost = length (only_mounts want have) in
    if node == "laptop" || node == "david-Legion-Pro-7-16IAX10H"
    then (if extra == 0 && lost == 0 then ok (model_mounts 0 0) else warn (model_mounts extra lost))
      ∷ []
    else []

-- `find_cargo`: on PATH, or at one of two places.
unfoldable pub find_cargo : Option String → (String → Bool) → String → Option String
find_cargo on_path exists home = elim on_path [
  | some c ↦ some c
  | none ↦
      if exists (home <> "/.cargo/bin/cargo")
      then some (home <> "/.cargo/bin/cargo")
      else if exists "/usr/local/bin/cargo"
      then some "/usr/local/bin/cargo"
      else none
]

-- What `cargo test` does: it is stopped after the budget, or ends with a status and its output.
pub data Test : Type 0 where
  timed_out : Test
  ended : ℕ → String → Test

-- ^error\[[^\]]+\]: .*$, where the code does not run over a line.
abbrev has_code : String → Bool
unfolding after_prefix span
has_code l = elim (after_prefix "error[" l) [
  | none ↦ false
  | some t ↦
      let (name, rest) = span (λ c. not (code c == 93)) t in
      not (name == "") && starts_with rest "]: "
]

-- ^---- (\S+) stdout ----$
abbrev failed_test : String → Option String
unfolding after_prefix span
failed_test l = elim (after_prefix "---- " l) [
  | none ↦ none
  | some t ↦
      let (name, rest) = span (λ c. not (is_space c)) t in
      if not (name == "") && rest == " stdout ----" then some name else none
]

unfoldable pub failed_tests : List String → List String
unfolding after_prefix span
failed_tests [] = []
failed_tests (l ∷ ls) =
    let later = failed_tests ls in
    elim (failed_test l) [ none ↦ later | some t ↦ ("test " <> (t <> " failed")) ∷ later ]

-- The errors without a code, but for the one that sums up.
unfoldable pub plain_errors : List String → List String
unfolding strip starts_with has_part
plain_errors [] = []
plain_errors (l ∷ ls) =
    let later = plain_errors ls in
    if starts_with (strip l) "error:" && not (has_part "could not compile" l)
    then strip l ∷ later
    else later

-- What a failure of cargo names: at most three errors or tests.
unfoldable pub cargo_detail : String → List String
unfolding failed_tests plain_errors after_prefix span starts_with splitlines
cargo_detail blob =
    let ls = pieces "\n" blob in
    let named = keep has_code ls ++ failed_tests ls in
    elim (take 3 (if length named == 0 then plain_errors (splitlines blob) else named)) [
      | [] ↦ "see cargo output" ∷ []
      | d ∷ ds ↦ d ∷ ds
    ]

-- The line of a test.
unfoldable pub test_lines : Test → List Line
unfolding cargo_detail
test_lines timed_out = warn slow_crate ∷ []
test_lines (ended zero blob) = ok crate ∷ []
test_lines (ended (suc n) blob) = fail (failed_crate (cargo_detail blob)) ∷ []

-- The check of one crate: whether its manifest is there, where cargo is, and its test.
unfoldable pub crate_lines : Bool → Option String → (String → Test) → List Line
unfolding test_lines
crate_lines false cargo test = []
crate_lines true none test = warn no_cargo ∷ []
crate_lines true (some cargo) test = test_lines (test cargo)
