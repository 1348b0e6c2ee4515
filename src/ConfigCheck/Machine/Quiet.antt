-- ===== src/ConfigCheck/Machine/Quiet.antt =====
-- When the checks of the machine report no failure.
use Prim.Native.String.{String}
use gpu_lab.Base.{ℕ, zero, suc, ◌≡◌, refl, sym, subst, ◌↔◌, arith, Bool, true, false}
use gpu_lab.Base.{Option, none, some, List, [], ◌∷◌, map, all, if◌then◌else◌}
use gpu_lab.Base.Text.{pieces}
use gpu_lab.ConfigCheck.{ok, fail}
use gpu_lab.ConfigCheck.{unit_config}
use gpu_lab.ConfigCheck.Quiet.{IsQuiet, IsQuiet-some}
use gpu_lab.ConfigCheck.Machine.{
  File, absent, unparsed, empty, holds, is_broken, syntax_lines, load_lines, unit_configs,
  unit_lines, fstab_lines, Test, timed_out, ended, test_lines, crate_lines,
}

pub syntax_lines-IsQuiet : (clean : Bool) → IsQuiet (syntax_lines (some clean)) ↔ (clean ≡ true)
unfolding syntax_lines IsQuiet
syntax_lines-IsQuiet true = (λ h. refl, λ h. refl)
syntax_lines-IsQuiet false = (λ h. ground arith, λ h. ground arith)

pub load_lines-IsQuiet {ℓ} :
    {A : Type ℓ} (path : String) (file : File A)
    → IsQuiet (load_lines path file) ↔ (is_broken file ≡ false)
unfolding IsQuiet
load_lines-IsQuiet path absent = (λ h. refl, λ h. refl)
load_lines-IsQuiet path unparsed = (λ h. ground arith, λ h. ground arith)
load_lines-IsQuiet path empty = (λ h. refl, λ h. refl)
load_lines-IsQuiet path (holds a) = (λ h. refl, λ h. refl)

unit_paths-IsQuiet :
    (exists : String → Bool) (paths : List String)
    → IsQuiet (map (λ p. if exists p then ok (unit_config p) else fail (unit_config p)) paths)
      ↔ (all exists paths ≡ true)
unfolding IsQuiet
unit_paths-IsQuiet exists [] = (λ h. refl, λ h. refl)
unit_paths-IsQuiet exists (p ∷ ps) = ground (arith, unit_paths-IsQuiet exists ps)

pub unit_lines-IsQuiet :
    (exists : String → Bool) (unit : Option String)
    → IsQuiet (unit_lines exists unit)
      ↔ ((text : String) → unit ≡ some text → all exists (unit_configs (pieces "\n" text)) ≡ true)
unfolding unit_lines
unit_lines-IsQuiet exists unit =
    IsQuiet-some unit _ (λ text. all exists (unit_configs (pieces "\n" text)) ≡ true)
      (λ text. unit_paths-IsQuiet exists (unit_configs (pieces "\n" text)))

-- A mount that differs only warns.
pub fstab_lines-IsQuiet :
    (address : String → Option String) (node record_text fstab_text : String)
    → IsQuiet (fstab_lines address node record_text fstab_text)
unfolding fstab_lines IsQuiet
fstab_lines-IsQuiet address node record_text fstab_text = ground arith

-- If the crate is there, cargo is found and its test ends, it ends with the status 0.
abbrev pub IsTested : Bool → Option String → (String → Test) → Type 0
IsTested has cargo test =
    has ≡ true
    → (c : String) (status : ℕ) (blob : String) → cargo ≡ some c
    → test c ≡ ended status blob
    → status ≡ 0

test_lines-IsQuiet :
    (t : Test)
    → IsQuiet (test_lines t) ↔ ((status : ℕ) (blob : String) → t ≡ ended status blob → status ≡ 0)
unfolding test_lines IsQuiet
test_lines-IsQuiet timed_out = (λ h n b e. ground (arith, e), λ h. refl)
test_lines-IsQuiet (ended zero blob) = (λ h n b e. ground (arith, e), λ h. refl)
test_lines-IsQuiet (ended (suc n) blob) =
    (λ h. ground (arith, h), λ h. let bad = h (suc n) blob refl in absurd (omega (arith, bad)))

pub crate_lines-IsQuiet :
    (has : Bool) (cargo : Option String) (test : String → Test)
    → IsQuiet (crate_lines has cargo test) ↔ IsTested has cargo test
unfolding crate_lines IsQuiet
crate_lines-IsQuiet false cargo test = (λ h e. ground (arith, e), λ h. refl)
crate_lines-IsQuiet true none test = (λ h e c n b f. ground (arith, f), λ h. refl)
crate_lines-IsQuiet true (some cargo) test =
    let exactly = test_lines-IsQuiet (test cargo) in
    (
      λ h _ c n b f g.
          let same : cargo ≡ c = cc f in
          exactly.0 h n b (subst (λ x. test x ≡ ended n b) (sym same) g),
      λ h. exactly.1 (λ n b g. h refl cargo n b refl g),
    )
