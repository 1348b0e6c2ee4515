-- ===== src/Generator/Domains.antt =====
-- The tables of the domains of help texts.
use gpu_lab.Base.{
  ℕ, ◌≡◌, refl, sym, subst, inl, inr, Bool, true, ◌&&◌, ◌⊎◌, List, [], ◌∷◌, arith, ◌<◌,
}
use gpu_lab.Base.{some, length, All, all, and-true, nat_eq, string_eq, String}
use gpu_lab.Base.Random.{Random}
use gpu_lab.Base.Text.{strip, has_part, starts_with}
use gpu_lab.DatasetAudit.Gates.{is_command}
use gpu_lab.Generator.Specs.{cli_specs, sysdiag_cli_specs}
use gpu_lab.Generator.Traps.{trap_specs, sysdiag_trap_specs}
use gpu_lab.Generator.WebSpecs.{web_specs, sysdiag_web_specs}
use gpu_lab.Generator.Records.{Trajectory}
use gpu_lab.Generator.Build.{Tables, domains, Machine, build_full_dataset}
use gpu_lab.Generator.Built.{IsUsable, IsBuilt, build-IsBuilt}

All-of_all {ℓ} :
    {A : Type ℓ} (p : A → Bool) (xs : List A) → all p xs ≡ true → All (λ x. p x ≡ true) xs
All-of_all p [] h = tt
All-of_all p (x ∷ xs) h = let both = and-true (p x) (all p xs) h in (both.0, All-of_all p xs both.1)

abbrev vetted : Tables → Bool
vetted tables =
    all (λ spec. is_command spec.help_cmd) tables.0
    && all (λ spec. is_command spec.help_cmd) tables.1

devtools_vetted : vetted (cli_specs, trap_specs, web_specs) ≡ true
unfolding strip has_part starts_with string_eq nat_eq
devtools_vetted = refl

sysdiag_vetted : vetted (sysdiag_cli_specs, sysdiag_trap_specs, sysdiag_web_specs) ≡ true
unfolding strip has_part starts_with string_eq nat_eq
sysdiag_vetted = refl

vetted-IsUsable : (tables : Tables) → vetted tables ≡ true → 0 < length tables.2 → IsUsable tables
vetted-IsUsable tables ok web =
    let cli = all (λ spec. is_command spec.help_cmd) tables.0 in
    let trap = all (λ spec. is_command spec.help_cmd) tables.1 in
    let both = and-true cli trap ok in
    record {
      cli_commands = All-of_all (λ spec. is_command spec.help_cmd) tables.0 both.0;
      trap_commands = All-of_all (λ spec. is_command spec.help_cmd) tables.1 both.1;
      web = web;
    }

-- A dataset with the tables from which it is built.
abbrev pub Built : Random → Machine → ℕ → String → Type 0
Built r m seed domain =
    (tables : Tables) × (ds : List Trajectory) × (domains domain ≡ some tables)
    × (build_full_dataset r m seed domain ≡ some ds)
    × IsBuilt m tables ds

-- For the domains devtools and sysdiag, whatever the commands print, the program returns a dataset.
-- In some order, it has two samples for each of the first twelve flags of each help text, four times
-- one for each invented flag whose command prints something, ten times the one of each row for the
-- web, and for the replay a tenth of the first number and ten more. The audit passes each sample, but
-- for a sample of a flag only if its answer cites no flag that the window does not show; the window
-- shows the flag itself. The rate of research passes the first gate.
pub build_full_dataset-IsBuilt :
    (r : Random) (m : Machine) (seed : ℕ) (domain : String)
    → (domain ≡ "devtools") ⊎ (domain ≡ "sysdiag")
    → Built r m seed domain
unfolding string_eq nat_eq
build_full_dataset-IsBuilt r m seed domain (inl e) =
    let tables : Tables = (cli_specs, trap_specs, web_specs) in
    let (ds, run, built) =
      build-IsBuilt r m seed "devtools" tables refl refl
        (vetted-IsUsable tables devtools_vetted (omega arith)) in
    subst (Built r m seed) (sym e) (tables, ds, refl, run, built)
build_full_dataset-IsBuilt r m seed domain (inr e) =
    let tables : Tables = (sysdiag_cli_specs, sysdiag_trap_specs, sysdiag_web_specs) in
    let (ds, run, built) =
      build-IsBuilt r m seed "sysdiag" tables refl refl
        (vetted-IsUsable tables sysdiag_vetted (omega arith)) in
    subst (Built r m seed) (sym e) (tables, ds, refl, run, built)
