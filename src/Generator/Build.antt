-- ===== src/Generator/Build.antt =====
-- training/dataset_generator.py: the domains and `build_full_dataset`.
use gpu_lab.Base.{ℕ, zero, suc, ◌+◌, ◌/◌, String, Option, none, some, List, [], ◌++◌, length}
use gpu_lab.Base.{◌==◌, string_eq, if◌then◌else◌}
use gpu_lab.Base.Random.{Random, Draw, pure, or_raise, ◌>>=◌}
use gpu_lab.Generator.Specs.{CliSpec, TrapSpec, WebSpec, cli_specs, sysdiag_cli_specs}
use gpu_lab.Generator.Traps.{trap_specs, sysdiag_trap_specs}
use gpu_lab.Generator.WebSpecs.{web_specs, sysdiag_web_specs, rust_web_specs}
use gpu_lab.Generator.Records.{Shell, Trajectory}
use gpu_lab.Generator.Cli.{generate_cli_samples}
use gpu_lab.Generator.Refusals.{
  generate_trap_samples, generate_web_samples, generate_conversational_replay,
}
use gpu_lab.Generator.Clippy.{
  Diagnostic, Project, generate_clippy_samples, generate_clippy_trap_samples,
}

-- DOMAINS[domain]
abbrev pub Tables : Type 0
Tables = List CliSpec × List TrapSpec × List WebSpec

abbrev pub domains : String → Option Tables
domains domain =
    if domain == "devtools"
    then some (cli_specs, trap_specs, web_specs)
    else if domain == "sysdiag"
    then some (sysdiag_cli_specs, sysdiag_trap_specs, sysdiag_web_specs)
    else none

-- xs * n
unfoldable pub times {ℓ} : {A : Type ℓ} → ℕ → List A → List A
times zero xs = []
times (suc n) xs = xs ++ times n xs

-- The samples of a dataset before the shuffle, given those of each kind.
unfoldable pub combined : List Trajectory → List Trajectory → List Trajectory → List Trajectory
unfolding times generate_conversational_replay
combined cli_samples trap_samples web_samples =
    cli_samples
    ++ (times 4 trap_samples
        ++ (times 10 web_samples ++ generate_conversational_replay (length cli_samples / 10 + 10)))

-- What the program finds on the machine: its shell, the clippy corpus and the project.
pub record Machine : Type 0 where
  pub shell : Shell
  pub corpus : Option (List Diagnostic)
  pub project : Project

module _ (r : Random) (m : Machine) where
  -- The samples of each kind.
  unfoldable pub domain_samples :
      String → Draw r.State (List Trajectory × List Trajectory × List Trajectory)
  unfolding generate_cli_samples generate_trap_samples generate_web_samples generate_clippy_samples
      generate_clippy_trap_samples
  domain_samples domain =
      if domain == "rust"
      then (do
        cli_samples ← generate_clippy_samples r m.corpus
        trap_samples ← generate_clippy_trap_samples r m.shell m.project
        pure (cli_samples, trap_samples, generate_web_samples rust_web_specs))
      else (do
        tables ← or_raise (domains domain)
        cli_samples ← generate_cli_samples r m.shell tables.0
        trap_samples ← generate_trap_samples r m.shell tables.1
        pure (cli_samples, trap_samples, generate_web_samples tables.2))

  -- `build_full_dataset`
  unfoldable pub build_full_dataset : ℕ → String → Option (List Trajectory)
  unfolding domain_samples combined
  build_full_dataset seed domain = elim (domain_samples domain (r.seeded seed)) [
    | none ↦ none
    | some (kinds, s) ↦ some ((r.shuffle (combined kinds.0 kinds.1 kinds.2) s).0)
  ]
