-- ===== src/Generator/Built.antt =====
-- What a dataset has that `build_full_dataset` returns.
use Prim.Native.String.{String}
use mathlib.Core.List.{Permᴰ}
use gpu_lab.Base.{ℕ, zero, suc, ◌+◌, ◌*◌, ◌/◌, ◌<◌, ◌≤◌, ◌≡◌, refl, ◌∙◌, ◌⊎◌, inl, inr}
use gpu_lab.Base.{Bool, true, false, some, List, [], ◌∷◌, ◌++◌, map, arith}
use gpu_lab.Base.{◌==◌, nat_eq, string_eq, length, All, count_if, length-append, count_if-append}
use gpu_lab.Base.Alls.{All-imp, All-append}
use gpu_lab.Base.Perms.{All-Perm, count_if-Perm, length-Perm, count_if-same, count_if-map}
use gpu_lab.Base.Random.{Random, ◌>>=◌}
use gpu_lab.Base.Collected.{Counted, Pieces, total}
use gpu_lab.DatasetAudit.Samples.{Sample}
use gpu_lab.DatasetAudit.Gates.{is_command, is_technical, uses_tools, rate_ok}
use gpu_lab.Generator.Specs.{WebSpec}
use gpu_lab.Generator.Records.{Trajectory}
use gpu_lab.Generator.Refusals.{generate_web_samples, generate_conversational_replay}
use gpu_lab.Generator.Judged.{
  IsJudged, IsToolOf, Pieces-IsJudged, entries_used, generate_cli_samples-IsJudged,
}
use gpu_lab.Generator.Passing.{
  Passes, IsTrapOf, Pieces-Passes, has_help, generate_trap_samples-Passes, web_samples-Passes,
  replay-Passes, length-replay,
}
use gpu_lab.Generator.Build.{
  Tables, domains, times, combined, Machine, domain_samples, build_full_dataset,
}

-- The samples of a dataset: those that pass the audit, and those that pass it if the flags that
-- their answer cites are shown.
abbrev pub IsFit : Trajectory → Type 0
IsFit x = Passes x ⊎ IsJudged x

abbrev sample_of : Trajectory → Sample
sample_of x = x.sample

-- What a dataset has that is built from tables.
pub record IsBuilt (m : Machine) (tables : Tables) (ds : List Trajectory) : Type 0 where
  pub cli : List Trajectory
  pub trap : List Trajectory
  -- The samples are these, repeated as `combined` does and with the replay, in some order.
  pub reordered : Permᴰ (combined cli trap (generate_web_samples tables.2)) ds
  -- Two for each of the first twelve flags of each help text, and one for each invented flag whose
  -- command prints something.
  pub flags : Pieces (IsToolOf m.shell) tables.0 cli
  pub traps : Pieces (λ spec. Counted (IsTrapOf spec) (has_help m.shell spec)) tables.1 trap
  pub size :
      let c = total (λ spec. 2 * length (entries_used m.shell spec)) tables.0 in
      let t = total (has_help m.shell) tables.1 in
      length ds ≡ c + 4 * t + 10 * length tables.2 + (c / 10 + 10)
  pub fit : All IsFit ds
  pub rate : rate_ok (map sample_of ds) ≡ true

All-times {κ} :
    (P : Trajectory → Type κ) (n : ℕ) (xs : List Trajectory) → All P xs → All P (times n xs)
unfolding times
All-times P zero xs h = tt
All-times P (suc n) xs h = All-append P xs (times n xs) h (All-times P n xs h)

length-times : (n : ℕ) (xs : List Trajectory) → length (times n xs) ≡ n * length xs
unfolding times
length-times zero xs = omega arith
length-times (suc n) xs = grind (arith, length-append xs (times n xs), length-times n xs)

All-fits : (xs : List Trajectory) → All Passes xs → All IsFit xs
All-fits xs h = All-imp Passes xs (λ x p. inl p) h

combined-IsFit :
    (cli trap web : List Trajectory)
    → All IsJudged cli
    → All Passes trap
    → All Passes web
    → All IsFit (combined cli trap web)
unfolding combined
combined-IsFit cli trap web c t w =
    let replay = generate_conversational_replay (length cli / 10 + 10) in
    All-append IsFit cli (times 4 trap ++ (times 10 web ++ replay))
      (All-imp IsJudged cli (λ x j. inr j) c)
      (All-append IsFit (times 4 trap) (times 10 web ++ replay)
        (All-times IsFit 4 trap (All-fits trap t))
        (All-append IsFit (times 10 web) replay (All-times IsFit 10 web (All-fits web w))
          (All-fits replay (replay-Passes (length cli / 10 + 10)))))

length-combined :
    (cli trap web : List Trajectory)
    → length (combined cli trap web)
      ≡ length cli + 4 * length trap + 10 * length web + (length cli / 10 + 10)
unfolding combined
length-combined cli trap web =
    let replay = generate_conversational_replay (length cli / 10 + 10) in
    omega (
      arith,
      length-append cli (times 4 trap ++ (times 10 web ++ replay)),
      length-append (times 4 trap) (times 10 web ++ replay),
      length-append (times 10 web) replay,
      length-times 4 trap,
      length-times 10 web,
      length-replay (length cli / 10 + 10),
    )

-- A technical sample calls a tool, and another does not.
IsFit-calls : (x : Trajectory) → IsFit x → is_technical x.sample ≡ uses_tools x.sample
unfolding string_eq nat_eq
IsFit-calls x (inl p) = p.1
IsFit-calls x (inr (spec, e, (shown, prompt, same, has, judged))) = rw same refl

times-has :
    (p : Trajectory → Bool) (n : ℕ) (xs : List Trajectory)
    → count_if p xs ≤ count_if p (times (suc n) xs)
unfolding times
times-has p n xs = omega (arith, count_if-append p xs (times n xs))

web_technical :
    (web : List WebSpec)
    → length web ≤ count_if (λ x. is_technical x.sample) (generate_web_samples web)
unfolding generate_web_samples string_eq nat_eq
web_technical [] = omega arith
web_technical (w ∷ web) = omega (arith, web_technical web)

-- Where there is a sample for the web, the combined samples have a technical one.
combined-technical :
    (cli trap : List Trajectory) (web : List WebSpec)
    → length web
      ≤ count_if (λ x. is_technical x.sample) (combined cli trap (generate_web_samples web))
unfolding combined
combined-technical cli trap web =
    let p : Trajectory → Bool = λ x. is_technical x.sample in
    let xs = generate_web_samples web in
    let replay = generate_conversational_replay (length cli / 10 + 10) in
    omega (
      arith,
      web_technical web,
      times-has p 9 xs,
      count_if-append p cli (times 4 trap ++ (times 10 xs ++ replay)),
      count_if-append p (times 4 trap) (times 10 xs ++ replay),
      count_if-append p (times 10 xs) replay,
    )

length-web : (web : List WebSpec) → length (generate_web_samples web) ≡ length web
unfolding generate_web_samples
length-web [] = refl
length-web (w ∷ web) = omega (arith, length-web web)

rate_passes :
    (ds : List Trajectory)
    → All IsFit ds
    → 0 < count_if (λ x. is_technical x.sample) ds
    → rate_ok (map sample_of ds) ≡ true
unfolding rate_ok
rate_passes ds fit some_technical =
    let same =
      count_if-same (λ x. is_technical x.sample) (λ x. uses_tools x.sample) ds
        (All-imp IsFit ds IsFit-calls fit) in
    ground (
      arith,
      same,
      some_technical,
      count_if-map is_technical sample_of ds,
      count_if-map uses_tools sample_of ds,
    )

-- The commands of the tables pass the audit's check, and there is a row for the web.
pub record IsUsable (tables : Tables) : Type 0 where
  pub cli_commands : All (λ spec. is_command spec.help_cmd ≡ true) tables.0
  pub trap_commands : All (λ spec. is_command spec.help_cmd ≡ true) tables.1
  pub web : 0 < length tables.2

module _ (r : Random) (m : Machine) where
  pub build-IsBuilt :
      (seed : ℕ) (domain : String) (tables : Tables)
      → (domain == "rust") ≡ false
      → domains domain ≡ some tables
      → IsUsable tables
      → (ds : List Trajectory) × (build_full_dataset r m seed domain ≡ some ds)
        × IsBuilt m tables ds
  unfolding build_full_dataset domain_samples
  build-IsBuilt seed domain tables other known usable =
      let (cli, s, cli_run, cli_held) =
        generate_cli_samples-IsJudged r m.shell tables.0 (r.seeded seed) usable.cli_commands in
      let (trap, t, trap_run, trap_held) =
        generate_trap_samples-Passes r m.shell tables.1 s usable.trap_commands in
      let cli_count = Pieces-IsJudged r m.shell tables.0 cli cli_held in
      let trap_count = Pieces-Passes r m.shell tables.1 trap trap_held in
      let web = generate_web_samples tables.2 in
      let whole = combined cli trap web in
      let kept = r.shuffle-Perm whole t in
      let ds = (r.shuffle whole t).0 in
      let fit =
        All-Perm IsFit kept
          (combined-IsFit cli trap web cli_count.1 trap_count.1 (web_samples-Passes tables.2)) in
      let technical = combined-technical cli trap tables.2 in
      let kept_technical = count_if-Perm (λ x. is_technical x.sample) kept in
      let found = usable.web in
      (
        ds,
        rw (build_full_dataset, domain_samples, other, known, ◌>>=◌, cli_run, trap_run) refl,
        record {
          cli = cli;
          trap = trap;
          reordered = kept;
          flags = cli_held;
          traps = trap_held;
          size =
              let n = length-combined cli trap web in
              let k = length-Perm kept in
              let c = cli_count.0 in
              let u = trap_count.0 in let w = length-web tables.2 in k ∙ n ∙ rw (c, u, w) refl;
          fit = fit;
          rate = rate_passes ds fit (omega (arith, technical, kept_technical, found));
        },
      )
