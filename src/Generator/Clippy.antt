-- ===== src/Generator/Clippy.antt =====
-- training/dataset_generator.py: `generate_clippy_samples` and `generate_clippy_trap_samples`.
use gpu_lab.Base.{◌<>◌, String, Bool, not, Option, none, some, List, [], ◌∷◌, ◌++◌}
use gpu_lab.Base.{string_eq, if◌then◌else◌, take}
use gpu_lab.Base.Dict.{Dict, lookup, insert}
use gpu_lab.Base.Text.{has_part, strip}
use gpu_lab.Base.Format.{format, after_first}
use gpu_lab.Base.Random.{Random, Draw, pure, or_raise, ◌>>=◌, collect}
use gpu_lab.Generator.Records.{Shell, run_cmd, Trajectory, user, answered, response, bash_call}
use gpu_lab.Generator.Traps.{rust_trap_lints}

-- A record of the corpus: its values as an f-string prints them, and none for one that is missing,
-- null or empty.
pub record Diagnostic : Type 0 where
  pub lint : String
  pub message : String
  pub project : String
  pub file : String
  pub line : String
  pub source_line : String
  pub suggestion : Option String
  pub applicability : Option String
  pub doc_url : Option String
  pub rendered : String

-- by_lint.setdefault(rec["lint"], []).append(rec), over the corpus.
unfoldable pub group_onto :
    List Diagnostic → Dict String (List Diagnostic) → Dict String (List Diagnostic)
unfolding lookup insert
group_onto [] by_lint = by_lint
group_onto (d ∷ ds) by_lint =
    let old : List Diagnostic = elim (lookup d.lint by_lint) [ none ↦ [] | some recs ↦ recs ] in
    group_onto ds (insert d.lint (old ++ d ∷ []) by_lint)

abbrev pub ask : List String
ask =
    "What does clippy flag at {file}:{line}?"
    ∷ "Is there anything wrong with the code at {file} line {line}?"
    ∷ "Why is clippy warning about {file}:{line}?"
    ∷ "Run the linter over {file} and tell me what it finds around line {line}." ∷ []

abbrev pub ask_fix : List String
ask_fix =
    "How should I fix the {short} warning in {file}?"
    ∷ "clippy is complaining about {short} in {file} -- what is the fix?"
    ∷ "What change does clippy want for {short} at {file}:{line}?" ∷ []

abbrev pub clippy_cmd : Diagnostic → String
clippy_cmd d = "cd " <> (d.project <> " && cargo clippy 2>&1")

abbrev pub fix_text : Diagnostic → String
fix_text d = elim d.suggestion [
  | none ↦ ""
  | some fix ↦
      "\nclippy suggests replacing it with:\n\n```rust\n"
      <> (strip fix
          <> ("\n```\n" <> (elim d.applicability [
            | none ↦ ""
            | some a ↦
                "\nThe suggestion is marked `"
                <> (a <> "`, so check it rather than applying it blindly.\n")
          ])))
]

abbrev pub clippy_answer : String → Diagnostic → String
clippy_answer lint d =
    "Running clippy over `"
    <> (d.project
        <> ("` reports `"
            <> (lint
                <> ("` at `"
                    <> (d.file
                        <> (":"
                            <> (d.line
                                <> ("`:\n\n> "
                                    <> (d.message
                                        <> ("\n\nThe line it points at is:\n\n```rust\n"
                                            <> (d.source_line
                                                <> ("\n```\n"
                                                    <> (fix_text d <> (elim d.doc_url [
                                                      | none ↦ ""
                                                      | some url ↦
                                                          "\nFull description of the lint: " <> url
                                                    ]))))))))))))))

abbrev pub clippy_trajectory : String → String → Diagnostic → String → Trajectory
clippy_trajectory lint short d prompt = record {
  sample = record {
    type = some "cli_grounded";
    flag = some short;
    tool = some lint;
    messages =
        user prompt
        ∷ bash_call (clippy_cmd d)
        ∷ response d.rendered
        ∷ answered (clippy_answer lint d)
        ∷ [];
  };
  command = some (clippy_cmd d);
  fake_flag = none;
  query = none;
  search_term = none;
}

abbrev pub asks_for : Diagnostic → List String
asks_for d = elim d.suggestion [ none ↦ ask | some _ ↦ ask_fix ]

abbrev pub clippy_prompt : String → Diagnostic → String → Option String
clippy_prompt short d template =
    format template (("file", d.file) ∷ ("line", d.line) ∷ ("short", short) ∷ [])

module _ (r : Random) where
  -- One pass of the loop over the records of a lint.
  unfoldable pub record_samples : String → String → Diagnostic → Draw r.State (List Trajectory)
  record_samples lint short d = do
    template ← r.choice (asks_for d)
    prompt ← or_raise (clippy_prompt short d template)
    pure (clippy_trajectory lint short d prompt ∷ [])

  -- One pass of the loop over the lints.
  unfoldable pub lint_samples : String × List Diagnostic → Draw r.State (List Trajectory)
  unfolding collect record_samples after_first
  lint_samples (lint, recs) = do
    short ← or_raise (after_first "::" lint)
    collect (record_samples lint short) (take 14 recs)

  -- `generate_clippy_samples`, where `none` is a corpus that cannot be read.
  unfoldable pub generate_clippy_samples : Option (List Diagnostic) → Draw r.State (List Trajectory)
  unfolding collect lint_samples group_onto
  generate_clippy_samples none = pure []
  generate_clippy_samples (some corpus) = collect lint_samples (group_onto corpus [])

-- The project asked for lints: its expanded path, its name and whether it has a manifest.
pub record Project : Type 0 where
  pub path : String
  pub basename : String
  pub has_manifest : Bool

abbrev pub lint_prompts : List String
lint_prompts =
    "Does clippy have a `{lint}` lint for {desc}?"
    ∷ "How do I enable `{lint}` in clippy to get {desc}?" ∷ "What does `{lint}` check for?" ∷ []

-- The command that a sample shows, and the one that is run.
abbrev pub lint_cmd : Project → String → String
lint_cmd proj lint =
    "cd " <> (proj.basename <> (" && cargo clippy -- -W " <> (lint <> " 2>&1 | head -5")))

abbrev pub lint_run : Project → String → String
lint_run proj lint =
    "export PATH=\"$HOME/.cargo/bin:$PATH\"; cd "
    <> (proj.path
        <> (" && cargo clippy --message-format=short -- -W " <> (lint <> " 2>&1 | head -5")))

abbrev pub lint_answer : String × String → String
lint_answer (lint, desc) =
    "I asked clippy for `"
    <> (lint
        <> ("` directly and it does not exist:\n\n```\nwarning[E0602]: unknown lint: `"
            <> (lint
                <> ("`\n```\n\nThere is no `"
                    <> (lint
                        <> ("` lint for "
                            <> (desc
                                <> (". Check the lint list at https://rust-lang.github.io/rust-clippy/ "
                                    <> "before relying on a lint name."))))))))

abbrev pub lint_trajectory : Project → String × String → String → String → Trajectory
lint_trajectory proj (lint, desc) out prompt = record {
  sample = record {
    type = some "trap_refusal";
    flag = none;
    tool = some lint;
    messages =
        user prompt
        ∷ bash_call (lint_cmd proj lint)
        ∷ response out
        ∷ answered (lint_answer (lint, desc))
        ∷ [];
  };
  command = some (lint_cmd proj lint);
  fake_flag = none;
  query = none;
  search_term = none;
}

abbrev pub lint_prompt : String × String → String → Option String
lint_prompt (lint, desc) t = format t (("lint", lint) ∷ ("desc", desc) ∷ [])

module _ (r : Random) (shell : Shell) (proj : Project) where
  -- One pass of the loop over the invented lints.
  unfoldable pub lint_trap_samples : String × String → Draw r.State (List Trajectory)
  unfolding run_cmd format
  lint_trap_samples (lint, desc) = elim (run_cmd shell (lint_run proj lint)) [
    | none ↦ pure []
    | some out ↦ if not (has_part "E0602" out) then pure [] else (do
      t ← r.choice lint_prompts
      prompt ← or_raise (lint_prompt (lint, desc) t)
      pure (lint_trajectory proj (lint, desc) out prompt ∷ []))
  ]

  -- `generate_clippy_trap_samples`
  unfoldable pub generate_clippy_trap_samples : Draw r.State (List Trajectory)
  unfolding collect lint_trap_samples
  generate_clippy_trap_samples =
      if proj.has_manifest then collect lint_trap_samples rust_trap_lints else pure []
