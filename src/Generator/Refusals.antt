-- ===== src/Generator/Refusals.antt =====
-- training/dataset_generator.py: `generate_trap_samples`, `generate_web_samples` and
-- `generate_conversational_replay`.
use gpu_lab.Base.{ℕ, zero, suc, ◌%◌, ◌<>◌, String, Option, none, some, List, [], ◌∷◌, ◌++◌}
use gpu_lab.Base.{◌==◌, string_eq, if◌then◌else◌, take, map, length, get_elem?}
use gpu_lab.Base.Format.{splitlines, join_lines, format}
use gpu_lab.Base.Random.{Random, Draw, pure, or_raise, ◌>>=◌, collect}
use gpu_lab.Generator.Specs.{TrapSpec, WebSpec}
use gpu_lab.Generator.Traps.{trap_prompt_templates}
use gpu_lab.Generator.Records.{
  Shell, run_cmd, Trajectory, user, answered, response, bash_call, search_call,
}

abbrev pub trap_answer : TrapSpec → String
trap_answer spec =
    "I checked `"
    <> (spec.help_cmd
        <> ("` to verify available options. `"
            <> (spec.tool_name
                <> ("` does not have a `"
                    <> (spec.fake_flag
                        <> ("` flag.\n\nThe documentation for `"
                            <> (spec.tool_name
                                <> ("` does not list any `"
                                    <> (spec.fake_flag
                                        <> ("` option. Please run `"
                                            <> (spec.help_cmd
                                                <> "` to see the supported options.")))))))))))

abbrev pub trap_trajectory : TrapSpec → String → String → Trajectory
trap_trajectory spec truncated_help prompt = record {
  sample = record {
    type = some "trap_refusal";
    flag = none;
    tool = some spec.tool_name;
    messages =
        user prompt
        ∷ bash_call spec.help_cmd
        ∷ response truncated_help
        ∷ answered (trap_answer spec)
        ∷ [];
  };
  command = some spec.help_cmd;
  fake_flag = some spec.fake_flag;
  query = none;
  search_term = none;
}

abbrev pub trap_prompt : TrapSpec → String → Option String
trap_prompt spec t =
    format t (
      ("tool", spec.tool_name) ∷ ("fake_flag", spec.fake_flag) ∷ ("fake_desc", spec.fake_desc) ∷ [])

module _ (r : Random) (shell : Shell) where
  -- One pass of the loop over the invented flags.
  unfoldable pub trap_samples : TrapSpec → Draw r.State (List Trajectory)
  unfolding run_cmd splitlines join_lines format
  trap_samples spec = elim (run_cmd shell spec.help_cmd) [
    | none ↦ pure []
    | some raw_help ↦ if raw_help == "" then pure [] else (do
      t ← r.choice trap_prompt_templates
      prompt ← or_raise (trap_prompt spec t)
      pure (trap_trajectory spec (join_lines (take 120 (splitlines raw_help))) prompt ∷ []))
  ]

  -- `generate_trap_samples`
  unfoldable pub generate_trap_samples : List TrapSpec → Draw r.State (List Trajectory)
  unfolding collect trap_samples
  generate_trap_samples trap_specs = collect trap_samples trap_specs

abbrev pub web_trajectory : WebSpec → Trajectory
web_trajectory spec = record {
  sample = record {
    type = some "web_research";
    flag = none;
    tool = none;
    messages = user spec.query ∷ search_call ∷ response spec.snippet ∷ answered spec.answer ∷ [];
  };
  command = none;
  fake_flag = none;
  query = some spec.query;
  search_term = some spec.search_term;
}

-- `generate_web_samples`
unfoldable pub generate_web_samples : List WebSpec → List Trajectory
generate_web_samples web_specs = map web_trajectory web_specs

abbrev pub replay_trajectory : String × String → Trajectory
replay_trajectory (q, a) = record {
  sample = record {
    type = some "conversational_replay";
    flag = none;
    tool = none;
    messages = user q ∷ answered a ∷ [];
  };
  command = none;
  fake_flag = none;
  query = none;
  search_term = none;
}

abbrev pub conversations : List (String × String)
conversations =
    (
      "Hello! Who are you?",
      "Hello! I am a research-focused assistant. I specialize in software engineering, systems administration, and empirical investigation. Whenever an answer depends on specific CLI flags, library APIs, or system configurations, I will verify the documentation rather than guessing from memory.",
    )
    ∷ (
      "Hi there, how can you help me today?",
      "Hi! I can help you with programming, debugging, system administration, and technical architecture. If you need details on specific tools, commands, or documentation, I will look up the current help or specifications to ensure exact accuracy.",
    )
    ∷ (
      "What is your approach to technical questions?",
      "My primary rule is empirical verification: I do not guess or rely on unverified memory for CLI options, code APIs, or version-dependent details. If documentation or command help is available, I inspect it first to provide grounded, citation-backed answers.",
    )
    ∷ (
      "Thank you for your help!",
      "You're very welcome! Let me know if you need to research or inspect any other tools or configurations.",
    )
    ∷ []

-- The sample of the loop's `i`-th pass.
abbrev pub replay_at : ℕ → List Trajectory
replay_at i = elim (get_elem? conversations (i % length conversations)) [
  | none ↦ []
  | some qa ↦ replay_trajectory qa ∷ []
]

-- `generate_conversational_replay`
unfoldable pub generate_conversational_replay : ℕ → List Trajectory
generate_conversational_replay zero = []
generate_conversational_replay (suc n) = generate_conversational_replay n ++ replay_at n
