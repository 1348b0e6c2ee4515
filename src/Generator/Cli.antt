-- ===== src/Generator/Cli.antt =====
-- training/dataset_generator.py: `generate_cli_samples`.
use gpu_lab.Base.{◌<>◌, String, Option, none, some, List, [], ◌∷◌}
use gpu_lab.Base.{◌==◌, string_eq, if◌then◌else◌, take}
use gpu_lab.Base.Text.{has_part}
use gpu_lab.Base.Format.{splitlines, format, lower, rstrip_of}
use gpu_lab.Base.Random.{Random, Draw, pure, or_raise, ◌>>=◌, collect}
use gpu_lab.Generator.Help.{Entry, extract_flags_from_help, get_observation_for_flag}
use gpu_lab.Generator.Specs.{CliSpec}
use gpu_lab.Generator.Traps.{cli_prompt_templates}
use gpu_lab.Generator.Records.{Shell, run_cmd, Trajectory, user, answered, response, bash_call}

abbrev pub clean_desc : String → String
clean_desc desc = lower (rstrip_of "." desc)

abbrev pub grounded_answer : CliSpec → Entry → String
grounded_answer spec e =
    "Based on `"
    <> (spec.help_cmd
        <> ("`, the option is `"
            <> (e.spec
                <> ("`:\n\n> `"
                    <> (e.spec
                        <> ("`: "
                            <> (e.desc
                                <> (".\n\nYou can use this flag with `"
                                    <> (spec.tool_name
                                        <> ("` to " <> (clean_desc e.desc <> ".")))))))))))

abbrev pub cli_trajectory : CliSpec → Entry → String → String → Trajectory
cli_trajectory spec e obs user_prompt = record {
  sample = record {
    type = some "cli_grounded";
    flag = some e.flag;
    tool = some spec.tool_name;
    messages =
        user user_prompt
        ∷ bash_call spec.help_cmd
        ∷ response obs
        ∷ answered (grounded_answer spec e)
        ∷ [];
  };
  command = some spec.help_cmd;
  fake_flag = none;
  query = none;
  search_term = none;
}

-- The question that a template asks about an entry.
abbrev pub cli_prompt : CliSpec → Entry → String → Option String
cli_prompt spec e t =
    format t (("tool", spec.tool_name) ∷ ("desc", clean_desc e.desc) ∷ ("flag", e.flag) ∷ [])

-- The sample of one template drawn.
abbrev pub template_samples :
    {S : Type 0} → CliSpec → Entry → String → String → Draw S (List Trajectory)
template_samples spec e obs t = do
  user_prompt ← or_raise (cli_prompt spec e t)
  pure (cli_trajectory spec e obs user_prompt ∷ [])

module _ (r : Random) (shell : Shell) where
  -- One pass of the loop over the flags of a tool.
  unfoldable pub entry_samples : CliSpec → List String → Entry → Draw r.State (List Trajectory)
  unfolding collect get_observation_for_flag
  entry_samples spec lines e =
      let obs = get_observation_for_flag lines (some e.flag) 80 in
      if has_part e.flag obs
      then r.sample 2 cli_prompt_templates >>= (λ ts. collect (template_samples spec e obs) ts)
      else pure []

  -- The samples of a tool, given its flags: of at most twelve, or none.
  unfoldable pub found_samples : CliSpec → List String → List Entry → Draw r.State (List Trajectory)
  unfolding collect entry_samples
  found_samples spec lines [] = pure []
  found_samples spec lines (e ∷ es) = collect (entry_samples spec lines) (take 12 (e ∷ es))

  -- One pass of the loop over the tools.
  unfoldable pub tool_samples : CliSpec → Draw r.State (List Trajectory)
  unfolding run_cmd found_samples extract_flags_from_help splitlines
  tool_samples spec = elim (run_cmd shell spec.help_cmd) [
    | none ↦ pure []
    | some raw_help ↦
        if raw_help == ""
        then pure []
        else found_samples spec (splitlines raw_help) (extract_flags_from_help raw_help)
  ]

  -- `generate_cli_samples`
  unfoldable pub generate_cli_samples : List CliSpec → Draw r.State (List Trajectory)
  unfolding collect tool_samples
  generate_cli_samples cli_specs = collect tool_samples cli_specs
