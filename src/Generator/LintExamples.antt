-- ===== src/Generator/LintExamples.antt =====
-- A message of clippy, the corpus that has it and the sample built from it.
use gpu_lab.Base.{◌≡◌, refl, subst, [], ◌∷◌, String, some, none, true, keep, ◌==◌}
use gpu_lab.Base.{nat_eq, string_eq}
use gpu_lab.Base.Text.{has_part, starts_with, strip, rstrip, after_prefix}
use gpu_lab.Base.Format.{after_first}
use gpu_lab.Base.Trimmed.{IsSolid}
use gpu_lab.Base.Random.{Returns}
use gpu_lab.Base.Collected.{Pieces}
use gpu_lab.DatasetAudit.Gates.{is_command}
use gpu_lab.Generator.Draws.{first_draws}
use gpu_lab.Generator.Clippy.{Diagnostic, clippy_cmd, group_onto, generate_clippy_samples}
use gpu_lab.Generator.Harvest.{Span, CompilerMessage, extract}
use gpu_lab.Generator.Grouped.{under, group_onto-refines}
use gpu_lab.Generator.Lints.{IsLintOf, generate_clippy_samples-extract}

abbrev span : Span
span = record {
  is_primary = true;
  file_name = "src/main.rs";
  line_start = "7";
  text = "    return x;" ∷ [];
  suggested_replacement = none;
  suggestion_applicability = none;
}

abbrev message : CompilerMessage
message = record {
  code = "clippy::needless_return";
  message = "unneeded `return` statement";
  rendered = "warning: unneeded `return`\n = help: #needless_return\n\n";
  spans = span ∷ [];
  children =
      record { message = "for further information visit https://rust/needless_return"; spans = [] }
      ∷ [];
}

abbrev kept : Diagnostic
kept = record {
  lint = "clippy::needless_return";
  message = "unneeded `return` statement";
  project = "snake-rs";
  file = "src/main.rs";
  line = "7";
  source_line = "return x;";
  suggestion = none;
  applicability = none;
  doc_url = some "https://rust/needless_return";
  rendered = "warning: unneeded `return`\n = help: #needless_return";
}

message_kept : extract (message ∷ []) "snake-rs" ≡ some (kept ∷ [])
unfolding extract nat_eq string_eq after_prefix
message_kept = refl

name-IsSolid :
    (short : String) → after_first "::" "clippy::needless_return" ≡ some short → IsSolid short
unfolding after_first after_prefix rstrip nat_eq
name-IsSolid short h =
    let e : "needless_return" ≡ short = cc h in subst IsSolid e ((λ bad. cc bad), refl)

command_is_vetted : is_command (clippy_cmd kept) ≡ true
unfolding strip has_part starts_with string_eq nat_eq
command_is_vetted = refl

generate_clippy_samples-extract_example :
    Returns
      (Pieces IsLintOf (group_onto (kept ∷ []) []))
      (generate_clippy_samples first_draws (some (kept ∷ [])))
      tt
generate_clippy_samples-extract_example =
    generate_clippy_samples-extract first_draws (message ∷ []) "snake-rs" (kept ∷ []) tt
      (name-IsSolid, tt) message_kept (command_is_vetted, tt)

group_onto-refines_example :
    under "clippy::needless_return" (group_onto (kept ∷ kept ∷ []) [])
    ≡ keep (λ d. "clippy::needless_return" == d.lint) (kept ∷ kept ∷ [])
group_onto-refines_example = group_onto-refines "clippy::needless_return" (kept ∷ kept ∷ [])
