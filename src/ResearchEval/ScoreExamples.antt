-- ===== src/ResearchEval/ScoreExamples.antt =====
-- A server that answers late, a text with tokens and an answer that is scored.
use gpu_lab.Base.Pattern.{matches}
use gpu_lab.Base.{length, ℕ, ◌≡◌, refl, ◌↔◌, true, false, Option, some, none, [], ◌∷◌, arith}
use gpu_lab.Base.{if◌then◌else◌, nat_eq, string_eq, ltb}
use gpu_lab.Base.Text.{after_prefix, chars, strip}
use gpu_lab.ResearchEval.Items.{line, executed, ItemRun, answered}
use gpu_lab.ResearchEval.Requests.{returned, raised, post, Ends, post-Ends}
use gpu_lab.ResearchEval.Instructions.{bare_of, sentence_parts}
use gpu_lab.ResearchEval.Tokens.{has_token, grounded_token, says}
use gpu_lab.ResearchEval.Tokens.Occurs.{Occurs, has_token_exactly}
use gpu_lab.ResearchEval.Score.{Sources, FlagItem, cites, is_answered, final_of, score_flag}
use gpu_lab.ResearchEval.Score.Grounded.{AllShown, score_flag-AllShown}

-- Up at the third try.
abbrev late : ℕ → Option ℕ
late n = if ltb n 2 then none else some 7

third_try : post late 3 ≡ returned 7 (2 ∷ 4 ∷ [])
unfolding post nat_eq
third_try = refl

two_tries : post late 2 ≡ raised (2 ∷ [])
unfolding post nat_eq
two_tries = refl

post-Ends_example : Ends late 3 (post late 3)
post-Ends_example = post-Ends late 3 (omega arith)

inside_a_word : has_token "-n" "use --dry-n or x-n" ≡ false
unfolding has_token after_prefix nat_eq
inside_a_word = refl

has_token_exactly_example : (has_token "-n" "head -n 3" ≡ true) ↔ Occurs false "-n" "head -n 3"
has_token_exactly_example = has_token_exactly "-n" "head -n 3"

bundle : grounded_token "-rf" "-r, -R  recurse\n-f  force" ≡ true
unfolding grounded_token has_token after_prefix nat_eq string_eq
bundle = refl

abbrev run : ItemRun
run = record {
  status = answered;
  final = some "Run `jq -c`.\nThere is also `--tab`.";
  calls =
      record {
        call = record { name = "bash"; cmd = line "jq --help"; query = ""; prefix = "" };
        outcome = executed ("jq" ∷ "--help" ∷ []);
      }
      ∷ [];
}

abbrev sources : Sources
sources = record { doc = "-c  compact\n--tab"; question = ""; pages = λ l. ""; negated = λ l. [] }

abbrev item : FlagItem
item = record { tool = "jq"; aliases = "-c" ∷ []; fake_flag = none; groups = none }

score_flag-AllShown_example :
    ((score_flag sources item run false none).grounded ≡ true)
    ↔ ((is_answered run.status ≡ true) × AllShown (cites sources (final_of run) run.calls) none)
score_flag-AllShown_example = score_flag-AllShown sources item run false none

in_a_bundle : says "-l  listening\n-t  tcp" "ss -tl" "-l" ≡ true
unfolding says has_token grounded_token after_prefix chars nat_eq string_eq
in_a_bundle = refl

not_in_a_bundle : says "-l  listening" "ss -tl" "-l" ≡ false
unfolding says has_token grounded_token after_prefix chars nat_eq string_eq
not_in_a_bundle = refl

in_a_fence : bare_of "```json\n{}\n```" ≡ "{}"
unfolding bare_of strip matches string_eq nat_eq
in_a_fence = refl

four_parts : length (sentence_parts "Yes. No! e.g. this") ≡ 4
unfolding sentence_parts string_eq nat_eq
four_parts = refl
