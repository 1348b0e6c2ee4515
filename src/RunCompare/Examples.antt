-- ===== src/RunCompare/Examples.antt =====
-- Two small runs compared, and the theorems at them.
use gpu_lab.Base.{String, Bool, true, false, ◌≡◌, refl, some}
use gpu_lab.Base.{List, [], ◌∷◌, string_eq, nat_eq, bool_eq, length, count_if}
use gpu_lab.Base.Dict.{lookup, insert}
use gpu_lab.Base.Text.{starts_with, lstrip_of}
use gpu_lab.RunCompare.{Result, Row, comb, comb_sum, mcnemar_exact, values, flips, pair_row}
use gpu_lab.RunCompare.{add_value, values_onto, paired_values, count_row, flip_splits, flipped}
use gpu_lab.RunCompare.{questions_onto, questions, other_question, check_paired}
use gpu_lab.RunCompare.Sign.{tosses, heads, is_lopsided, mcnemar_exact-tosses}
use gpu_lab.RunCompare.Rows.{last_value, values_last}
use gpu_lab.RunCompare.Pairs.{value, IsCounted, pair_row-IsCounted}
use gpu_lab.RunCompare.Flips.{flips-counted}
use gpu_lab.Base.Sorting.{sorted, str_le}

abbrev item : String → Bool → Result
item i ok = record { id = i; split = "cli"; question = i; score = ("ok", ok) ∷ [] }

abbrev before : List Result
before = item "a" true ∷ item "b" true ∷ item "c" false ∷ []

abbrev after : List Result
after = item "c" true ∷ item "b" false ∷ item "a" true ∷ []

one_of_six : mcnemar_exact 1 5 ≡ record { over = 14; under = 64 }
unfolding mcnemar_exact comb_sum comb nat_eq
one_of_six = refl

mcnemar_exact-tosses_example :
    ((mcnemar_exact 1 5).over ≡ count_if (λ s. is_lopsided 6 1 (heads s)) (tosses 6))
    × ((mcnemar_exact 1 5).under ≡ length (tosses 6))
mcnemar_exact-tosses_example = mcnemar_exact-tosses 1 5

values_last_example :
    lookup "b" (values after ("cli" ∷ []) "!ok")
    ≡ last_value ("cli" ∷ []) (lstrip_of "!" "!ok") (starts_with "!ok" "!") "b" after
values_last_example = values_last after ("cli" ∷ []) "!ok" "b"

abbrev row : Row
row = record {
  n = 3;
  sum_a = 2;
  sum_b = 2;
  only_a = 1;
  only_b = 1;
  p = record { over = 4; under = 4 };
}

row_is : pair_row before after ("cli" ∷ []) "ok" ≡ some row
unfolding pair_row values values_onto add_value paired_values count_row mcnemar_exact comb_sum comb
    lookup sorted nat_eq string_eq lstrip_of insert str_le starts_with
row_is = refl

pair_row-IsCounted_example :
    IsCounted (value before ("cli" ∷ []) "ok") (value after ("cli" ∷ []) "ok") row
pair_row-IsCounted_example = pair_row-IsCounted before after ("cli" ∷ []) "ok" row row_is

flips_are : flips before after "ok" "cli" ≡ some ("b" ∷ [], "c" ∷ [])
unfolding flips flip_splits flipped values values_onto add_value check_paired questions
    questions_onto other_question lookup sorted insert string_eq lstrip_of nat_eq str_le bool_eq
    starts_with
flips_are = refl

flip_splits_are : flip_splits before "cli" ≡ "cli" ∷ []
unfolding flip_splits string_eq
flip_splits_are = refl

flips-counted_example :
    (length {A = String} ("b" ∷ []) ≡ row.only_a) × (length {A = String} ("c" ∷ []) ≡ row.only_b)
flips-counted_example =
    flips-counted before after "ok" "cli" ("b" ∷ []) ("c" ∷ []) row flips_are
      (rw flip_splits_are row_is)
