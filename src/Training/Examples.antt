-- ===== src/Training/Examples.antt =====
-- A name that is no tool, a dataset that is built twice, and a record of two turns.
use gpu_lab.Base.{ℕ, ◌≡◌, refl, true, some, none, List, [], ◌∷◌, arith}
use gpu_lab.Base.{nat_eq, string_eq}
use gpu_lab.Training.Encode.{Marks, encode}
use gpu_lab.Training.Encode.Trained.{Layout, Labelled, encode-Labelled}

abbrev marks : Marks
marks = record { assistant_header = 1 ∷ 2 ∷ []; im_end = 9; empty_think_ids = 5 ∷ 6 ∷ [] }

abbrev tokens : List ℕ
tokens = 3 ∷ 9 ∷ 1 ∷ 2 ∷ 5 ∷ 6 ∷ 7 ∷ 9 ∷ 4 ∷ 9 ∷ 1 ∷ 2 ∷ 8 ∷ []

two_turns :
    encode marks true tokens
    ≡ none
      ∷ none
      ∷ none
      ∷ none
      ∷ none
      ∷ none
      ∷ some 7
      ∷ some 9
      ∷ none
      ∷ none
      ∷ none
      ∷ none
      ∷ some 8
      ∷ []
unfolding encode nat_eq
two_turns = refl

encode-Labelled_example :
    Layout marks true tokens (encode marks true tokens)
    × Labelled marks true [] tokens (encode marks true tokens)
unfolding nat_eq
encode-Labelled_example = encode-Labelled marks true tokens (omega arith) refl
