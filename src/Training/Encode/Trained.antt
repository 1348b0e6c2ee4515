-- ===== src/Training/Encode/Trained.antt =====
-- Which tokens have a loss.
use mathlib.Core.List.{append-nil, append_assoc}
use gpu_lab.Base.{ℕ, zero, suc, ◌≤◌, ◌<◌, ◌≡◌, ◌≢◌, refl, sym, subst, ap, ◌∙◌, ◌⊎◌, inl, inr, arith}
use gpu_lab.Base.{Bool, true, false, ◌||◌, none, some, List, [], ◌∷◌, ◌++◌, length, length-append}
use gpu_lab.Base.{contains, ◌==◌, nat_eq, eq_of_==, Bool-cases, Option-cases}
use gpu_lab.Training.Encode.{
  Marks, after_tokens, turn_of, Label, masked, trained, skipped, labels_from, encode,
}

after_tokens-append : (p ids rest : List ℕ) → after_tokens p ids ≡ some rest → ids ≡ p ++ rest
unfolding after_tokens
after_tokens-append [] ids rest h = let same : ids ≡ rest = cc h in same
after_tokens-append (t ∷ p) [] rest h = ground arith
after_tokens-append (t ∷ p) (x ∷ ids) rest h = elim (Bool-cases (x == t)) [
  | inl e ↦
      let more = after_tokens-append p ids rest (rw (after_tokens, e) at h) in
      ap (λ y. y ∷ ids) (eq_of_== x t e) ∙ ap (λ ys. t ∷ ys) more
  | inr e ↦ let bad : none ≡ some rest = rw (after_tokens, e) at h in ground arith
]

-- The tokens of one turn: all up to the first end of a turn, which is the last of them; without one,
-- all that are left.
abbrev pub IsTurn : ℕ → List ℕ → List ℕ → Type 0
IsTurn im_end [] rest = rest ≡ []
IsTurn im_end (x ∷ span) rest =
    ((x ≡ im_end) × (span ≡ [])) ⊎ ((x ≢ im_end) × IsTurn im_end span rest)

turn_of-IsTurn :
    (im_end : ℕ) (ids : List ℕ)
    → (ids ≡ (turn_of im_end ids).0 ++ (turn_of im_end ids).1)
      × IsTurn im_end (turn_of im_end ids).0 (turn_of im_end ids).1
unfolding turn_of
turn_of-IsTurn im_end [] = (refl, refl)
turn_of-IsTurn im_end (x ∷ ids) = elim (Bool-cases (x == im_end)) [
  | inl e ↦ rw e (refl, inl (eq_of_== x im_end e, refl))
  | inr e ↦
      let (whole, turn) = turn_of-IsTurn im_end ids in
      let apart : x ≢ im_end = λ p. ground (arith, p, e) in
      rw e (ap (λ ys. x ∷ ys) whole, inr (apart, turn))
]

module _ (m : Marks) (off : Bool) where
  -- What is skipped at the start of a turn: an empty think block, exactly if the record is one for
  -- thinking off and the turn starts with it.
  abbrev pub IsSkipped : List ℕ → List ℕ → Type 0
  IsSkipped think from =
      ((think ≡ []) × ((off ≡ false) ⊎ (after_tokens m.empty_think_ids from ≡ none)))
      ⊎ ((think ≡ m.empty_think_ids) × (off ≡ true))

  -- A record in parts: tokens at which no header starts, without a loss, and turns behind a header,
  -- with the tokens themselves as labels.
  pub data Layout : List ℕ → List Label → Type 0 where
    done : Layout [] []
    outside :
        (x : ℕ) (ids : List ℕ) (ls : List Label)
        → after_tokens m.assistant_header (x ∷ ids) ≡ none
        → Layout ids ls
        → Layout (x ∷ ids) (none ∷ ls)
    turn :
        (think span rest : List ℕ) (ls : List Label)
        → IsSkipped think (span ++ rest)
        → IsTurn m.im_end span rest
        → Layout rest ls
        → Layout
            (m.assistant_header ++ (think ++ (span ++ rest)))
            (masked m.assistant_header ++ (masked think ++ (trained span ++ ls)))

  skipped-IsSkipped :
      (ids : List ℕ)
      → (ids ≡ (skipped m off ids).0 ++ (skipped m off ids).1)
        × IsSkipped (skipped m off ids).0 (skipped m off ids).1
  unfolding skipped
  skipped-IsSkipped ids = elim (Option-cases (after_tokens m.empty_think_ids ids)) [
    | inl e ↦ rw (skipped, e) (refl, inl (refl, inr e))
    | inr (rest, e) ↦ elim (Bool-cases off) [
      | inl f ↦
          rw (skipped, e, f) (after_tokens-append m.empty_think_ids ids rest e, inr (refl, refl))
      | inr f ↦ rw (skipped, e, f) (refl, inl (refl, inl refl))
    ]
  ]

  labels_from-Layout :
      (fuel : ℕ) (ids : List ℕ)
      → 0 < length m.assistant_header
      → length ids ≤ fuel
      → Layout ids (labels_from m off fuel ids)
  unfolding labels_from
  labels_from-Layout zero [] some_header enough = done
  labels_from-Layout zero (x ∷ ids) some_header enough = absurd (omega arith)
  labels_from-Layout (suc fuel) [] some_header enough = done
  labels_from-Layout (suc fuel) (x ∷ ids) some_header enough =
      elim (Option-cases (after_tokens m.assistant_header (x ∷ ids))) [
        | inl e ↦
            rw (labels_from, e)
              (outside x ids (labels_from m off fuel ids) e
                (labels_from-Layout fuel ids some_header (omega (arith, enough))))
        | inr (behind, e) ↦
            let (whole, skip) = skipped-IsSkipped behind in
            let think = (skipped m off behind).0 in
            let from = (skipped m off behind).1 in
            let (parts, ends) = turn_of-IsTurn m.im_end from in
            let span = (turn_of m.im_end from).0 in
            let rest = (turn_of m.im_end from).1 in
            let skip_parts : IsSkipped think (span ++ rest) = subst (IsSkipped think) parts skip in
            let text : x ∷ ids ≡ m.assistant_header ++ (think ++ (span ++ rest)) =
              after_tokens-append m.assistant_header (x ∷ ids) behind e
              ∙ ap (λ ys. m.assistant_header ++ ys) (whole ∙ ap (λ ys. think ++ ys) parts) in
            let shorter : length rest ≤ fuel = omega (
              arith,
              enough,
              some_header,
              ap length text,
              length-append m.assistant_header (think ++ (span ++ rest)),
              length-append think (span ++ rest),
              length-append span rest,
            ) in
            rw (labels_from, e)
              (subst
                (λ ys. Layout ys (
                  masked m.assistant_header
                  ++ (masked think ++ (trained span ++ labels_from m off fuel rest))))
                (sym text)
                (turn think span rest (labels_from m off fuel rest) skip_parts ends
                  (labels_from-Layout fuel rest some_header shorter)))
      ]

  -- The tokens before end in a header and what follows it without an end of the turn.
  abbrev pub InTurn : List ℕ → Type 0
  InTurn before =
      (a : List ℕ) × (b : List ℕ) × (before ≡ a ++ (m.assistant_header ++ b))
      × (contains b m.im_end ≡ false)

  -- A label behind the tokens before it: it is masked, or the token itself within a turn.
  abbrev pub IsLabel : List ℕ → ℕ → Label → Type 0
  IsLabel before x none = Unit
  IsLabel before x (some t) = (t ≡ x) × InTurn before

  -- Every token has a label of that kind.
  abbrev pub Labelled : List ℕ → List ℕ → List Label → Type 0
  Labelled before [] [] = Unit
  Labelled before [] (l ∷ ls) = ⊥
  Labelled before (x ∷ ids) [] = ⊥
  Labelled before (x ∷ ids) (l ∷ ls) = IsLabel before x l × Labelled (before ++ x ∷ []) ids ls

  Labelled-masked :
      (before xs ids : List ℕ) (ls : List Label)
      → Labelled (before ++ xs) ids ls
      → Labelled before (xs ++ ids) (masked xs ++ ls)
  unfolding masked
  Labelled-masked before [] ids ls h = subst (λ b. Labelled b ids ls) (append-nil before) h
  Labelled-masked before (x ∷ xs) ids ls h = (
    tt,
    Labelled-masked (before ++ x ∷ []) xs ids ls
        (subst (λ b. Labelled b ids ls) (sym (append_assoc before (x ∷ []) xs)) h),
  )

  contains-snoc : (b : List ℕ) (x y : ℕ) → contains (b ++ x ∷ []) y ≡ (contains b y || y == x)
  contains-snoc [] x y = ground arith
  contains-snoc (z ∷ b) x y = ground (arith, contains-snoc b x y)

  InTurn-snoc : (before : List ℕ) (x : ℕ) → InTurn before → x ≢ m.im_end → InTurn (before ++ x ∷ [])
  InTurn-snoc before x (a, b, e, free) apart = (
    a,
    b ++ x ∷ [],
    ap (λ ys. ys ++ x ∷ []) e
        ∙ append_assoc a (m.assistant_header ++ b) (x ∷ [])
        ∙ ap (λ ys. a ++ ys) (append_assoc m.assistant_header b (x ∷ [])),
    let two = contains-snoc b x m.im_end in
        let other : (m.im_end == x) ≡ false = elim (Bool-cases (m.im_end == x)) [
          | inl same ↦ absurd (apart (sym (eq_of_== m.im_end x same)))
          | inr differ ↦ differ
        ] in
        ground arith,
  )

  Labelled-trained :
      (before span rest : List ℕ) (ls : List Label)
      → InTurn before
      → IsTurn m.im_end span rest
      → Labelled (before ++ span) rest ls
      → Labelled before (span ++ rest) (trained span ++ ls)
  unfolding trained
  Labelled-trained before [] rest ls inside h k =
      subst (λ b. Labelled b rest ls) (append-nil before) k
  Labelled-trained before (x ∷ span) rest ls inside (inl (last, alone)) k = (
    (refl, inside),
    subst (λ s. Labelled (before ++ x ∷ []) (s ++ rest) (trained s ++ ls)) (sym alone)
        (subst (λ s. Labelled (before ++ x ∷ s) rest ls) alone k),
  )
  Labelled-trained before (x ∷ span) rest ls inside (inr (apart, later)) k = (
    (refl, inside),
    Labelled-trained (before ++ x ∷ []) span rest ls (InTurn-snoc before x inside apart) later
        (subst (λ b. Labelled b rest ls) (sym (append_assoc before (x ∷ []) span)) k),
  )

  Layout-Labelled :
      (before ids : List ℕ) (ls : List Label)
      → contains m.empty_think_ids m.im_end ≡ false
      → Layout ids ls
      → Labelled before ids ls
  Layout-Labelled before _ _ clean done = tt
  Layout-Labelled before _ _ clean (outside x ids ls none_here rest) =
      (tt, Layout-Labelled (before ++ x ∷ []) ids ls clean rest)
  Layout-Labelled before _ _ clean (turn think span rest ls skip ends more) =
      let header = m.assistant_header in
      let free : contains think m.im_end ≡ false = elim skip [
        | inl e ↦ subst (λ t. contains t m.im_end ≡ false) (sym e.0) refl
        | inr e ↦ subst (λ t. contains t m.im_end ≡ false) (sym e.0) clean
      ] in
      let inside : InTurn ((before ++ header) ++ think) =
        (before, think, append_assoc before header think, free) in
      Labelled-masked before header (think ++ (span ++ rest)) (masked think ++ (trained span ++ ls))
        (Labelled-masked (before ++ header) think (span ++ rest) (trained span ++ ls) (
          Labelled-trained ((before ++ header) ++ think) span rest ls inside ends
            (Layout-Labelled (((before ++ header) ++ think) ++ span) rest ls clean more)))

-- Where the header of a turn is not empty and an empty think block holds no end of a turn, the loop
-- reads all tokens of a record. It takes the record apart into tokens at which no header starts and
-- turns behind a header, each up to its first end of a turn; the tokens of the turns are their own
-- labels, but for an empty think block that is skipped for thinking off, and all others are masked.
-- So a token with a label has a header before it and no end of a turn in between.
pub encode-Labelled :
    (m : Marks) (off : Bool) (input_ids : List ℕ)
    → 0 < length m.assistant_header
    → contains m.empty_think_ids m.im_end ≡ false
    → Layout m off input_ids (encode m off input_ids)
      × Labelled m off [] input_ids (encode m off input_ids)
unfolding encode
encode-Labelled m off input_ids some_header clean =
    let whole = labels_from-Layout m off (length input_ids) input_ids some_header (omega arith) in
    (whole, Layout-Labelled m off [] input_ids (encode m off input_ids) clean whole)
