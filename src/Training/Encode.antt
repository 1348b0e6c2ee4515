-- ===== src/Training/Encode.antt =====
-- training/qlora.py: `encode`, which masks every token of a record that the assistant did not write,
-- and `collate`, which pads a batch. The tokenizer is an argument: here are its tokens.
pub mod Trained
use gpu_lab.Base.{ℕ, zero, suc, ◌+◌, ◌-◌, max, Bool, true, false, ◌&&◌}
use gpu_lab.Base.{Option, none, some, List, [], ◌∷◌, ◌++◌, map, length, if◌then◌else◌, ◌==◌, nat_eq}

-- The tokens of the header of a turn, of the end of a turn and of an empty think block.
pub record Marks : Type 0 where
  pub assistant_header : List ℕ
  pub im_end : ℕ
  pub empty_think_ids : List ℕ

-- What follows a prefix: input_ids[i : i + len(prefix)] == prefix.
unfoldable pub after_tokens : List ℕ → List ℕ → Option (List ℕ)
after_tokens [] ids = some ids
after_tokens (t ∷ ts) [] = none
after_tokens (t ∷ ts) (x ∷ ids) = let rest = after_tokens ts ids in if x == t then rest else none

-- The tokens up to and with the end of the turn, or all, and those behind them.
unfoldable pub turn_of : ℕ → List ℕ → List ℕ × List ℕ
turn_of im_end [] = ([], [])
turn_of im_end (x ∷ ids) =
    let (span, rest) = turn_of im_end ids in if x == im_end then (x ∷ [], ids) else (x ∷ span, rest)

-- A label: none is -100, which has no loss.
abbrev pub Label : Type 0
Label = Option ℕ

unfoldable pub masked : List ℕ → List Label
masked [] = []
masked (x ∷ xs) = none ∷ masked xs

unfoldable pub trained : List ℕ → List Label
trained [] = []
trained (x ∷ xs) = some x ∷ trained xs

module _ (m : Marks) (off : Bool) where
  -- What stands between the header and the turn: an empty think block, if the record is one for
  -- thinking off.
  unfoldable pub skipped : List ℕ → List ℕ × List ℕ
  unfolding after_tokens
  skipped ids = elim (after_tokens m.empty_think_ids ids) [
    | none ↦ ([], ids)
    | some rest ↦ if off then (m.empty_think_ids, rest) else ([], ids)
  ]

  -- The loop over the tokens that are left, on fuel: each round takes one token or more.
  unfoldable pub labels_from : ℕ → List ℕ → List Label
  unfolding after_tokens skipped turn_of masked trained
  labels_from zero ids = []
  labels_from (suc fuel) [] = []
  labels_from (suc fuel) (x ∷ ids) = elim (after_tokens m.assistant_header (x ∷ ids)) [
    | none ↦ none ∷ labels_from fuel ids
    | some behind ↦
        let (think, from) = skipped behind in
        let (span, rest) = turn_of m.im_end from in
        masked m.assistant_header ++ (masked think ++ (trained span ++ labels_from fuel rest))
  ]

  -- The labels that `encode` gives the tokens of a record.
  unfoldable pub encode : List ℕ → List Label
  unfolding labels_from
  encode input_ids = labels_from (length input_ids) input_ids

-- A record of a batch: its tokens, its attention mask and its labels.
pub record Encoded : Type 0 where
  pub input_ids : List ℕ
  pub attention_mask : List ℕ
  pub labels : List Label

unfoldable pub longest : List Encoded → ℕ
longest [] = 0
longest (b ∷ bs) = max (length b.input_ids) (longest bs)

unfoldable pub padding {ℓ} : {A : Type ℓ} → A → ℕ → List A
padding x zero = []
padding x (suc n) = x ∷ padding x n

-- `collate`
abbrev pub padded : ℕ → ℕ → Encoded → Encoded
padded pad_token_id width b =
    let pad = width - length b.input_ids in
    record {
      input_ids = b.input_ids ++ padding pad_token_id pad;
      attention_mask = b.attention_mask ++ padding 0 pad;
      labels = b.labels ++ padding none pad;
    }

unfoldable pub collate : ℕ → List Encoded → List Encoded
unfolding longest padding
collate pad_token_id batch = map (padded pad_token_id (longest batch)) batch
