-- ===== src/Training/Augment/Marks.antt =====
-- training/augment_research.py, `main`: the new data set, with the mark for thinking.
pub mod Places
pub mod Augmented
use Prim.Native.String.{String}
use gpu_lab.Base.{ℕ, zero, suc, ◌+◌, Bool, true, false, ◌&&◌}
use gpu_lab.Base.{Option, none, some, List, [], ◌∷◌, ◌++◌, map, if◌then◌else◌, ◌==◌, nat_eq}
use gpu_lab.Base.{string_eq, length, any, contains}
use gpu_lab.Base.Random.{Random, Draw, pure, ◌>>=◌}
use gpu_lab.DatasetAudit.Samples.{Message}
use gpu_lab.Generator.Records.{Finished}
use gpu_lab.Training.Augment.{
  Lookup, Source, cli_grounded, trap_refusal, other_type, messages_of, Addition,
}
use gpu_lab.Training.Augment.Fallbacks.{web_fallbacks, man_fallbacks, lookups_failed, traps_failed}
use gpu_lab.Training.Augment.Compose.{compositions}
use gpu_lab.Training.Augment.Answers.{Dolly, general, arithmetic, asserted}

-- The arguments of the program; `off_count` is round(n * off_fraction).
pub record Wanted : Type 0 where
  pub seed : ℕ
  pub off_count : ℕ → ℕ
  pub web_fallback : ℕ
  pub man_fallback : ℕ
  pub lookup_failed : ℕ
  pub trap_failed : ℕ
  pub compose : ℕ
  pub general : ℕ
  pub asserted : ℕ
  pub arith : ℕ

unfoldable pub cli_of : List Source → List Lookup
cli_of [] = []
cli_of (cli_grounded l ∷ xs) = l ∷ cli_of xs
cli_of (trap_refusal _ ∷ xs) = cli_of xs
cli_of (other_type _ ∷ xs) = cli_of xs

-- {(tool, fake_flag): r}: a trap that is there is replaced at its place.
unfoldable pub add_trap : Lookup → List Lookup → List Lookup
add_trap l [] = l ∷ []
add_trap l (t ∷ ts) =
    let later = add_trap l ts in if t.tool == l.tool && t.flag == l.flag then l ∷ ts else t ∷ later

unfoldable pub traps_onto : List Lookup → List Source → List Lookup
unfolding add_trap
traps_onto ts [] = ts
traps_onto ts (trap_refusal l ∷ xs) = traps_onto (add_trap l ts) xs
traps_onto ts (cli_grounded _ ∷ xs) = traps_onto ts xs
traps_onto ts (other_type _ ∷ xs) = traps_onto ts xs

-- A record of the new data set.
pub data Member : Type 0 where
  kept : Source → Member
  added : Addition → Member

abbrev pub entry_messages : Member → List Message
entry_messages (kept (cli_grounded l)) = messages_of l
entry_messages (kept (trap_refusal l)) = messages_of l
entry_messages (kept (other_type messages)) = messages
entry_messages (added a) = a.messages

-- any("tool_calls" in m for m in r["messages"])
abbrev pub uses_tool : Member → Bool
uses_tool e = any (λ m. elim m.tool_calls [ none ↦ false | some _ ↦ true ]) (entry_messages e)

-- Where the records with a tool call stand, from the number `i` on.
unfoldable pub tool_places : ℕ → List Member → List ℕ
tool_places i [] = []
tool_places i (e ∷ es) =
    let later = tool_places (suc i) es in if uses_tool e then i ∷ later else later

-- Each record with whether it is marked as one for thinking off.
unfoldable pub marked : List ℕ → ℕ → List Member → List (Member × Bool)
marked offs i [] = []
marked offs i (e ∷ es) = (e, contains offs i) ∷ marked offs (suc i) es

module _ (r : Random) (o : Wanted) where
  -- The marks and the shuffle.
  unfoldable pub mark_and_shuffle :
      List Source → List Addition → Draw r.State (List (Member × Bool))
  unfolding tool_places marked
  mark_and_shuffle v1 new s =
      let out = map kept v1 ++ map added new in
      let places = tool_places 0 out in
      elim (r.sample (o.off_count (length places)) places s) [
        | none ↦ none
        | some (offs, t) ↦ some (r.shuffle (marked offs 0 out) t)
      ]

module _ (r : Random) (man : String → Option Finished) (dolly : List Dolly) (o : Wanted) where
  -- The records that the first generator draws, and how many candidates for a man page were skipped.
  unfoldable pub drawn : List Lookup → List Lookup → Draw r.State (List Addition × ℕ)
  unfolding web_fallbacks man_fallbacks lookups_failed traps_failed compositions
  drawn cli traps = do
    webs ← web_fallbacks r o.web_fallback cli
    mans ← man_fallbacks r man o.man_fallback cli
    failed ← lookups_failed r o.lookup_failed cli
    denied ← traps_failed r o.trap_failed traps
    composed ← compositions r o.compose cli
    pure (webs ++ (mans.0 ++ (failed ++ (denied ++ composed))), mans.1)

  -- Those that the second draws.
  unfoldable pub ordinary : Draw r.State (List Addition)
  unfolding general arithmetic
  ordinary = do plain ← general r o.general dolly; sums ← arithmetic r o.arith; pure (plain ++ sums)

  -- `main`: the data set that it writes, or an exception.
  unfoldable pub augment : List Source → Option (List (Member × Bool))
  unfolding cli_of traps_onto drawn ordinary asserted mark_and_shuffle
  augment v1 =
      let cli = cli_of v1 in
      let traps = traps_onto [] v1 in
      elim (drawn cli traps (r.seeded o.seed)) [
        | none ↦ none
        | some ((first, _), s) ↦ elim (ordinary (r.seeded (o.seed + 4))) [
          | none ↦ none
          | some (second, _) ↦ elim (asserted traps 0 o.asserted) [
            | none ↦ none
            | some third ↦ elim (mark_and_shuffle r o v1 (first ++ (second ++ third)) s) [
              | none ↦ none
              | some (out, _) ↦ some out
            ]
          ]
        ]
      ]
