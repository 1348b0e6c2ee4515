-- ===== src/Training/Augment/Marks/Augmented.antt =====
-- What the new data set has.
use Prim.Native.String.{String}
use gpu_lab.Base.{◌+◌, ℕ, ◌≤◌, ◌<◌, ◌≡◌, arith}
use gpu_lab.Base.{Option, List, [], ◌++◌, length, keep}
use gpu_lab.Base.Collected.{Counted}
use gpu_lab.Base.Random.{Random}
use gpu_lab.Generator.Records.{Finished}
use gpu_lab.Training.Augment.{Source, Addition}
use gpu_lab.Training.Augment.Fallbacks.Honest.{
  AtMost, IsWebFallback, IsManFallback, IsLookupFailed, IsTrapFailed,
}
use gpu_lab.Training.Augment.Answers.{Dolly, in_pool}
use gpu_lab.Training.Augment.Answers.Numbers.{IsComposed, IsGeneral, IsSum, IsAsserted}
use gpu_lab.Training.Augment.Marks.{Wanted, cli_of, traps_onto}

-- The records that the program adds: so many of each kind, or at most so many.
pub record IsAdded (man : String → Option Finished) (o : Wanted) (new : List Addition)
    : Type 0 where
  pub webs : List Addition
  pub mans : List Addition
  pub failed : List Addition
  pub denied : List Addition
  pub composed : List Addition
  pub answers : List Addition
  pub sums_added : List Addition
  pub asserts : List Addition
  pub parts :
      new
      ≡ (webs ++ (mans ++ (failed ++ (denied ++ composed)))) ++ ((answers ++ sums_added) ++ asserts)
  pub webs_number : Counted IsWebFallback o.web_fallback webs
  pub mans_number : AtMost (IsManFallback man) o.man_fallback mans
  pub failed_number : Counted IsLookupFailed o.lookup_failed failed
  pub denied_number : Counted IsTrapFailed o.trap_failed denied
  pub composed_number : AtMost IsComposed o.compose composed
  pub answers_number : Counted IsGeneral o.general answers
  pub sums_number : Counted IsSum o.arith sums_added
  pub asserts_number : AtMost IsAsserted o.asserted asserts

-- There is enough to draw from.
pub record IsEnough (o : Wanted) (v1 : List Source) (dolly : List Dolly) : Type 0 where
  pub web : o.web_fallback ≤ length (cli_of v1)
  pub lookup : o.lookup_failed ≤ length (cli_of v1)
  pub trap : 0 < o.trap_failed + o.asserted → 0 < length (traps_onto [] v1)
  pub pool : o.general ≤ length (keep in_pool dolly)
  pub few : (n : ℕ) → o.off_count n ≤ n
