-- ===== src/Base/Floats.antt =====
-- What the program asks of Python's `float`, which antt does not have: the operations that it
-- calls and the laws of IEEE 754 on which the theorems rest.
use Prim.Native.Nat.{ℕ}
use Prim.Native.String.{String}
use mathlib.Core.Path.{◌≡◌}
use mathlib.Core.Bool.{Bool, false}
use mathlib.Core.Option.{Option}

pub record Floats : Type 1 where
  pub Float : Type 0
  pub nan : Float
  -- a >= b, a > b
  pub ge : Float → Float → Bool
  pub gt : Float → Float → Bool
  -- bool(a)
  pub truthy : Float → Bool
  pub of_ℕ : ℕ → Float
  pub sub : Float → Float → Float
  pub mul : Float → Float → Float
  -- float(s), where `none` is a ValueError
  pub parse : String → Option Float
  -- Every comparison with NaN is false.
  pub ge-nan : (x : Float) → ge nan x ≡ false
