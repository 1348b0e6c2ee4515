-- ===== src/Readings.antt =====
-- training/watchdog.py: what it reads from the output of nvidia-smi. A failed subprocess and a
-- malformed output are exceptions, here `none`. The driver prints no sign, no `_` inside a number
-- and no line break but "\n", so those are left out of `int` and `splitlines`.
use gpu_lab.Base.{ℕ, String, Bool, Option, none, some, List, [], ◌∷◌, map, if◌then◌else◌}
use gpu_lab.Base.{string_eq, get_elem?}
use gpu_lab.Base.Text.{strip, split, pieces, words, has_part, lower_is, int_of}
use gpu_lab.Base.Floats.{Floats}

infixl 5 ◌>>=◌
abbrev ◌>>=◌ {ℓ κ} : {A : Type ℓ} {B : Type κ} → Option A → (A → Option B) → Option B
none >>= f = none
some a >>= f = f a

-- The first line that names the target temperature decides: a malformed one is an exception,
-- and so no target at all.
target_in : List String → Option ℕ
target_in [] = none
target_in (line ∷ rest) =
    let later = target_in rest in
    if has_part "GPU Target Temperature" line
    then (do
      field ← get_elem? (pieces ":" line) 1
      value ← get_elem? (words (strip field)) 0
      int_of value)
    else later

-- `target_temp` on what nvidia-smi printed, `none` if it did not run.
unfoldable pub target_temp : Option String → Option ℕ
unfolding target_in
target_temp none = none
target_temp (some out) = target_in (pieces "\n" out)

module _ (F : Floats) where
  open F use {Float, nan, parse}

  pub record Sample : Type 0 where
    pub temp_c : Float
    pub power_w : Float
    pub power_limit_w : Float
    pub mem_mib : Float
    pub util_pct : Float
    pub hw_thermal : Bool
    pub sw_thermal : Bool
    pub hw_power_brake : Bool
    pub t : Float

  -- number(raw)
  number : String → Float
  number raw = elim (parse raw) [ none ↦ nan | some x ↦ x ]

  -- `sample` on what nvidia-smi printed; a missing column is an IndexError, `none`. The clock
  -- reading `t` is added by the loop.
  unfoldable pub read_sample : String → Float → Option Sample
  unfolding number
  read_sample out t =
      let parts = map strip (pieces "," (split "\n" (strip out)).0) in
      do
        temp ← get_elem? parts 0
        power ← get_elem? parts 1
        limit ← get_elem? parts 2
        mem ← get_elem? parts 3
        util ← get_elem? parts 4
        hw ← get_elem? parts 5
        sw ← get_elem? parts 6
        brake ← get_elem? parts 7
        some (record {
          temp_c = number temp;
          power_w = number power;
          power_limit_w = number limit;
          mem_mib = number mem;
          util_pct = number util;
          hw_thermal = lower_is hw "active";
          sw_thermal = lower_is sw "active";
          hw_power_brake = lower_is brake "active";
          t = t;
        })
