-- ===== src/Exporter.antt =====
-- monitoring/gpu_exporter.py: the sampling of nvidia-smi, the payload that is served, and the poller
-- that keeps it. Floats are opaque; the metrics of the rest of the machine are an argument.
pub mod Served
pub mod Sensors
mod SensorExamples
mod Examples
use Prim.Native.String.{String}
use gpu_lab.Base.{ℕ, ◌<>◌, Bool, true, false, not}
use gpu_lab.Base.{
  Option, none, some, List, [], ◌∷◌, ◌++◌, map, if◌then◌else◌, ◌==◌, string_eq, take, drop, length,
}
use gpu_lab.Base.Text.{strip, pieces, lower_is}

-- What the program needs of floats: float(v) of a text, and three constants.
pub record Numbers : Type 1 where
  pub Float : Type 0
  pub float : String → Option Float
  pub nan : Float
  pub zero : Float
  pub one : Float

abbrev pub gauges : List String
gauges =
    "gpulab_gpu_temperature_celsius" ∷ "gpulab_gpu_power_watts" ∷ "gpulab_gpu_power_limit_watts"
    ∷ "gpulab_gpu_power_limit_default_watts" ∷ "gpulab_gpu_power_limit_max_watts"
    ∷ "gpulab_gpu_memory_used_mib" ∷ "gpulab_gpu_memory_total_mib"
    ∷ "gpulab_gpu_utilization_percent" ∷ "gpulab_gpu_memory_utilization_percent"
    ∷ "gpulab_gpu_clock_graphics_mhz" ∷ "gpulab_gpu_clock_memory_mhz" ∷ []

abbrev pub reasons : List String
reasons = "sw_power_cap" ∷ "sw_thermal" ∷ "hw_thermal" ∷ "hw_power_brake" ∷ []

-- zip(xs, ys)
unfoldable pub zip {ℓ κ} : {A : Type ℓ} {B : Type κ} → List A → List B → List (A × B)
zip [] ys = []
zip (x ∷ xs) [] = []
zip (x ∷ xs) (y ∷ ys) = (x, y) ∷ zip xs ys

module _ (F : Numbers) where
  -- A line of the payload: a comment, a gauge, the throttle gauge, the outcome of the poll, or a
  -- line about the rest of the machine.
  pub data Line : Type 0 where
    comment : String → String → Line
    gauge : String → F.Float → Line
    throttle : String → F.Float → Line
    scrape_ok : Bool → Line
    system : String → Line

  abbrev pub or_nan : Option F.Float → F.Float
  or_nan none = F.nan
  or_nan (some x) = x

  abbrev first_line : List String → String
  first_line [] = ""
  first_line (l ∷ _) = l

  -- `sample`, from the output of nvidia-smi.
  unfoldable pub sample : String → List F.Float × List (String × F.Float)
  unfolding zip
  sample out =
      let parts = map strip (pieces "," (first_line (pieces "\n" (strip out)))) in
      let values = take (length gauges) parts in
      let flags = drop (length gauges) parts in
      (
        map (λ v. or_nan (F.float v)) values,
        map (λ q. (q.0, if lower_is (strip q.1) "active" then F.one else F.zero))
            (zip reasons flags),
      )

  -- The lines of one gauge.
  abbrev pub block : String × F.Float → List Line
  block q = comment "HELP" q.0 ∷ comment "TYPE" q.0 ∷ gauge q.0 q.1 ∷ []

  unfoldable pub blocks : List (String × F.Float) → List Line
  blocks [] = []
  blocks (q ∷ qs) = block q ++ blocks qs

  abbrev pub or_none : Option (List String) → List String
  or_none none = []
  or_none (some ls) = ls

  -- `render`, given what system_metrics returns, if it returns.
  unfoldable pub render :
      List F.Float → List (String × F.Float) → Bool → Option (List String) → List Line
  unfolding blocks zip
  render numbers throttles ok metrics =
      blocks (zip gauges numbers)
      ++ (comment "HELP" "gpulab_gpu_throttle_active"
          ∷ comment "TYPE" "gpulab_gpu_throttle_active"
          ∷ (map (λ q. throttle q.0 q.1) throttles
              ++ (comment "HELP" "gpulab_gpu_scrape_ok"
                  ∷ comment "TYPE" "gpulab_gpu_scrape_ok"
                  ∷ scrape_ok ok
                  ∷ map system (or_none metrics))))

  -- The payload of a failed poll.
  unfoldable pub blank_payload : Option (List String) → List Line
  unfolding render
  blank_payload metrics =
      render (map (λ _. F.nan) gauges) (map (λ r. (r, F.zero)) reasons) false metrics

  -- What one round of poll_forever meets: nvidia-smi's output, `none` where sample raises, and what
  -- system_metrics gives.
  pub record Poll : Type 0 where
    pub smi : Option String
    pub metrics : Option (List String)

  unfoldable pub payload_of : Poll → List Line
  unfolding sample render blank_payload
  payload_of p = elim p.smi [
    | none ↦ blank_payload p.metrics
    | some out ↦ let (numbers, throttles) = sample out in render numbers throttles true p.metrics
  ]

  -- `poll_forever`: the payload after the rounds so far.
  unfoldable pub poll_forever : List Line → List Poll → List Line
  unfolding payload_of
  poll_forever payload [] = payload
  poll_forever payload (p ∷ ps) = poll_forever (payload_of p) ps
