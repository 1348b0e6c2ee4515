-- ===== src/Exporter/Sensors.antt =====
-- monitoring/gpu_exporter.py: `system_metrics`, over the files of the machine, and the handler of
-- requests. Numbers are opaque.
use Prim.Native.String.{String}
use gpu_lab.Base.{ℕ, suc, ◌<>◌, Bool, ◌||◌, Option, none, some, List, [], ◌∷◌, ◌++◌}
use gpu_lab.Base.{map, if◌then◌else◌, ◌==◌, nat_eq, string_eq}
use gpu_lab.Base.Text.{strip, starts_with, pieces}
use gpu_lab.Base.Format.{replace, str_of}
use gpu_lab.Base.Sorting.{sorted}
use gpu_lab.Base.Dict.{Dict, lookup, insert}
use gpu_lab.Base.Pattern.{each_of}
use gpu_lab.ResearchEval.Items.{after_last}

-- The files: what a pattern matches, and the text of a file that can be read.
pub record Files : Type 0 where
  pub glob : String → List String
  pub text : String → Option String

-- What the program needs of numbers: int(s), whether a number is not zero, n / 1000.0, the highest,
-- the mean with one digit, 100.0 * a / b and n / 1e6 with two, and how each is printed.
pub record Readings : Type 1 where
  pub Int : Type 0
  pub Float : Type 0
  pub int : String → Option Int
  pub truthy : Int → Bool
  pub thousandth : Int → Float
  pub highest : List Float → Float
  pub mean : List Float → Float
  pub percent : Int → Int → Float
  pub millionth : Int → Float
  pub int_text : Int → String
  pub float_text : Float → String

-- The two comments of a metric and its lines.
abbrev pub metric : String → String → List String → List String
metric name help lines =
    ("# HELP " <> (name <> (" " <> help))) ∷ ("# TYPE " <> (name <> " gauge")) ∷ lines

abbrev pub labelled : String → String → String → String → String
labelled name label value shown =
    name <> ("{" <> (label <> ("=\"" <> (value <> ("\"} " <> shown)))))

-- A metric that is written if there is a value.
abbrev pub optional : String → String → Option String → List String
optional name help shown = elim shown [
  | none ↦ []
  | some t ↦ metric name help ((name <> (" " <> t)) ∷ [])
]

-- os.path.basename(f)
abbrev pub basename : String → String
unfolding after_last
basename f = elim (after_last "/" f) [ none ↦ f | some t ↦ t ]

module _ (N : Readings) (files : Files) where
  -- `read_str`
  unfoldable pub read_str : String → Option String
  unfolding strip
  read_str path = elim (files.text path) [ none ↦ none | some t ↦ some (strip t) ]

  -- `read_int`
  unfoldable pub read_int : String → Option N.Int
  unfolding read_str
  read_int path = elim (read_str path) [ none ↦ none | some t ↦ N.int t ]

  -- found.setdefault(name, []).append(d), for the directories one after the other.
  unfoldable pub hwmons_onto : Dict String (List String) → List String → Dict String (List String)
  unfolding read_str lookup insert
  hwmons_onto found [] = found
  hwmons_onto found (d ∷ ds) = elim (read_str (d <> "/name")) [
    | none ↦ hwmons_onto found ds
    | some name ↦
        let old : List String = elim (lookup name found) [ none ↦ [] | some paths ↦ paths ] in
        if name == ""
        then hwmons_onto found ds
        else hwmons_onto (insert name (old ++ d ∷ []) found) ds
  ]

  -- `hwmon_by_name`
  unfoldable pub hwmon_by_name : Dict String (List String)
  unfolding hwmons_onto
  hwmon_by_name = hwmons_onto [] (files.glob "/sys/class/hwmon/hwmon*")

  -- mons.get(name, [])
  unfoldable pub mons : String → List String
  unfolding hwmon_by_name lookup
  mons name = elim (lookup name hwmon_by_name) [ none ↦ [] | some paths ↦ paths ]

  -- The files of a pattern in the directories, those of each in order.
  abbrev pub files_in : String → List String → List String
  unfolding each_of sorted
  files_in pattern dirs = each_of (λ d. sorted (files.glob (d <> ("/" <> pattern)))) dirs

  unfoldable pub fans_of : List String → List (String × N.Int)
  unfolding read_int replace after_last
  fans_of [] = []
  fans_of (f ∷ fs) = elim (read_int f) [
    | none ↦ fans_of fs
    | some rpm ↦ (replace "_input" "" (basename f), rpm) ∷ fans_of fs
  ]

  unfoldable pub fan_lines : List (String × N.Int) → List String
  fan_lines [] = []
  fan_lines (q ∷ qs) =
      metric "gpulab_fan_rpm" "Chassis fan speed"
        (map (λ p. labelled "gpulab_fan_rpm" "fan" p.0 (N.int_text p.1)) (q ∷ qs))

  -- The temperature of the package, the last that is read, and those of the cores.
  unfoldable pub temperatures :
      Option N.Float → List N.Float → List String → Option N.Float × List N.Float
  unfolding read_int read_str replace starts_with
  temperatures whole cores [] = (whole, cores)
  temperatures whole cores (f ∷ fs) =
      let skipped = temperatures whole cores fs in
      elim (read_int f) [
        | none ↦ skipped
        | some value ↦
            let label : String = elim (read_str (replace "_input" "_label" f)) [
              | none ↦ ""
              | some t ↦ t
            ] in
            let as_package = temperatures (some (N.thousandth value)) cores fs in
            let as_core = temperatures whole (cores ++ N.thousandth value ∷ []) fs in
            if starts_with label "Package"
            then as_package
            else if starts_with label "Core"
            then as_core
            else skipped
      ]

  abbrev pub cpu_line : String → N.Float → String
  cpu_line sensor value =
      labelled "gpulab_cpu_temperature_celsius" "sensor" sensor (N.float_text value)

  abbrev pub package_lines : Option N.Float → List String
  package_lines none = []
  package_lines (some value) = cpu_line "package" value ∷ []

  abbrev pub core_lines : List N.Float → List String
  core_lines [] = []
  core_lines (c ∷ cs) =
      cpu_line "core_max" (N.highest (c ∷ cs)) ∷ cpu_line "core_mean" (N.mean (c ∷ cs)) ∷ []

  unfoldable pub cpu_lines : Option N.Float → List N.Float → List String
  cpu_lines none [] = []
  cpu_lines whole cores =
      metric "gpulab_cpu_temperature_celsius" "CPU temperature"
        (package_lines whole ++ core_lines cores)

  -- The disks from the number `i` on; one that cannot be read keeps its number.
  unfoldable pub disks_of : ℕ → List String → List (String × N.Float)
  unfolding read_int str_of
  disks_of i [] = []
  disks_of i (d ∷ ds) = elim (read_int (d <> "/temp1_input")) [
    | none ↦ disks_of (suc i) ds
    | some value ↦ ("nvme" <> str_of i, N.thousandth value) ∷ disks_of (suc i) ds
  ]

  unfoldable pub disk_lines : List (String × N.Float) → List String
  disk_lines [] = []
  disk_lines (q ∷ qs) = metric "gpulab_nvme_temperature_celsius" "NVMe composite temperature" (
      map (λ p. labelled "gpulab_nvme_temperature_celsius" "device" p.0 (N.float_text p.1))
        (q ∷ qs))

  -- read_int(a) or read_int(b)
  abbrev pub either_int : String → String → Option N.Int
  unfolding read_int
  either_int a b = elim (read_int a) [
    | none ↦ read_int b
    | some n ↦ if N.truthy n then some n else read_int b
  ]

  -- The share of the capacity that is left, where both numbers are there and not zero.
  abbrev pub health : Option N.Int → Option N.Int → Option String
  health none design = none
  health (some full) none = none
  health (some full) (some design) =
      if N.truthy full
      then if N.truthy design then some (N.float_text (N.percent full design)) else none
      else none

  abbrev pub shown_int : Option N.Int → Option String
  shown_int none = none
  shown_int (some n) = some (N.int_text n)

  unfoldable pub battery_lines : String → List String
  unfolding read_int read_str
  battery_lines bat =
      let full = either_int (bat <> "/energy_full") (bat <> "/charge_full") in
      let design = either_int (bat <> "/energy_full_design") (bat <> "/charge_full_design") in
      let power : Option String = elim (read_int (bat <> "/power_now")) [
        | none ↦ none
        | some n ↦ some (N.float_text (N.millionth n))
      ] in
      let status : Option String = elim (read_str (bat <> "/status")) [
        | none ↦ none
        | some t ↦ some (if t == "Discharging" then "1" else "0")
      ] in
      optional "gpulab_battery_capacity_percent" "Charge level"
        (shown_int (read_int (bat <> "/capacity")))
      ++ (optional "gpulab_battery_health_percent" "Full charge against design capacity"
            (health full design)
          ++ (optional "gpulab_battery_cycle_count" "Charge cycles"
                (shown_int (read_int (bat <> "/cycle_count")))
              ++ (optional "gpulab_battery_power_watts" "Battery power flow" power
                  ++ optional "gpulab_battery_discharging" "Battery is discharging (1=yes)"
                      status)))

  -- Only the first battery is shown.
  abbrev pub first_battery : List String → List String
  unfolding battery_lines
  first_battery [] = []
  first_battery (bat ∷ _) = battery_lines bat

  -- `system_metrics`
  unfoldable pub system_metrics : List String
  unfolding mons fans_of fan_lines temperatures cpu_lines disks_of disk_lines battery_lines sorted
      read_int
  system_metrics =
      let (whole, cores) = temperatures none [] (files_in "temp*_input" (mons "coretemp")) in
      fan_lines (fans_of (files_in "fan*_input" (mons "lenovo_wmi_other")))
      ++ (cpu_lines whole cores
          ++ (disk_lines (disks_of 0 (sorted (mons "nvme")))
              ++ (first_battery (sorted (files.glob "/sys/class/power_supply/BAT*"))
                  ++ optional "gpulab_ac_online" "AC adapter connected (1=yes)"
                      (shown_int (read_int "/sys/class/power_supply/ADP0/online")))))

-- What the handler sends: an error with its code, or the payload.
pub data Answer {ℓ} (P : Type ℓ) : Type ℓ where
  error : ℕ → Answer P
  body : P → Answer P

abbrev path_part : List String → String
path_part [] = ""
path_part (p ∷ _) = p

-- `do_GET`
unfoldable pub do_get {ℓ} : {P : Type ℓ} → P → String → Answer P
do_get payload path =
    let asked = path_part (pieces "?" path) in
    if asked == "/metrics" || asked == "/" then body payload else error 404
