-- ===== src/Exporter/SensorExamples.antt =====
-- A machine with a fan, a processor and no battery, and a request for another page.
use Prim.Native.String.{String}
use gpu_lab.Base.{◌<>◌, ◌≡◌, refl, ◌==◌, if◌then◌else◌, none, some, true, [], ◌∷◌}
use gpu_lab.Base.{nat_eq, string_eq}
use gpu_lab.Base.Text.{strip, split, after_prefix, starts_with, chars}
use gpu_lab.Base.Format.{replace}
use gpu_lab.Base.Dict.{lookup, insert}
use gpu_lab.Base.Sorting.{sorted, str_le}
use gpu_lab.Base.Pattern.{each_of}
use gpu_lab.ResearchEval.Items.{after_last}
use gpu_lab.Exporter.Sensors.{Files, Readings, system_metrics, error, do_get}

-- Texts stand for numbers.
abbrev texts : Readings
texts = record {
  Int = String;
  Float = String;
  int = λ s. if s == "N/A" then none else some s;
  truthy = λ n. true;
  thousandth = λ n. n <> "/1000";
  highest = λ xs. "highest";
  mean = λ xs. "mean";
  percent = λ a b. a <> ("%" <> b);
  millionth = λ n. n <> "/1e6";
  int_text = λ n. n;
  float_text = λ x. x;
}

abbrev machine : Files
machine = record {
  glob = λ p.
      if p == "/sys/class/hwmon/hwmon*"
      then "/h/0" ∷ "/h/1" ∷ []
      else if p == "/h/0/fan*_input"
      then "/h/0/fan2_input" ∷ "/h/0/fan1_input" ∷ []
      else if p == "/h/1/temp*_input"
      then "/h/1/temp1_input" ∷ []
      else [];
  text = λ f.
      if f == "/h/0/name"
      then some "lenovo_wmi_other\n"
      else if f == "/h/1/name"
      then some "coretemp\n"
      else if f == "/h/0/fan1_input"
      then some "2100\n"
      else if f == "/h/0/fan2_input"
      then some "N/A"
      else if f == "/h/1/temp1_input"
      then some "61000\n"
      else if f == "/h/1/temp1_label"
      then some "Package id 0\n"
      else none;
}

shown :
    system_metrics texts machine
    ≡ "# HELP gpulab_fan_rpm Chassis fan speed" ∷ "# TYPE gpulab_fan_rpm gauge"
      ∷ "gpulab_fan_rpm{fan=\"fan1\"} 2100"
      ∷ "# HELP gpulab_cpu_temperature_celsius CPU temperature"
      ∷ "# TYPE gpulab_cpu_temperature_celsius gauge"
      ∷ "gpulab_cpu_temperature_celsius{sensor=\"package\"} 61000/1000" ∷ []
unfolding system_metrics strip after_prefix starts_with replace chars lookup insert sorted str_le
    each_of after_last string_eq nat_eq
shown = refl

not_found : do_get {P = String} "payload" "/favicon.ico?x=1" ≡ error 404
unfolding do_get split string_eq nat_eq
not_found = refl
