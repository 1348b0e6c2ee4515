-- ===== src/Exporter/Examples.antt =====
-- Two polls of a card with one gauge that cannot be read, and the theorem at them.
use Prim.Native.String.{String}
use gpu_lab.Base.{◌≡◌, refl, ◌==◌, if◌then◌else◌, none, some, [], ◌∷◌, ◌++◌, nat_eq, string_eq}
use gpu_lab.Base.Text.{split, strip, lower_is}
use gpu_lab.Exporter.{Numbers, Poll, zip, sample, poll_forever}
use gpu_lab.Exporter.Served.{IsCurrent, poll_forever-IsCurrent}

-- Texts stand for floats.
abbrev texts : Numbers
texts = record {
  Float = String;
  float = λ s. if s == "[N/A]" then none else some s;
  nan = "nan";
  zero = "0.0";
  one = "1.0";
}

abbrev line : String
line =
    "61, 45.2, [N/A], 80, 110, 4000, 8192, 97, 40, 1900, 8000, Not Active, Active, Not Active, Active\n"

sampled : sample texts line ≡ (
  "61" ∷ "45.2" ∷ "nan" ∷ "80" ∷ "110" ∷ "4000" ∷ "8192" ∷ "97" ∷ "40" ∷ "1900" ∷ "8000" ∷ [],
  ("sw_power_cap", "0.0")
      ∷ ("sw_thermal", "1.0")
      ∷ ("hw_thermal", "0.0")
      ∷ ("hw_power_brake", "1.0")
      ∷ [],
)
unfolding sample zip split strip lower_is string_eq nat_eq
sampled = refl

abbrev lost : Poll texts
lost = record { smi = none; metrics = none }

abbrev read : Poll texts
read = record { smi = some line; metrics = some ("gpulab_ac_online 1" ∷ []) }

poll_forever-IsCurrent_example :
    IsCurrent texts (some line) (poll_forever texts [] ((lost ∷ []) ++ (read ∷ [])))
poll_forever-IsCurrent_example = poll_forever-IsCurrent texts [] (lost ∷ []) read
