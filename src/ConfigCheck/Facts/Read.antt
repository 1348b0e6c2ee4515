-- ===== src/ConfigCheck/Facts/Read.antt =====
-- When all facts were read.
use gpu_lab.Base.{ℕ, String, ◌≡◌, ◌≢◌, refl, ◌↔◌, ◌||◌, not, true, false, Bool, Option, none, some}
use gpu_lab.Base.{arith, ◌==◌, string_eq, nat_eq, length, or-false}
use gpu_lab.Base.{if◌then◌else◌, [], ◌∷◌, ◌++◌}
use gpu_lab.ConfigCheck.{Detail, fail, no_hosts, no_pool, no_agent}
use gpu_lab.ConfigCheck.Quiet.{IsQuiet, IsQuiet-both, both_iff, iff_trans}
use gpu_lab.ConfigCheck.Facts.{Facts, missing, facts_lines}

abbrev pub IsGiven : Option String → Type 0
IsGiven o = (s : String) × (o ≡ some s) × (s ≢ "")

missing-IsGiven : (o : Option String) → (missing o ≡ false) ↔ IsGiven o
unfolding missing
missing-IsGiven none = (λ h. ground arith, λ h. ground arith)
missing-IsGiven (some s) = (
  λ h. (s, refl, λ e. ground (arith, h, e)),
  λ h. let (t, e, apart) = h in ground (arith, e, apart),
)

two_names : (n : ℕ) → (not (n == 2) ≡ false) ↔ (n ≡ 2)
two_names n = (λ h. ground (arith, h), λ h. ground (arith, h))

-- The two hosts, and of the pool its port and name, and of the agent its port and two names.
abbrev pub IsRead : Facts → Type 0
IsRead f =
    (IsGiven f.desktop_host × IsGiven f.laptop_host)
    × ((IsGiven f.pool_port × IsGiven f.pool_name)
        × (IsGiven f.agent_port × (length f.agent_names ≡ 2)))

one_line : (b : Bool) (d : Detail) → IsQuiet (if b then fail d ∷ [] else []) ↔ (b ≡ false)
unfolding IsQuiet
one_line true d = (λ h. ground arith, λ h. ground arith)
one_line false d = (λ h. refl, λ h. refl)

pub facts_lines-IsRead : (f : Facts) → IsQuiet (facts_lines f) ↔ IsRead f
unfolding facts_lines
facts_lines-IsRead f =
    let no_host = missing f.desktop_host || missing f.laptop_host in
    let no_address = missing f.pool_port || missing f.pool_name in
    let no_names = missing f.agent_port || not (length f.agent_names == 2) in
    let pool = if no_address then fail no_pool ∷ [] else [] in
    let agent = if no_names then fail no_agent ∷ [] else [] in
    IsQuiet-both (if no_host then fail no_hosts ∷ [] else []) (pool ++ agent)
      (iff_trans (one_line no_host no_hosts) (
        iff_trans (or-false (missing f.desktop_host) (missing f.laptop_host))
          (both_iff (missing-IsGiven f.desktop_host) (missing-IsGiven f.laptop_host))))
      (IsQuiet-both pool agent
        (iff_trans (one_line no_address no_pool) (
          iff_trans (or-false (missing f.pool_port) (missing f.pool_name))
            (both_iff (missing-IsGiven f.pool_port) (missing-IsGiven f.pool_name))))
        (iff_trans (one_line no_names no_agent) (
          iff_trans (or-false (missing f.agent_port) (not (length f.agent_names == 2)))
            (both_iff (missing-IsGiven f.agent_port) (two_names (length f.agent_names))))))
