-- ===== src/AgentAb/Preflight.antt =====
-- bench/agent_ab.py, preflight: what the output of one sandboxed command has to say before a run
-- starts. The lines are those that "\n" ends.
pub mod Walls
use Prim.Native.String.{String}
use gpu_lab.Base.{ℕ, ◌<>◌, Bool, true, false, ◌&&◌, ◌||◌, not}
use gpu_lab.Base.{
  Option, none, some, List, [], ◌∷◌, ◌++◌, ltb, if◌then◌else◌, ◌==◌, nat_eq, string_eq, contains,
}
use gpu_lab.Base.Text.{strip, pieces, cut, has_part, int_of, cut_suffix}
use gpu_lab.Base.Dict.{Dict, lookup, insert}

pub data Complaint : Type 0 where
  leaked_write : Complaint
  seen_path : Complaint
  unfinished : Complaint
  wrong_uid : Complaint
  open_socket : Complaint
  reachable_runner : Complaint
  secret_name : Complaint
  readable_environment : Complaint
  few_processes : Complaint
  no_gpu : Complaint

abbrev pub fields : List String
fields = "uid" ∷ "socket" ∷ "runner" ∷ "secrets" ∷ "runnerenv" ∷ "pids" ∷ "gpus" ∷ []

-- k, _, v = line.partition("=")
unfoldable pub partition : String → String × String
partition l = let (head, rest) = cut "=" l in (head, elim rest [ [] ↦ "" | v ∷ _ ↦ v ])

unfoldable pub add_line : Dict String String → String → Dict String String
unfolding partition
add_line got l =
    let (k, v) = partition l in if contains fields k then insert k (strip v) got else got

unfoldable pub read_onto : Dict String String → List String → Dict String String
unfolding add_line
read_onto got [] = got
read_onto got (l ∷ ls) = read_onto (add_line got l) ls

-- `got`
unfoldable pub read_probe : String → Dict String String
unfolding read_onto
read_probe out = read_onto [] (pieces "\n" out)

-- int(got.get(k) or 0), `none` for a ValueError.
abbrev pub number_of : Option String → Option ℕ
number_of none = some 0
number_of (some v) = if v == "" then some 0 else int_of v

abbrev pub is_value : Option String → String → Bool
is_value none w = false
is_value (some v) w = v == w

abbrev pub is_absent : Option String → Bool
is_absent none = true
is_absent (some _) = false

abbrev pub complain : Bool → Complaint → List Complaint
complain true c = c ∷ []
complain false c = []

-- The checks of the text, and those of the numbers.
unfoldable pub text_complaints : String → Bool → String → Dict String String → List Complaint
text_complaints want leaked out got =
    complain leaked leaked_write
    ++ (complain (has_part "\nseen " ("\n" <> out)) seen_path
        ++ (complain (is_absent (cut_suffix "[exit code 0]" out)) unfinished
            ++ (complain (not (is_value (lookup "uid" got) want)) wrong_uid
                ++ (complain (is_value (lookup "socket" got) "open") open_socket
                    ++ complain (not (is_value (lookup "runner" got) "separate"))
                        reachable_runner))))

abbrev pub number_complaints : ℕ → ℕ → ℕ → ℕ → List Complaint
number_complaints secrets runnerenv pids gpus =
    complain (ltb 0 secrets) secret_name
    ++ (complain (ltb 0 runnerenv) readable_environment
        ++ (complain (ltb pids 20) few_processes ++ complain (ltb gpus 1) no_gpu))

-- The end of `preflight`: it exits where something is bad, and prints the socket line otherwise, a
-- KeyError if there is none. The other keys that it prints are there, since their numbers are not 0.
abbrev pub printed : Dict String String → List Complaint → Option (List Complaint)
printed got (c ∷ cs) = some (c ∷ cs)
printed got [] = if is_absent (lookup "socket" got) then none else some []

-- `preflight`: what it finds bad, `none` for a ValueError or a KeyError. It lets a run start only for
-- `some []`.
unfoldable pub preflight : String → Bool → String → Option (List Complaint)
unfolding read_probe text_complaints
preflight want leaked out =
    let got = read_probe out in
    elim (number_of (lookup "secrets" got)) [
      | none ↦ none
      | some secrets ↦ elim (number_of (lookup "runnerenv" got)) [
        | none ↦ none
        | some runnerenv ↦ elim (number_of (lookup "pids" got)) [
          | none ↦ none
          | some pids ↦ elim (number_of (lookup "gpus" got)) [
            | none ↦ none
            | some gpus ↦ printed got (
                text_complaints want leaked out got
                ++ number_complaints secrets runnerenv pids gpus)
          ]
        ]
      ]
    ]
