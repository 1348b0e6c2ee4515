-- ===== src/AgentAb/Preflight/Walls.antt =====
-- What a probe has shown that lets a run start.
use Prim.Native.String.{String}
use gpu_lab.Base.{inl, inr, ℕ, ◌<>◌, ◌≤◌, ◌≡◌, ◌≢◌, refl, sym, ap, ◌∙◌, Bool, true, false, not}
use gpu_lab.Base.{
  Option, none, some, List, [], ◌∷◌, ◌++◌, arith, ltb, if◌then◌else◌, ◌==◌, nat_eq, string_eq,
  eq_of_==, ==_refl,
}
use gpu_lab.Base.{contains, Option-cases, Bool-cases}
use gpu_lab.Base.Text.{strip, pieces, has_part, cut_suffix}
use gpu_lab.Base.Dict.{Dict, lookup, lookup-insert}
use gpu_lab.AgentAb.Preflight.{
  Complaint, secret_name, readable_environment, few_processes, no_gpu, leaked_write, seen_path,
  unfinished, wrong_uid, open_socket, reachable_runner, fields, partition, add_line, read_onto,
  read_probe, number_of, is_value, is_absent, printed,
}
use gpu_lab.AgentAb.Preflight.{complain, text_complaints, number_complaints, preflight}

-- The value of the last line of the output that has the key.
abbrev pub last_field : String → List String → Option String
last_field k [] = none
last_field k (l ∷ ls) = elim (last_field k ls) [
  | some v ↦ some v
  | none ↦ if k == (partition l).0 then some (strip (partition l).1) else none
]

abbrev pub shown : String → String → Option String
shown k out = last_field k (pieces "\n" out)

lookup-add_line :
    (k : String) (got : Dict String String) (l : String)
    → contains fields k ≡ true
    → lookup k (add_line got l)
      ≡ (if k == (partition l).0 then some (strip (partition l).1) else lookup k got)
unfolding add_line
lookup-add_line k got l known = elim (Bool-cases (contains fields (partition l).0)) [
  | inl e ↦ rw (add_line, e) (lookup-insert k (partition l).0 (strip (partition l).1) got)
  | inr e ↦ elim (Bool-cases (k == (partition l).0)) [
    | inl same ↦
        let both = sym (ap (contains fields) (eq_of_== k (partition l).0 same)) ∙ known in
        let never : false ≡ true = sym e ∙ both in ground arith
    | inr apart ↦ rw (add_line, e, apart) refl
  ]
]

lookup-read_onto :
    (k : String) (got : Dict String String) (ls : List String)
    → contains fields k ≡ true
    → lookup k (read_onto got ls) ≡ elim (last_field k ls) [ some v ↦ some v | none ↦ lookup k got ]
unfolding read_onto
lookup-read_onto k got [] known = refl
lookup-read_onto k got (l ∷ ls) known =
    let ih = lookup-read_onto k (add_line got l) ls known in
    let one = lookup-add_line k got l known in
    elim (Option-cases (last_field k ls)) [
      | inl e ↦ elim (Bool-cases (k == (partition l).0)) [
        | inl same ↦ rw (e, same) (rw e at ih ∙ rw same at one)
        | inr apart ↦ rw (e, apart) (rw e at ih ∙ rw apart at one)
      ]
      | inr (v, e) ↦ rw e (rw e at ih)
    ]

-- `got` has the last value of each of its keys.
read_probe-shown :
    (k out : String) → contains fields k ≡ true → lookup k (read_probe out) ≡ shown k out
unfolding read_probe lookup
read_probe-shown k out known =
    let onto = lookup-read_onto k [] (pieces "\n" out) known in
    elim (Option-cases (shown k out)) [
      | inl e ↦ rw e (rw e at onto)
      | inr (v, e) ↦ rw e (rw e at onto)
    ]

-- Everything that the probe has to show.
pub record IsWalled (want : String) (leaked : Bool) (out : String) : Type 0 where
  pub private_tmp : leaked ≡ false
  pub hidden : has_part "\nseen " ("\n" <> out) ≡ false
  pub finished : (rest : String) × (cut_suffix "[exit code 0]" out ≡ some rest)
  pub uid : shown "uid" out ≡ some want
  pub socket : (v : String) × (shown "socket" out ≡ some v) × (v ≢ "open")
  pub runner : shown "runner" out ≡ some "separate"
  pub secrets : number_of (shown "secrets" out) ≡ some 0
  pub environment : number_of (shown "runnerenv" out) ≡ some 0
  pub processes : (n : ℕ) × ((number_of (shown "pids" out) ≡ some n) × (20 ≤ n))
  pub gpus : (n : ℕ) × ((number_of (shown "gpus" out) ≡ some n) × (1 ≤ n))

append-nil_both {ℓ} : {A : Type ℓ} (xs ys : List A) → xs ++ ys ≡ [] → (xs ≡ []) × (ys ≡ [])
append-nil_both [] ys h = (refl, h)
append-nil_both (x ∷ xs) ys h = ground arith

complain-nil : (b : Bool) (c : Complaint) → complain b c ≡ [] → b ≡ false
complain-nil true c h = ground arith
complain-nil false c h = refl

number_complaints-nil :
    (a b c d : ℕ) → number_complaints a b c d ≡ [] → (a ≡ 0) × (b ≡ 0) × (20 ≤ c) × (1 ≤ d)
number_complaints-nil a b c d h =
    let few = complain (ltb c 20) few_processes in
    let none_left = complain (ltb d 1) no_gpu in
    let env = complain (ltb 0 b) readable_environment in
    let p = append-nil_both (complain (ltb 0 a) secret_name) (env ++ (few ++ none_left)) h in
    let q = append-nil_both env (few ++ none_left) p.1 in
    let r = append-nil_both few none_left q.1 in
    let no_secret = complain-nil (ltb 0 a) secret_name p.0 in
    let no_env = complain-nil (ltb 0 b) readable_environment q.0 in
    let enough = complain-nil (ltb c 20) few_processes r.0 in
    let some_gpu = complain-nil (ltb d 1) no_gpu r.1 in
    (ground arith, ground arith, ground arith, ground arith)

is_value-some : (o : Option String) (w : String) → is_value o w ≡ true → o ≡ some w
is_value-some none w h = ground arith
is_value-some (some v) w h = ap some (eq_of_== v w h)

is_value-other : (o : Option String) (w : String) → is_value o w ≡ false → o ≢ some w
is_value-other o w h e =
    let same : is_value (some w) w ≡ true = ==_refl w in
    let never : false ≡ true = sym h ∙ ap (λ x. is_value x w) e ∙ same in ground arith

-- The part of the text, as `got` has it.
text_complaints-nil :
    (want : String) (leaked : Bool) (out : String) (got : Dict String String)
    → text_complaints want leaked out got ≡ []
    → (leaked ≡ false)
      × (has_part "\nseen " ("\n" <> out) ≡ false)
      × ((rest : String) × (cut_suffix "[exit code 0]" out ≡ some rest))
      × (lookup "uid" got ≡ some want)
      × (lookup "socket" got ≢ some "open")
      × (lookup "runner" got ≡ some "separate")
unfolding text_complaints
text_complaints-nil want leaked out got h =
    let seen = has_part "\nseen " ("\n" <> out) in
    let ends = is_absent (cut_suffix "[exit code 0]" out) in
    let uid = not (is_value (lookup "uid" got) want) in
    let open_door = is_value (lookup "socket" got) "open" in
    let near = not (is_value (lookup "runner" got) "separate") in
    let c6 = complain near reachable_runner in
    let c5 = complain open_door open_socket ++ c6 in
    let c4 = complain uid wrong_uid ++ c5 in
    let c3 = complain ends unfinished ++ c4 in
    let c2 = complain seen seen_path ++ c3 in
    let p = append-nil_both (complain leaked leaked_write) c2 h in
    let q = append-nil_both (complain seen seen_path) c3 p.1 in
    let r = append-nil_both (complain ends unfinished) c4 q.1 in
    let s = append-nil_both (complain uid wrong_uid) c5 r.1 in
    let t = append-nil_both (complain open_door open_socket) c6 s.1 in
    (
      complain-nil leaked leaked_write p.0,
      complain-nil seen seen_path q.0,
      elim (Option-cases (cut_suffix "[exit code 0]" out)) [
        | inl e ↦
            let over = complain-nil ends unfinished r.0 in
            let never : true ≡ false = rw e at over in ground arith
        | inr found ↦ found
      ],
      is_value-some (lookup "uid" got) want (ground (arith, complain-nil uid wrong_uid s.0)),
      is_value-other (lookup "socket" got) "open" (complain-nil open_door open_socket t.0),
      is_value-some (lookup "runner" got) "separate"
          (ground (arith, complain-nil near reachable_runner t.1)),
    )

present : (o : Option String) → is_absent o ≡ false → (v : String) × (o ≡ some v)
present none h = absurd (ground (arith, h))
present (some v) h = (v, refl)

printed-nil :
    (got : Dict String String) (cs : List Complaint)
    → printed got cs ≡ some []
    → (cs ≡ []) × (is_absent (lookup "socket" got) ≡ false)
printed-nil got [] h = elim (Bool-cases (is_absent (lookup "socket" got))) [
  | inl e ↦ let never : none ≡ some [] = rw (printed, e) at h in ground arith
  | inr e ↦ (refl, e)
]
printed-nil got (c ∷ cs) h = let never : c ∷ cs ≡ [] = cc h in ground arith

walls :
    (want : String) (leaked : Bool) (out : String) (a b c d : ℕ)
    → (leaked ≡ false)
      × (has_part "\nseen " ("\n" <> out) ≡ false)
      × ((rest : String) × (cut_suffix "[exit code 0]" out ≡ some rest))
      × (lookup "uid" (read_probe out) ≡ some want)
      × (lookup "socket" (read_probe out) ≢ some "open")
      × (lookup "runner" (read_probe out) ≡ some "separate")
    → is_absent (lookup "socket" (read_probe out)) ≡ false
    → (a ≡ 0) × (b ≡ 0) × (20 ≤ c) × (1 ≤ d)
    → number_of (lookup "secrets" (read_probe out)) ≡ some a
    → number_of (lookup "runnerenv" (read_probe out)) ≡ some b
    → number_of (lookup "pids" (read_probe out)) ≡ some c
    → number_of (lookup "gpus" (read_probe out)) ≡ some d
    → IsWalled want leaked out
unfolding string_eq
walls want leaked out a b c d texts there numbers secrets environment pids gpus =
    let read : (k : String) → contains fields k ≡ true → shown k out ≡ lookup k (read_probe out) =
      λ k known. sym (read_probe-shown k out known) in
    record {
      private_tmp = texts.0;
      hidden = texts.1;
      finished = texts.2;
      uid = read "uid" refl ∙ texts.3;
      socket =
          let (v, e) = present (lookup "socket" (read_probe out)) there in
          (v, read "socket" refl ∙ e, λ is. texts.4 (e ∙ ap some is));
      runner = read "runner" refl ∙ texts.5;
      secrets = ap number_of (read "secrets" refl) ∙ secrets ∙ ap some numbers.0;
      environment = ap number_of (read "runnerenv" refl) ∙ environment ∙ ap some numbers.1;
      processes = (c, (ap number_of (read "pids" refl) ∙ pids, numbers.2));
      gpus = (d, (ap number_of (read "gpus" refl) ∙ gpus, numbers.3));
    }

-- A run starts only after a probe whose write to /tmp stayed in the sandbox, that saw no hidden
-- path, finished with exit code 0, and whose last lines show the agent's uid, a socket that is not
-- open, a separate runner, at least 20 processes and a GPU, and show no secret and nothing of the
-- runner's environment, or do not speak of these two.
pub preflight-IsWalled :
    (want : String) (leaked : Bool) (out : String)
    → preflight want leaked out ≡ some []
    → IsWalled want leaked out
unfolding preflight
preflight-IsWalled want leaked out h =
    let got = read_probe out in
    elim (Option-cases (number_of (lookup "secrets" got))) [
      | inl e ↦ let never : none ≡ some [] = rw (preflight, e) at h in ground arith
      | inr (a, e) ↦ elim (Option-cases (number_of (lookup "runnerenv" got))) [
        | inl f ↦ let never : none ≡ some [] = rw (preflight, e, f) at h in ground arith
        | inr (b, f) ↦ elim (Option-cases (number_of (lookup "pids" got))) [
          | inl g ↦ let never : none ≡ some [] = rw (preflight, e, f, g) at h in ground arith
          | inr (c, g) ↦ elim (Option-cases (number_of (lookup "gpus" got))) [
            | inl i ↦ let never : none ≡ some [] = rw (preflight, e, f, g, i) at h in ground arith
            | inr (d, i) ↦
                let texts = text_complaints want leaked out got in
                let numbers = number_complaints a b c d in
                let is : printed got (texts ++ numbers) ≡ some [] =
                  rw (preflight, e, f, g, i) at h in
                let (all_fine, there) = printed-nil got (texts ++ numbers) is in
                let parts = append-nil_both texts numbers all_fine in
                walls want leaked out a b c d (text_complaints-nil want leaked out got parts.0)
                  there (number_complaints-nil a b c d parts.1) e f g i
          ]
        ]
      ]
    ]
