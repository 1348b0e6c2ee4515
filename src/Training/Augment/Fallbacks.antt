-- ===== src/Training/Augment/Fallbacks.antt =====
-- training/augment_research.py, `main`: the records in which a lookup fails.
pub mod Honest
use Prim.Native.String.{String}
use gpu_lab.Base.{ℕ, zero, suc, ◌+◌, ◌%◌, ◌<>◌, Bool, true, false, not}
use gpu_lab.Base.{Option, none, some, List, [], ◌∷◌, ◌++◌, leb, if◌then◌else◌, ◌==◌, nat_eq}
use gpu_lab.Base.{string_eq, length}
use gpu_lab.Base.Format.{replaced}
use gpu_lab.Base.Random.{Random, Draw, pure, ◌>>=◌, collect}
use gpu_lab.DatasetAudit.Samples.{Message, missing, object, calls}
use gpu_lab.Generator.Records.{Finished, answered, bash_call}
use gpu_lab.Training.Augment.{Lookup, Addition, messages_of, man_page, man_window, spec_of, desc_of}
use gpu_lab.DatasetAudit.Samples.{text}

abbrev pub web_failures : List String
web_failures =
    "Error: search backend returned HTTP 503 (service unavailable)"
    ∷ "web_search failed: network is unreachable"
    ∷ "Search request timed out after 20 s; no results." ∷ []

abbrev pub bash_failures : List String
bash_failures =
    "error: command timed out after 30 seconds" ∷ "sandbox: this command is not permitted here"
    ∷ "Permission denied" ∷ []

-- result(name, content); the name of the tool is not kept.
abbrev pub result : String → Message
result t = record { role = some "tool"; tool_calls = none; content = text t }

-- call("web_search", query=...); of the arguments it is kept that there is a query.
abbrev pub query_call : Message
query_call = record {
  role = some "assistant";
  tool_calls =
      some (calls (record { name = some "web_search"; arguments = object missing true } ∷ []));
  content = missing;
}

-- The record of a lookup, with other messages.
abbrev pub addition_of : String → Lookup → List Message → Addition
addition_of type l messages = record {
  type = type;
  tool = some l.tool;
  flag = some l.flag;
  flag2 = none;
  fake_flag = none;
  command = some l.command;
  source = none;
  messages = messages;
}

-- The same for an invented flag.
abbrev pub trap_addition : String → Lookup → List Message → Addition
trap_addition type l messages = record {
  type = type;
  tool = some l.tool;
  flag = none;
  flag2 = none;
  fake_flag = some l.flag;
  command = some l.command;
  source = none;
  messages = messages;
}

abbrev pub web_fallback : Lookup → String → Addition
web_fallback l failure =
    addition_of "web_fallback" l
      (l.question ∷ query_call ∷ result failure ∷ l.call ∷ result l.shown ∷ answered l.answer ∷ [])

-- r["tool"].replace(" ", "-")
abbrev pub page_of : Lookup → String
unfolding replaced
page_of l = replaced " " "-" l.tool

abbrev pub man_answer : Lookup → String → String
unfolding replaced desc_of
man_answer l spec =
    "`"
    <> (l.command
        <> ("` failed here, so I read the man page instead. Based on `man "
            <> (page_of l
                <> ("`, the option is `"
                    <> (spec
                        <> ("`.\n\nYou can use it with `"
                            <> (l.tool <> ("` to " <> (desc_of l <> ".")))))))))

abbrev pub man_fallback : Lookup → String → String → String → Addition
unfolding replaced desc_of
man_fallback l win spec failure = addition_of "man_fallback" l (
    l.question
    ∷ l.call
    ∷ result failure
    ∷ bash_call ("man " <> page_of l)
    ∷ result win
    ∷ answered (man_answer l spec)
    ∷ [])

-- The part of the man page that defines the flag, and what the answer calls it, if there are both.
abbrev pub man_parts : (String → Option Finished) → Lookup → Option (String × String)
unfolding man_page man_window spec_of replaced
man_parts man l = elim (man_page man (page_of l)) [
  | none ↦ none
  | some page ↦ elim (man_window page l.flag) [
    | none ↦ none
    | some win ↦ elim (spec_of l.answer) [ none ↦ none | some spec ↦ some (win, spec) ]
  ]
]

abbrev pub why : Lookup → Bool → String
unfolding replaced
why l asks_man =
    let failed = "`" <> (l.command <> "` failed") in
    if asks_man then failed <> (" and there is no man page for `" <> (page_of l <> "`")) else failed

abbrev pub unverified : Lookup → Bool → String
unfolding spec_of desc_of
unverified l asks_man =
    "I couldn't check the documentation"
    <> (": "
        <> (why l asks_man
            <> (". So this is from memory and unverified: I believe the option to "
                <> (desc_of l
                    <> (" is `"
                        <> ((elim (spec_of l.answer) [ none ↦ l.flag | some t ↦ t ])
                            <> ("`. Please confirm it with `"
                                <> (l.command <> "` before relying on it."))))))))

-- Every second record also asks for the man page, which is not there.
abbrev pub man_messages : Lookup → Bool → List Message
unfolding replaced
man_messages l true =
    bash_call ("man " <> page_of l) ∷ result ("No manual entry for " <> page_of l) ∷ []
man_messages l false = []

abbrev pub lookup_failed : Lookup → Bool → String → Addition
lookup_failed l asks_man failure = addition_of "lookup_failed" l (
    l.question
    ∷ l.call
    ∷ result failure
    ∷ (man_messages l asks_man ++ answered (unverified l asks_man) ∷ []))

abbrev pub unknown : Lookup → String
unknown l =
    "I couldn't check the documentation"
    <> (" (`"
        <> (l.command
            <> ("` failed), so I can't verify this. I don't know of a `"
                <> (l.flag
                    <> ("` option in `"
                        <> (l.tool
                            <> ("`, and I won't guess at its syntax. Run `"
                                <> (l.command <> "` to see whether it exists."))))))))

abbrev pub trap_lookup_failed : Lookup → String → Addition
trap_lookup_failed l failure =
    trap_addition "trap_lookup_failed" l
      (l.question ∷ l.call ∷ result failure ∷ answered (unknown l) ∷ [])

-- enumerate(xs), with whether the number is odd.
unfoldable pub alternating {ℓ} : {A : Type ℓ} → Bool → List A → List (Bool × A)
alternating odd [] = []
alternating odd (x ∷ xs) = (odd, x) ∷ alternating (not odd) xs

module _ (r : Random) where
  -- One record for a failure that is drawn.
  abbrev pub with_failure : List String → (String → Addition) → Draw r.State (List Addition)
  with_failure failures build = r.choice failures >>= (λ failure. pure (build failure ∷ []))

  unfoldable pub web_fallbacks : ℕ → List Lookup → Draw r.State (List Addition)
  unfolding collect
  web_fallbacks n cli =
      r.sample n cli >>= (λ ls. collect (λ l. with_failure web_failures (web_fallback l)) ls)

  -- The loop for the man pages: the records, and the number of candidates that were skipped. `made`
  -- records of the type are there already.
  unfoldable pub man_loop :
      (String → Option Finished) → ℕ → ℕ → List Lookup → Draw r.State (List Addition × ℕ)
  man_loop man wanted made [] = pure ([], 0)
  man_loop man wanted made (l ∷ ls) =
      let skip = man_loop man wanted made ls >>= (λ found. pure (found.0, suc found.1)) in
      let next = man_loop man wanted (suc made) ls in
      if leb wanted made then pure ([], 0) else elim (man_parts man l) [
        | none ↦ skip
        | some (win, spec) ↦ r.choice bash_failures >>= (λ failure.
            next >>= (λ found. pure (man_fallback l win spec failure ∷ found.0, found.1)))
      ]

  unfoldable pub man_fallbacks :
      (String → Option Finished) → ℕ → List Lookup → Draw r.State (List Addition × ℕ)
  unfolding man_loop
  man_fallbacks man wanted cli = r.sample (length cli) cli >>= man_loop man wanted 0

  unfoldable pub lookups_failed : ℕ → List Lookup → Draw r.State (List Addition)
  unfolding collect alternating
  lookups_failed n cli = r.sample n cli >>= (λ ls.
      collect (λ p. with_failure bash_failures (lookup_failed p.1 p.0)) (alternating false ls))

  -- [rng.choice(xs) for _ in range(n)]
  unfoldable pub choices : {A : Type 0} → ℕ → List A → Draw r.State (List A)
  choices zero xs = pure []
  choices (suc n) xs = do x ← r.choice xs; ys ← choices n xs; pure (x ∷ ys)

  unfoldable pub traps_failed : ℕ → List Lookup → Draw r.State (List Addition)
  unfolding collect choices
  traps_failed n traps =
      choices n traps
      >>= (λ ls. collect (λ l. with_failure bash_failures (trap_lookup_failed l)) ls)
