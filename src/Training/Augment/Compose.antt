-- ===== src/Training/Augment/Compose.antt =====
-- training/augment_research.py, `main`: the records that ask for two options of one tool.
use Prim.Native.Char.{code}
use Prim.Native.String.{String}
use gpu_lab.Base.{ℕ, suc, ◌<>◌, Bool, true, false, ◌&&◌, ◌||◌, not}
use gpu_lab.Base.{Option, none, some, List, [], ◌∷◌, leb, if◌then◌else◌, ◌==◌, nat_eq}
use gpu_lab.Base.{string_eq, length, any, keep, map}
use gpu_lab.Base.Text.{is_space, is_word, has_part, after_prefix}
use gpu_lab.Base.Format.{format}
use gpu_lab.Base.Sorting.{str_le}
use gpu_lab.Base.Pattern.{each_of}
use gpu_lab.Base.Random.{Random, Draw, pure, or_raise, ◌>>=◌}
use gpu_lab.Generator.Records.{user, answered, response}
use gpu_lab.ResearchEval.Items.{after_last}
use gpu_lab.Training.Augment.{Lookup, Addition, spec_of, desc_of, behind_last}

abbrev pub compose_q : List String
compose_q =
    "With {tool}, how do I {d1}, and also {d2}?"
    ∷ "What {tool} options let me {d1}, and {d2}, in the same command?" ∷ []

-- \b, between a word and what follows it.
abbrev pub word_ends : String → Bool
word_ends String.[] = true
word_ends (String.◌∷◌ c s) = not (is_word c)

-- `word` occurs with \b before and behind it, given whether the character before is of a word.
unfoldable pub has_word : Bool → String → String → Bool
unfolding after_prefix
has_word inside word String.[] = false
has_word inside word (String.◌∷◌ c s) =
    let later = has_word (is_word c) word s in
    elim (after_prefix word (String.◌∷◌ c s)) [
      | none ↦ later
      | some t ↦ (not inside && word_ends t) || later
    ]

-- (^|[\s,])-h\b, given whether the character before opens it.
short_help : Bool → String → Bool
unfolding after_prefix
short_help opens String.[] = false
short_help opens (String.◌∷◌ c s) =
    let later = short_help (is_space c || code c == 44) s in
    elim (after_prefix "-h" (String.◌∷◌ c s)) [
      | none ↦ later
      | some t ↦ (opens && word_ends t) || later
    ]

abbrev starts_letter : String → Bool
starts_letter String.[] = false
starts_letter (String.◌∷◌ c s) = let n = code c in (leb 65 n && leb n 90) || (leb 97 n && leb n 122)

-- --?[A-Za-z]
names_option : String → Bool
names_option String.[] = false
names_option (String.◌∷◌ c s) = (code c == 45 && starts_letter s) || names_option s

abbrev pub or_blank : Option String → String
or_blank o = elim o [ none ↦ "" | some t ↦ t ]

-- `junk`: an option for help or the version, or a description that names another option.
unfoldable pub junk : Lookup → Bool
unfolding spec_of short_help names_option has_word has_part after_last
junk x =
    let spec = or_blank (spec_of x.answer) in
    let desc = behind_last "` to " x.answer in
    has_part "--help" spec
    || has_part "--version" spec
    || short_help true spec
    || names_option desc
    || has_word false "help" desc

-- Two options of one tool, both in what the first lookup shows.
unfoldable pub composes : Lookup → Lookup → Bool
unfolding junk spec_of has_part
composes r o =
    o.tool == r.tool
    && not (o.flag == r.flag)
    && o.command == r.command
    && not (junk r)
    && not (junk o)
    && (elim (spec_of o.answer) [
      | none ↦ false
      | some spec ↦
          (elim (spec_of r.answer) [ none ↦ false | some _ ↦ true ]) && has_part spec r.shown
    ])

unfoldable pub pairs : List Lookup → List (Lookup × Lookup)
unfolding each_of composes
pairs cli = each_of (λ r. map (λ o. (r, o)) (keep (composes r) cli)) cli

-- tuple(sorted((r["flag"], o["flag"]))) + (r["tool"],)
abbrev pub key_of : Lookup × Lookup → String × String × String
unfolding str_le
key_of (r, o) = if str_le r.flag o.flag then (r.flag, o.flag, r.tool) else (o.flag, r.flag, r.tool)

abbrev pub was_seen : List (String × String × String) → String × String × String → Bool
was_seen seen key = any (λ k. k.0 == key.0 && k.1 == key.1 && k.2 == key.2) seen

abbrev pub composed_answer : Lookup → Lookup → String
unfolding spec_of desc_of
composed_answer r o =
    "Based on `"
    <> (r.command
        <> ("`, that takes two options:\n\n> `"
            <> (or_blank (spec_of r.answer)
                <> ("`: "
                    <> (desc_of r
                        <> ("\n> `"
                            <> (or_blank (spec_of o.answer)
                                <> ("`: "
                                    <> (desc_of o
                                        <> ("\n\nUse them together: `"
                                            <> (r.tool
                                                <> (" "
                                                    <> (r.flag
                                                        <> (" " <> (o.flag <> "`.")))))))))))))))

abbrev pub compose : Lookup → Lookup → String → Addition
unfolding spec_of desc_of
compose r o prompt = record {
  type = "compose";
  tool = some r.tool;
  flag = some r.flag;
  flag2 = some o.flag;
  fake_flag = none;
  command = some r.command;
  source = none;
  messages = user prompt ∷ r.call ∷ response r.shown ∷ answered (composed_answer r o) ∷ [];
}

abbrev pub compose_prompt : Lookup → Lookup → String → Option String
unfolding desc_of format
compose_prompt r o t = format t (("tool", r.tool) ∷ ("d1", desc_of r) ∷ ("d2", desc_of o) ∷ [])

module _ (rng : Random) where
  -- The loop over the pairs: `made` records are there already.
  unfoldable pub compose_loop :
      ℕ
      → ℕ
      → List (String × String × String)
      → List (Lookup × Lookup)
      → Draw rng.State (List Addition)
  compose_loop wanted made seen [] = pure []
  compose_loop wanted made seen ((r, o) ∷ ps) =
      let skip = compose_loop wanted made seen ps in
      let next = compose_loop wanted (suc made) (key_of (r, o) ∷ seen) ps in
      if leb wanted made
      then pure []
      else if was_seen seen (key_of (r, o))
      then skip
      else rng.choice compose_q >>= (λ t.
        or_raise (compose_prompt r o t)
        >>= (λ prompt. next >>= (λ rest. pure (compose r o prompt ∷ rest))))

  -- The pairs in an order that is drawn, if there are any.
  unfoldable pub shuffled_pairs : ℕ → List (Lookup × Lookup) → Draw rng.State (List Addition)
  unfolding compose_loop
  shuffled_pairs wanted [] = pure []
  shuffled_pairs wanted (p ∷ ps) =
      rng.sample (length (p ∷ ps)) (p ∷ ps) >>= compose_loop wanted 0 []

  -- The records for pairs; no pair is looked for if none is wanted.
  unfoldable pub compositions : ℕ → List Lookup → Draw rng.State (List Addition)
  unfolding pairs shuffled_pairs
  compositions wanted cli = shuffled_pairs wanted (if leb 1 wanted then pairs cli else [])
