-- ===== src/Training/Augment/Answers.antt =====
-- training/augment_research.py, `main`: the ordinary answers and the asserted traps.
pub mod Numbers
use Prim.Native.String.{String}
use gpu_lab.Base.{ℕ, zero, suc, ◌+◌, ◌*◌, ◌/◌, ◌%◌, ◌<>◌, Bool, true, false, ◌&&◌, ◌||◌, not}
use gpu_lab.Base.{Option, none, some, List, [], ◌∷◌, leb, if◌then◌else◌, ◌==◌, nat_eq}
use gpu_lab.Base.{string_eq, length, any, keep, get_elem?}
use gpu_lab.Base.Text.{strip, chars, after_prefix}
use gpu_lab.Base.Format.{format, lower, str_of}
use gpu_lab.Base.Random.{Random, Draw, pure, ◌>>=◌}
use gpu_lab.Generator.Specs.{TrapSpec}
use gpu_lab.Generator.Traps.{trap_specs}
use gpu_lab.Generator.Records.{user, answered, response}
use gpu_lab.Training.Augment.{Lookup, Addition}
use gpu_lab.Training.Augment.Compose.{has_word}
use gpu_lab.Training.Augment.Fallbacks.{trap_addition}

-- A line of the file of Dolly.
pub record Dolly : Type 0 where
  pub instruction : String
  pub context : String
  pub response : String
  pub category : String

-- The words of the pattern `techy`.
abbrev pub techy_words : List String
techy_words =
    "command" ∷ "flag" ∷ "option" ∷ "linux" ∷ "unix" ∷ "shell" ∷ "bash" ∷ "terminal" ∷ "git"
    ∷ "docker" ∷ "install" ∷ "python" ∷ "code" ∷ "program" ∷ "script" ∷ "sql" ∷ "api" ∷ "cli"
    ∷ "kubernetes" ∷ "server" ∷ "software" ∷ "computer" ∷ "pride and prejudice" ∷ "austen"
    ∷ "canberra" ∷ "capital of australia" ∷ "chemical symbol" ∷ "gold" ∷ "continent" ∷ "continents"
    ∷ "red planet" ∷ "mars" ∷ "romeo" ∷ "haiku" ∷ "golden retriever" ∷ "race condition" ∷ "thread"
    ∷ "tcp" ∷ "udp" ∷ "binary search" ∷ "idempotent" ∷ "birthday" ∷ []

-- techy.search(text)
unfoldable pub techy : String → Bool
unfolding has_word lower
techy text = any (λ w. has_word false w (lower text)) techy_words

abbrev pub is_plain_category : String → Bool
is_plain_category c =
    c == "open_qa"
    || c == "general_qa"
    || c == "brainstorming"
    || c == "creative_writing"
    || c == "classification"

-- A line from which a record is made.
unfoldable pub in_pool : Dolly → Bool
unfolding strip chars techy
in_pool d =
    is_plain_category d.category
    && strip d.context == ""
    && leb 20 (chars d.response)
    && leb (chars d.response) 600
    && not (techy (d.instruction <> (" " <> d.response)))

-- A record without a tool.
abbrev pub plain_addition : String → Option String → String → String → Addition
plain_addition type source question reply = record {
  type = type;
  tool = none;
  flag = none;
  flag2 = none;
  fake_flag = none;
  command = none;
  source = source;
  messages = user question ∷ answered reply ∷ [];
}

unfoldable pub general_answers : List Dolly → List Addition
unfolding strip
general_answers [] = []
general_answers (d ∷ ds) =
    plain_addition "general_answer" (some ("dolly-15k/" <> d.category)) (strip d.instruction)
      (strip d.response)
    ∷ general_answers ds

-- n / 5 as `:g` prints it, for the numbers that occur: with one digit behind the point, or none.
abbrev fifths : ℕ → String
unfolding str_of
fifths n =
    let rest = n * 2 % 10 in
    if rest == 0 then str_of (n / 5) else str_of (n / 5) <> ("." <> str_of rest)

-- The five questions with their answers.
unfoldable pub sums : ℕ → ℕ → List (String × String)
unfolding str_of
sums x y =
    let a = str_of x in
    let b = str_of y in
    let product = str_of (x * y) in
    let many = str_of (x * 20) in
    let share = fifths (y * x) in
    let hours = str_of (x / 10) in
    let far = str_of (y * (x / 10)) in
    (
      "What is " <> (a <> (" times " <> (b <> "?"))),
      a <> (" × " <> (b <> (" = " <> (product <> ".")))),
    )
    ∷ (
      "What is " <> (a <> (" plus " <> (b <> "?"))),
      a <> (" + " <> (b <> (" = " <> (str_of (x + y) <> ".")))),
    )
    ∷ (
      "What is " <> (product <> (" divided by " <> (b <> "?"))),
      product <> (" ÷ " <> (b <> (" = " <> (a <> ".")))),
    )
    ∷ (
      "What is " <> (b <> ("% of " <> (many <> "?"))),
      b <> ("% of " <> (many <> (" is " <> (share <> ".")))),
    )
    ∷ (
      "A cyclist rides at " <> (b <> (" km/h for " <> (hours <> " hours. How far do they go?"))),
      "Distance is speed times time: " <> (b <> (" × " <> (hours <> (" = " <> (far <> " km."))))),
    )
    ∷ []

module _ (r : Random) where
  -- The lines drawn; nothing is drawn if none is wanted.
  unfoldable pub general : ℕ → List Dolly → Draw r.State (List Addition)
  unfolding general_answers in_pool
  general zero dolly = pure []
  general (suc n) dolly =
      r.sample (suc n) (keep in_pool dolly) >>= (λ ds. pure (general_answers ds))

  unfoldable pub arithmetic : ℕ → Draw r.State (List Addition)
  unfolding sums
  arithmetic zero s = some ([], s)
  arithmetic (suc n) s =
      let (x, s1) = r.randint 13 97 s in
      let (y, s2) = r.randint 3 49 s1 in
      let more = arithmetic n in
      (r.choice (sums x y)
          >>= (λ q. more >>= (λ rest. pure (plain_addition "arithmetic" none q.0 q.1 ∷ rest))))
        s2

-- What the table says that an invented flag is for.
unfoldable pub trap_desc : List TrapSpec → String → String → Option String
trap_desc [] tool fake = none
trap_desc (t ∷ ts) tool fake =
    let rest = trap_desc ts tool fake in
    if t.tool_name == tool && t.fake_flag == fake then some t.fake_desc else rest

abbrev pub denial : Lookup → String
denial l =
    "I checked `"
    <> (l.command
        <> ("`: `"
            <> (l.tool
                <> ("` has no `"
                    <> (l.flag
                        <> ("` option, so that command would fail. Whoever suggested it may have another tool or an old wrapper in mind; `"
                            <> (l.command
                                <> ("` lists what `" <> (l.tool <> "` actually supports.")))))))))

abbrev pub asserted_question : Lookup → String → Bool → String
asserted_question l desc second =
    let called = "`" <> (l.tool <> (" " <> (l.flag <> "`"))) in
    if second
    then "Our runbook says to use "
      <> (called <> (" for " <> (desc <> ". What's the right way to call it?")))
    else "My teammate swears " <> (called <> (" is how you get " <> (desc <> ". How do I run it?")))

abbrev pub asserted_trap : Lookup → String → Addition
asserted_trap l question =
    trap_addition "asserted_trap" l
      (user question ∷ l.call ∷ response l.shown ∷ answered (denial l) ∷ [])

-- The loop over the asserted traps, from the number `n` on; no trap at all is a ZeroDivisionError.
unfoldable pub asserted : List Lookup → ℕ → ℕ → Option (List Addition)
unfolding trap_desc
asserted traps n zero = some []
asserted traps n (suc left) =
    let later = asserted traps (suc n) left in
    let count = length traps in
    elim (get_elem? traps (n % count)) [
      | none ↦ none
      | some l ↦ elim (trap_desc trap_specs l.tool l.flag) [
        | none ↦ later
        | some desc ↦ elim later [
          | none ↦ none
          | some rest ↦
              some (asserted_trap l (asserted_question l desc (n / count % 2 == 1)) ∷ rest)
        ]
      ]
    ]
