-- ===== src/Training/Tools.antt =====
-- training/tools.py: the tools that a model may call.
use gpu_lab.Base.{String, ◌<>◌, ◌≡◌, refl, ◌↔◌, ◌⊎◌, sym, subst, ◌∙◌, inl, inr, true, false, arith}
use gpu_lab.Base.{Option, none, some, List, [], ◌∷◌, map, contains, Bool-cases}
use gpu_lab.Base.{if◌then◌else◌, ◌==◌, string_eq, nat_eq, ==_refl, eq_of_==}
use gpu_lab.DatasetAudit.Samples.{known_tool}

-- A tool with its one parameter, which is required.
pub record Tool : Type 0 where
  pub name : String
  pub description : String
  pub parameter : String
  pub parameter_description : String

abbrev pub tools : List Tool
tools =
    record {
      name = "bash";
      description =
          "Execute a bash command in the terminal. Use this to inspect local documentation, "
          <> ("run CLI commands with --help or man, inspect files, check configurations, "
              <> "or examine system status rather than relying on memory.");
      parameter = "command";
      parameter_description = "The exact bash command line string to execute.";
    }
    ∷ record {
      name = "web_search";
      description =
          "Search online documentation, crate registries, API references, and technical "
          <> ("specifications. Use this when information is not available in local CLI help or "
              <> "files.");
      parameter = "query";
      parameter_description = "The search query string.";
    }
    ∷ []

-- `get_tool_names`
abbrev pub get_tool_names : List String
get_tool_names = map (λ t. t.name) tools

unfoldable pub find_tool : String → List Tool → Option Tool
find_tool name [] = none
find_tool name (t ∷ ts) = let rest = find_tool name ts in if t.name == name then some t else rest

-- `get_tool_by_name`, where none is a KeyError.
unfoldable pub get_tool_by_name : String → Option Tool
unfolding find_tool
get_tool_by_name name = find_tool name tools

-- What a search finds: a tool of that name, or nothing if no tool has it.
abbrev Finds : String → List Tool → Type 0
Finds name ts =
    ((find_tool name ts ≡ none) × (contains (map (λ t. t.name) ts) name ≡ false))
    ⊎ ((t : Tool) × (find_tool name ts ≡ some t)
        × (t.name ≡ name)
        × (contains (map (λ t. t.name) ts) name ≡ true))

==_flip : (a b : String) → (a == b) ≡ false → (b == a) ≡ false
==_flip a b h = elim (Bool-cases (b == a)) [
  | inl e ↦
      let same = eq_of_== b a e in
      absurd (
        let bad : (a == b) ≡ true = subst (λ x. (a == x) ≡ true) (sym same) (==_refl a) in
        ground arith)
  | inr e ↦ e
]

find_tool-Finds : (name : String) (ts : List Tool) → Finds name ts
unfolding find_tool
find_tool-Finds name [] = inl (refl, refl)
find_tool-Finds name (t ∷ ts) = elim (Bool-cases (t.name == name)) [
  | inl e ↦
      let same = eq_of_== t.name name e in
      let flipped : (name == t.name) ≡ true =
        subst (λ x. (x == t.name) ≡ true) same (==_refl t.name) in
      inr (t, rw (find_tool, e) refl, same, rw flipped refl)
  | inr e ↦
      let other = ==_flip t.name name e in
      elim (find_tool-Finds name ts) [
        | inl (f, g) ↦ inl (rw (find_tool, e) f, rw other g)
        | inr (u, f, n, g) ↦ inr (u, rw (find_tool, e) f, n, rw other g)
      ]
]

-- `get_tool_by_name` returns a tool of the name asked for, or raises KeyError exactly for the names
-- that the audit of the dataset does not know.
pub get_tool_by_name_exactly :
    (name : String)
    → ((get_tool_by_name name ≡ none) ↔ (known_tool (some name) ≡ false))
      × ((t : Tool) → get_tool_by_name name ≡ some t → t.name ≡ name)
unfolding get_tool_by_name
get_tool_by_name_exactly name = elim (find_tool-Finds name tools) [
  | inl (e, absent) ↦
      let unknown : known_tool (some name) ≡ false = ground (arith, absent) in
      ((λ h. unknown, λ h. e), λ t h. let bad : none ≡ some t = sym e ∙ h in absurd (ground arith))
  | inr (u, e, named, present) ↦
      let known : known_tool (some name) ≡ true = ground (arith, present) in
      (
        (
          λ h. let bad : some u ≡ none = sym e ∙ h in absurd (ground arith),
          λ h. absurd (ground arith),
        ),
        λ t h.
            let both : some u ≡ some t = sym e ∙ h in
            let same : u ≡ t = cc both in subst {A = Tool} (λ x. x.name ≡ name) same named,
      )
]
