-- ===== src/ResearchEval/Commands/Harmless.antt =====
-- What the commands can be that are run.
use Prim.Native.String.{String}
use gpu_lab.Base.{inl, inr, ◌≡◌, subst, Bool, true, false, ◌&&◌, ◌||◌, not}
use gpu_lab.Base.{some, List, [], ◌∷◌, arith, leb, ◌==◌, nat_eq, string_eq}
use gpu_lab.Base.{length, contains, all, Option-cases, Bool-cases}
use gpu_lab.Base.Text.{starts_with}
use gpu_lab.ResearchEval.Commands.{
  every, is_page, is_number, is_subcommand, is_help, is_allowed, subcommand_bins,
}
use gpu_lab.ResearchEval.Commands.{shlex_split, without_redirect, allowed_argv}

-- A word that is no option, or asks for help.
abbrev pub is_plain : String → Bool
is_plain w = not (starts_with w "-") || is_help w

-- The last argument asks for help.
abbrev pub asks_help : List String → Bool
asks_help [] = false
asks_help (w ∷ []) = is_help w
asks_help (w ∷ v ∷ ws) = asks_help (v ∷ ws)

-- man on one page, or on one in a section, without an option; or a known program that is asked for
-- help, itself or, where it is one that has subcommands, for one of them.
abbrev pub is_harmless : List String → List String → Bool
is_harmless bins [] = false
is_harmless bins (a ∷ args) =
    leb 1 (length args)
    && leb (length args) 2
    && ((a == "man" && all (λ w. not (starts_with w "-")) args)
        || (contains bins a
            && asks_help args
            && all is_plain args
            && (length args == 1 || contains subcommand_bins a)))

page-plain : (w : String) → is_page w ≡ true → starts_with w "-" ≡ false
unfolding is_page starts_with
page-plain String.[] h = ground arith
page-plain (String.◌∷◌ c s) h = ground arith

number-plain : (w : String) → is_number w ≡ true → starts_with w "-" ≡ false
unfolding is_number every starts_with
number-plain String.[] h = ground arith
number-plain (String.◌∷◌ c s) h = ground arith

subcommand-plain : (w : String) → is_subcommand w ≡ true → is_plain w ≡ true
unfolding is_subcommand starts_with
subcommand-plain String.[] h = ground arith
subcommand-plain (String.◌∷◌ c s) h = ground arith

allowed-harmless :
    (bins argv : List String) → is_allowed bins argv ≡ true → is_harmless bins argv ≡ true
unfolding is_allowed
allowed-harmless bins [] h = ground arith
allowed-harmless bins (a ∷ []) h = ground arith
allowed-harmless bins (a ∷ b ∷ []) h = ground (arith, page-plain b)
allowed-harmless bins (a ∷ b ∷ c ∷ []) h =
    ground (arith, number-plain b, page-plain c, subcommand-plain b)
allowed-harmless bins (a ∷ b ∷ c ∷ d ∷ e) h = ground arith

-- A command that is run only reads documentation, whatever the model wrote: it is man with one or two
-- arguments and no option, or a known program whose last argument is --help or -h, alone or behind one
-- word that is no other option, and the latter only for a program that has subcommands.
pub allowed_argv-harmless :
    (bins : List String) (cmd : String) (argv : List String)
    → allowed_argv bins cmd ≡ some argv
    → is_harmless bins argv ≡ true
unfolding allowed_argv
allowed_argv-harmless bins cmd argv h = elim (Option-cases (shlex_split (without_redirect cmd))) [
  | inl e ↦ ground (arith, rw (allowed_argv, e) at h)
  | inr (words, e) ↦ elim (Bool-cases (is_allowed bins words)) [
    | inl ok ↦
        let is : some words ≡ some argv = rw (allowed_argv, e, ok) at h in
        let same : words ≡ argv = cc is in
        subst (λ w. is_harmless bins w ≡ true) same (allowed-harmless bins words ok)
    | inr bad ↦ ground (arith, rw (allowed_argv, e, bad) at h)
  ]
]
