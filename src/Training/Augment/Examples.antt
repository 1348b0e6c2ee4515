-- ===== src/Training/Augment/Examples.antt =====
-- A man page, two answers, and a small data set to which records are added.
use Prim.Native.String.{String}
use gpu_lab.Base.{◌/◌, ◌≡◌, refl, arith, none, some, List, [], ◌∷◌, length}
use gpu_lab.Base.{Option, nat_eq, string_eq}
use gpu_lab.Base.Text.{after_prefix}
use gpu_lab.Generator.Records.{Finished, user, bash_call}
use gpu_lab.Training.Augment.{
  Lookup, Source, cli_grounded, trap_refusal, plain, man_window, spec_of,
}
use gpu_lab.Training.Augment.Answers.{sums}
use gpu_lab.Training.Augment.Marks.{Wanted}

overstruck : plain "N\u{8}NA\u{8}AM\u{8}ME" ≡ "NAME"
unfolding plain nat_eq
overstruck = refl

second_name :
    man_window "NAME\n  -a, --all\n  -c, --color x" "--color"
    ≡ some "NAME\n  -a, --all\n  -c, --color x"
unfolding man_window after_prefix nat_eq
second_name = refl

no_such_flag : man_window "NAME\n  -a, --all\n  --colors" "--color" ≡ none
unfolding man_window after_prefix nat_eq
no_such_flag = refl

option_named : spec_of "Based on `ls`, the option is `-a, --all`:" ≡ some "-a, --all"
unfolding spec_of nat_eq string_eq
option_named = refl

a_share : length (sums 97 49) ≡ 5
unfolding sums
a_share = refl

abbrev lookup : Lookup
lookup = record {
  tool = "ls";
  flag = "--all";
  command = "ls --help";
  question = user "How do I list all files with ls?";
  call = bash_call "ls --help";
  shown = "-a, --all  list all";
  answer =
      "Based on `ls --help`, the option is `-a, --all`.\n\nYou can use it with `ls` to list all.";
}

abbrev trap : Lookup
trap = record {
  tool = "tar";
  flag = "--quantum-compress";
  command = "tar --help";
  question = user "How do I use --quantum-compress?";
  call = bash_call "tar --help";
  shown = "-c  create";
  answer = "tar does not support `--quantum-compress`.";
}

abbrev v1 : List Source
v1 = cli_grounded lookup ∷ trap_refusal trap ∷ []

abbrev wanted : Wanted
wanted = record {
  seed = 7;
  off_count = λ n. n / 3;
  web_fallback = 1;
  man_fallback = 1;
  lookup_failed = 1;
  trap_failed = 2;
  compose = 1;
  general = 0;
  asserted = 1;
  arith = 1;
}

abbrev no_man : String → Option Finished
no_man page = none
