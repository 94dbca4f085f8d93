-- ===== src/Make/Tests/Printed.antt =====
-- A makefile of two rules, `all` without a command, and what `parse` reads of it.
use operating_systems.Common.{◌++◌, ◌≡◌, refl, none, some, [], ◌∷◌, arith, replicate, map}
use operating_systems.CText.{codes, is_space}
use operating_systems.Make.Target.{zero_target}
use operating_systems.Make.Parser.{parse, counted}
use operating_systems.Make.Parser.Print.{Rule, IsRule, makefile_text, rule_target}
use operating_systems.Make.Parser.Roundtrip.{parse-makefile_text}

abbrev all : Rule
all = record { name = codes "all"; dependencies = codes "app" ∷ []; command = none }

abbrev app : Rule
app = record { name = codes "app"; dependencies = []; command = some (codes "gcc main.c") }

all-IsRule : IsRule all
unfolding is_space
all-IsRule = record {
  starts = ground arith;
  name_inside = ground arith;
  no_colon = ground arith;
  name_fits = ground arith;
  few = ground arith;
  words = (((λ e. cc), (refl, (refl, (refl, tt)))), tt);
  dependencies_inside = ground arith;
  dependencies_fit = ground arith;
  command_fits = tt;
}

app-IsRule : IsRule app
app-IsRule = record {
  starts = ground arith;
  name_inside = ground arith;
  no_colon = ground arith;
  name_fits = ground arith;
  few = ground arith;
  words = tt;
  dependencies_inside = tt;
  dependencies_fit = tt;
  command_fits = ground arith;
}

-- The text, as it stands in the file.
text_of_rules : makefile_text (all ∷ app ∷ []) ≡ codes "all: app\napp:\n\tgcc main.c\n"
text_of_rules = refl

parse-makefile_text_example :
    parse (some (makefile_text (all ∷ app ∷ [])))
    ≡ counted 2 (map rule_target (all ∷ app ∷ []) ++ replicate 8 zero_target)
parse-makefile_text_example =
    parse-makefile_text (all ∷ app ∷ []) (all-IsRule, (app-IsRule, tt)) (omega arith)
