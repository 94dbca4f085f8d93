-- ===== src/Make/Parser/Print.antt =====
-- Makefiles as text, for `parse` of `Project 1 - Makefile/util.c`: rules with a command or without.
use operating_systems.Common.{
  ℕ, ◌-◌, ◌*◌, ◌≤◌, ◌<◌, ◌≡◌, ◌≢◌, refl, ap, ◌∙◌, false, Option, none, some, List, [], ◌∷◌, ◌++◌,
  ◌==◌, length, replicate, arith, All, All-append, length-append,
}
use operating_systems.CText.{Bytes, tokens, is_space}
use operating_systems.CText.Words.{
  IsWord, words_from, flush, words_from-append, flush_word, tokens-words,
}
use operating_systems.Make.Target.{Target, unfinished}

pub record Rule : Type 0 where
  pub name : Bytes
  pub dependencies : List Bytes
  pub command : Option Bytes

abbrev pub dependency_text : List Bytes → Bytes
dependency_text [] = []
dependency_text (d ∷ ds) = 32 ∷ (d ++ dependency_text ds)

-- The two lines of a rule, without their newlines.
abbrev pub head_line : Rule → Bytes
head_line r = r.name ++ 58 ∷ dependency_text r.dependencies

abbrev pub command_part : Option Bytes → Bytes → Bytes
command_part none rest = rest
command_part (some text) rest = (9 ∷ text) ++ 10 ∷ rest

abbrev pub makefile_text : List Rule → Bytes
makefile_text [] = []
makefile_text (r ∷ rs) = head_line r ++ 10 ∷ command_part r.command (makefile_text rs)

-- The entry of a rule.
abbrev pub given_command : Option Bytes → Bytes
given_command none = []
given_command (some text) = text

abbrev pub rule_target : Rule → Target
rule_target r = record {
  target_name = r.name;
  dependency_count = length r.dependencies;
  dependency_names = r.dependencies ++ replicate (10 - length r.dependencies) [];
  command = given_command r.command;
  status = unfinished;
}

-- A byte inside a line.
abbrev pub Inside : ℕ → Type 0
Inside c = (c ≢ 0) × (c ≢ 10)

-- The first byte is none that begins a comment or a command, and no space.
abbrev pub Starts : Bytes → Type 0
Starts [] = ⊥
Starts (c ∷ s) = (c ≢ 35) × (c ≢ 9) × (c ≢ 32)

abbrev pub CommandFits : Option Bytes → Type 0
CommandFits none = Unit
CommandFits (some text) = All Inside text × (length text < 256)

-- A rule that can be written in a makefile.
pub record IsRule (r : Rule) : Type 0 where
  pub starts : Starts r.name
  pub name_inside : All Inside r.name
  pub no_colon : All (λ c. (c == 58) ≡ false) r.name
  pub name_fits : length r.name < 64
  pub few : length r.dependencies ≤ 10
  pub words : All (IsWord is_space) r.dependencies
  pub dependencies_inside : All (All Inside) r.dependencies
  pub dependencies_fit : All (λ d. length d < 64) r.dependencies
  pub command_fits : CommandFits r.command

words_from-dependency_text :
    (w : Bytes) (ds : List Bytes)
    → All (IsWord is_space) ds
    → words_from is_space w (dependency_text ds) ≡ flush w ds
unfolding words_from is_space
words_from-dependency_text w [] h = refl
words_from-dependency_text w (d ∷ ds) h = ap (flush w) (
    words_from-append is_space [] d (dependency_text ds) h.0.1
    ∙ words_from-dependency_text d ds h.1
    ∙ flush_word is_space d ds h.0.0)

-- The dependencies are the words behind the colon.
pub tokens-dependency_text :
    (ds : List Bytes) → All (IsWord is_space) ds → tokens is_space (dependency_text ds) ≡ ds
tokens-dependency_text ds h =
    tokens-words is_space (dependency_text ds) ∙ words_from-dependency_text [] ds h

length-dependency_text :
    (ds : List Bytes) → All (λ d. length d < 64) ds → length (dependency_text ds) ≤ 64 * length ds
length-dependency_text [] h = omega arith
length-dependency_text (d ∷ ds) h =
    omega (arith, h.0, length-dependency_text ds h.1, length-append d (dependency_text ds))

dependency_text-Inside : (ds : List Bytes) → All (All Inside) ds → All Inside (dependency_text ds)
dependency_text-Inside [] h = tt
dependency_text-Inside (d ∷ ds) h = (
  (omega arith, omega arith),
  All-append Inside d (dependency_text ds) h.0 (dependency_text-Inside ds h.1),
)

pub head_line-Inside : (r : Rule) → IsRule r → All Inside (head_line r)
head_line-Inside r h =
    All-append Inside r.name (58 ∷ dependency_text r.dependencies) h.name_inside
      ((omega arith, omega arith), dependency_text-Inside r.dependencies h.dependencies_inside)

pub head_line_short : (r : Rule) → IsRule r → length (head_line r) < 1023
head_line_short r h = omega (
  arith,
  h.name_fits,
  h.few,
  length-dependency_text r.dependencies h.dependencies_fit,
  length-append r.name (58 ∷ dependency_text r.dependencies),
)

pub cons-append_some : (c : ℕ) (s t : Bytes) → s ++ c ∷ t ≢ []
cons-append_some c [] t e = cc
cons-append_some c (x ∷ s) t e = cc
