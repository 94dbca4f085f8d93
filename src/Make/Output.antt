-- ===== src/Make/Output.antt =====
-- `show_targets` and `show_error_message` of `Project 1 - Makefile/main.c`: what they print. `none` is
-- a read outside of an array.
pub mod Reads
use operating_systems.Common.{
  ℕ, zero, suc, Option, none, some, List, [], ◌∷◌, ◌++◌, ◌==◌, ltb, if◌then◌else◌,
}
use operating_systems.CText.{Bytes, codes}
use operating_systems.Numbers.{format_int}
use operating_systems.Make.Target.{Target}

-- The loop over the dependencies, with the rounds left.
unfoldable pub dependency_names_text : ℕ → List Bytes → Option Bytes
dependency_names_text zero names = some []
dependency_names_text (suc n) [] = none
dependency_names_text (suc n) (d ∷ ds) = elim (dependency_names_text n ds) [
  | none ↦ none
  | some rest ↦ some (d ++ (if n == 0 then codes "\n" else codes ", ") ++ rest)
]

unfoldable pub shown_names : Target → Option Bytes
unfolding dependency_names_text
shown_names t = elim (dependency_names_text t.dependency_count t.dependency_names) [
  | none ↦ none
  | some names ↦ some (if ltb 0 t.dependency_count then codes "DependencyNames: " ++ names else [])
]

unfoldable pub shown_target : Target → Option Bytes
unfolding shown_names format_int
shown_target t = elim (shown_names t) [
  | none ↦ none
  | some names ↦ some (
      codes "TargetName: "
      ++ t.target_name
      ++ codes "\nDependencyCount: "
      ++ format_int t.dependency_count
      ++ codes "\n"
      ++ names
      ++ codes "Command: "
      ++ t.command
      ++ codes "\n\n")
]

-- `show_targets` on the first `n` targets.
unfoldable pub show_targets : ℕ → List Target → Option Bytes
unfolding shown_target
show_targets zero ts = some []
show_targets (suc n) [] = none
show_targets (suc n) (t ∷ ts) = elim (shown_target t) [
  | none ↦ none
  | some text ↦ elim (show_targets n ts) [ none ↦ none | some rest ↦ some (text ++ rest) ]
]

-- `show_error_message`, which ends the process with `exit(0)`.
unfoldable pub show_error_message : Bytes → Bytes
show_error_message exec_name =
    codes "Usage: "
    ++ exec_name
    ++ codes " [options] [target] : only single target is allowed.\n"
    ++ codes "-f FILE\t\tRead FILE as a makefile.\n"
    ++ codes "-h\t\tPrint this message and exit.\n"
