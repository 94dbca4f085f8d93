-- ===== src/Make/Main.antt =====
-- `main` of `Project 1 - Makefile/main.c`. What `getopt` returns, the arguments behind the options, and
-- the texts of the files are arguments of it.
pub mod Ends
pub mod Default
use operating_systems.Common.{
  ℕ, zero, suc, ◌≡◌, Bool, Option, none, some, List, [], ◌∷◌, ltb, if◌then◌else◌, length, get_elem?,
}
use operating_systems.CText.{Bytes, codes}
use operating_systems.Make.Target.{Target, zero_target}
use operating_systems.Make.Parser.{parse, Parse, counted, invalid, no_file, overflow}
use operating_systems.Make.Build.{Os, State, Result, initial, start, build}

-- -f with its argument, and -h or what `getopt` does not know.
pub data Opt : Type 0 where
  file : Bytes → Opt
  help : Opt

-- The name of the makefile, `show_error_message`, or a `strcpy` past an array.
pub data Options : Type 0 where
  makefile : Bytes → Options
  usage too_long : Options

-- The loop over the options.
unfoldable pub read_options : Bytes → List Opt → Options
read_options name [] = makefile name
read_options name (file optarg ∷ opts) =
    let rest = read_options optarg opts in if ltb (length optarg) 64 then rest else too_long
read_options name (help ∷ opts) = usage

-- The name of the target; `none` is a `strcpy` past the 64 bytes.
unfoldable pub choose_target : List Bytes → List Target → Option Bytes
unfolding zero_target
choose_target [] [] = none
choose_target [] (t ∷ ts) = some t.target_name
choose_target (arg ∷ args) ts = if ltb (length arg) 64 then some arg else none

module _ (os : Os) where
  open os use {World}

  -- `ended` has the result of `build`, and `main` returns 0; `wild` is the read of `targets[-1]`.
  pub data MainResult : Type 0 where
    shown_usage not_parsed overran wild : MainResult
    ended : Result os → MainResult

  unfoldable pub run_target : ℕ → ℕ → List Target → World → Bytes → MainResult
  unfolding start build
  run_target fuel n targets w name = elim (start os targets n w name) [
    | none ↦ wild
    | some s ↦ ended (build os fuel n initial s)
  ]

  unfoldable pub run_parsed : ℕ → Parse → List Bytes → World → MainResult
  unfolding choose_target run_target
  run_parsed fuel no_file args w = not_parsed
  run_parsed fuel invalid args w = not_parsed
  run_parsed fuel overflow args w = overran
  run_parsed fuel (counted n targets) args w = elim (choose_target args targets) [
    | none ↦ overran
    | some name ↦ run_target fuel n targets w name
  ]

  -- `main` from the arguments on.
  unfoldable pub run_args : ℕ → Option Bytes → List Bytes → World → MainResult
  unfolding parse run_parsed
  run_args fuel content (arg ∷ other ∷ args) w = shown_usage
  run_args fuel content (arg ∷ []) w = run_parsed fuel (parse content) (arg ∷ []) w
  run_args fuel content [] w = run_parsed fuel (parse content) [] w

  -- `main`, with the depth of `build` as fuel.
  unfoldable pub main : ℕ → (Bytes → Option Bytes) → List Opt → List Bytes → World → MainResult
  unfolding read_options run_args
  main fuel content opts args w = elim (read_options (codes "Makefile") opts) [
    | usage ↦ shown_usage
    | too_long ↦ overran
    | makefile name ↦ run_args fuel (content name) args w
  ]
