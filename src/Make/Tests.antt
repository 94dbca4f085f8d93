-- ===== src/Make/Tests.antt =====
-- A makefile with the targets `all: app` and `app: main.c`, and runs of `build` on it.
mod Printed
mod Runs
mod Shown
mod Times
use operating_systems.Common.{
  ◌≢◌, replicate, Option-cases, All-get_elem?, All-replicate, inl, inr, true, subst, ℕ, zero, suc,
  ◌+◌, ◌≡◌, ◌<◌, refl, none, some, List, [], ◌∷◌, arith, if◌then◌else◌, get_elem?,
}
use operating_systems.CText.{fgets_line, has_char, Bytes, codes, str_eq}
use operating_systems.Make.Target.{
  parse_into_tokens, unfinished, finished, needs_building, Target, zero_target, find_target,
  find_from, compare_modification_time,
}
use operating_systems.Make.Build.{
  out_of_fuel, reset, with_status, visit_all, visit, conclude, finish, child, Os, Ptr, initial, at,
  State, Result, built, deref, set_status, execute, exited, build, start, up_to_date,
}
use operating_systems.Make.Build.Returns.{build_returns}
use operating_systems.Make.Build.Once.{Ranked}
use operating_systems.Make.Build.Sound.{Outcome}
use operating_systems.Make.Build.Start.{build-parse}
use operating_systems.Make.Build.Frame.{dependencies}
use operating_systems.Make.Parser.{parse, counted, init_cursor, parse_lines}
use operating_systems.Make.Parser.Fuel.{parse_lines_enough}
use operating_systems.Make.Build.Stale.{build_files, all_older, TimesFit}

-- The files are a clock: `app` is rewritten at every command, and `main.c` is from time 5.
abbrev pub clock : Os
clock = record {
  World = ℕ;
  mtime = λ w name.
      if str_eq name (codes "main.c")
      then some 5
      else if str_eq name (codes "app")
      then some w
      else none;
  fork_ok = λ w. true;
  run = λ w argv. (w + 3, exited 0);
}

abbrev app : Target
app = record {
  target_name = codes "app";
  dependency_count = 1;
  dependency_names = codes "main.c" ∷ replicate 9 [];
  command = codes "gcc main.c";
  status = unfinished;
}

abbrev all : Target
all = record {
  target_name = codes "all";
  dependency_count = 1;
  dependency_names = codes "app" ∷ replicate 9 [];
  command = codes "echo done";
  status = unfinished;
}

-- An entry that the parser has not written.
abbrev blank : Target
blank = record {
  target_name = [];
  dependency_count = 0;
  dependency_names = replicate 10 [];
  command = [];
  status = unfinished;
}

abbrev pub makefile : Bytes
makefile = codes "# two targets\n\nall: app\n\techo done\napp: main.c\n\tgcc main.c\n"

abbrev pub two : List Target
two = all ∷ app ∷ replicate 8 blank

abbrev begin : State clock
begin = record { initial_target = all; targets = two; world = 3; ran = [] }

-- `app` is alone at level 1, under `all`.
abbrev level : Ptr → ℕ
level initial = 2
level (at zero) = 2
level (at (suc zero)) = 1
level (at (suc (suc i))) = 0

app_lower : (j : ℕ) → some 1 ≡ some j → level (at j) < 2
app_lower j e = subst (λ x. level (at x) < 2) (one j e) (omega arith)
  where
    one : (i : ℕ) → some 1 ≡ some i → 1 ≡ i
    one i e' = cc

-- The parser reads the targets from the text.
pub makefile_parsed : parse (some makefile) ≡ counted 2 two
unfolding parse fgets_line has_char zero_target
makefile_parsed = refl

no_dependencies : (i : ℕ) → dependencies (deref clock begin (at (suc (suc i)))) ≡ []
unfolding deref zero_target
no_dependencies i = elim (Option-cases (get_elem? (replicate 8 blank) i)) [
  | inl e ↦ rw (e, deref) refl
  | inr (t, e) ↦ rw (e, deref) (rw (no_count i t e) refl)
]
  where
    no_count :
        (k : ℕ) (t : Target) → get_elem? (replicate 8 blank) k ≡ some t → t.dependency_count ≡ 0
    no_count k t e =
        All-get_elem? (λ x. x.dependency_count ≡ 0) (replicate 8 blank) k t
          (All-replicate (λ x. x.dependency_count ≡ 0) 8 blank refl) e

begin-Ranked : Ranked clock level 2 begin
unfolding deref zero_target find_target find_from str_eq
begin-Ranked initial = (λ j e. app_lower j e, tt)
begin-Ranked (at zero) = (λ j e. app_lower j e, tt)
begin-Ranked (at (suc zero)) = (λ j e. absurd (cc), tt)
begin-Ranked (at (suc (suc i))) = rw (no_dependencies i) tt

build-parse_example :
    Outcome clock level (λ st. st ≡ finished) initial begin (build clock 3 2 initial begin)
unfolding start find_target find_from str_eq reset with_status
build-parse_example =
    build-parse clock level 2 3 makefile two 3 (codes "all") begin makefile_parsed refl begin-Ranked
      (omega arith)

-- `all: app` and `app: all`
abbrev knot : State clock
knot = record begin {
  targets =
      all ∷ record app { dependency_names = codes "all" ∷ replicate 9 [] } ∷ replicate 8 blank;
}

build_returns_example : build clock 24 2 initial knot ≢ out_of_fuel
build_returns_example = build_returns clock 24 2 initial knot tt (omega arith)

abbrev ran_of : Result clock → List Ptr
ran_of (built s) = s.ran
ran_of r = []

-- The dependency is built first.
two_ran : ran_of (build clock 3 2 initial begin) ≡ initial ∷ at 1 ∷ []
unfolding build visit_all visit conclude execute finish child up_to_date set_status with_status
    deref find_target str_eq compare_modification_time parse_into_tokens
two_ran = refl

times_fit : TimesFit clock 2 begin
unfolding str_eq
times_fit name t e = ground arith

build_files_example : build clock 1 2 (at 1) begin ≡ (
    if all_older clock 2 begin (at 1) (codes "main.c" ∷ [])
    then built (set_status clock begin (at 1) finished)
    else execute clock (set_status clock begin (at 1) needs_building) (at 1))
unfolding deref find_target find_from str_eq
build_files_example =
    build_files clock 2 0 (at 1) begin (omega arith) refl (refl, tt) refl times_fit
