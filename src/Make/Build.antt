-- ===== src/Make/Build.antt =====
-- `build` and the choice of the target in `main`, of `Project 1 - Makefile/main.c`. The file system,
-- `fork` and the commands are a parameter. The target that `main` builds is a copy of an entry of
-- the array, so a target is named by a pointer: to that copy or to an entry.
pub mod Frame
pub mod Sound
pub mod Runs
pub mod Once
pub mod Depth
pub mod Returns
pub mod Start
pub mod Stale
use operating_systems.Common.{
  ℕ, zero, suc, ◌+◌, ◌≡◌, Bool, true, false, Option, none, some, List, [], ◌∷◌, ◌++◌, ltb, ◌==◌,
  if◌then◌else◌, get_elem?, set, take,
}
use operating_systems.CText.{Bytes}
use operating_systems.Make.Target.{
  Status, unfinished, finished, needs_building, Target, zero_target, find_target, Comparison,
  missing, identical, later, earlier, compare_modification_time, parse_into_tokens,
}

-- How a child ends: with an exit status, or by a signal.
pub data Exit : Type 0 where
  exited : ℕ → Exit
  killed : Exit

-- What the program asks of the system. `run` is the child from `execvp` on, with the files after it.
pub record Os : Type 1 where
  pub World : Type 0
  pub mtime : World → Bytes → Option ℕ
  pub fork_ok : World → Bool
  pub run : World → List Bytes → World × Exit

pub data Ptr : Type 0 where
  initial : Ptr
  at : ℕ → Ptr

module _ (os : Os) where
  open os use {World, mtime, fork_ok, run}

  -- The targets, the files, and the targets whose commands have run, newest first.
  pub record State : Type 0 where
    pub initial_target : Target
    pub targets : List Target
    pub world : World
    pub ran : List Ptr

  -- `build` returns 0 or -1; `overrun` is a write past the pointers of the child's `tokens`.
  pub data Result : Type 0 where
    built failed overrun : State → Result
    out_of_fuel : Result

  unfoldable pub deref : State → Ptr → Target
  deref s initial = s.initial_target
  deref s (at i) = elim (get_elem? s.targets i) [ none ↦ zero_target | some t ↦ t ]

  unfoldable pub with_status : Target → Status → Target
  with_status t st = record t { status = st }

  -- `target->Status = st`
  unfoldable pub set_status : State → Ptr → Status → State
  unfolding with_status deref
  set_status s initial st = record s { initial_target = with_status s.initial_target st }
  set_status s (at i) st = record s { targets = set s.targets i (with_status (deref s (at i)) st) }

  -- The dependency is older than the target: `compare_modification_time(...) == 2`.
  unfoldable pub up_to_date : State → Bytes → Bytes → Bool
  up_to_date s dependency target =
      elim (compare_modification_time (mtime s.world dependency) (mtime s.world target)) [
        | earlier ↦ true
        | _ ↦ false
      ]

  -- The child, and what the parent makes of its end. A child with no command calls `execvp(NULL)`,
  -- which reads from a null pointer, so that a signal kills it.
  unfoldable pub finish : State → Ptr → World × Exit → Result
  unfolding set_status
  finish s p (w, exited zero) =
      built (set_status (record s { world = w; ran = p ∷ s.ran }) p finished)
  finish s p (w, exited (suc n)) = failed (record s { world = w; ran = p ∷ s.ran })
  finish s p (w, killed) = built (set_status (record s { world = w; ran = p ∷ s.ran }) p finished)

  unfoldable pub child : State → List Bytes → World × Exit
  child s [] = (s.world, killed)
  child s (t ∷ ts) = run s.world (t ∷ ts)

  -- `build` behind its loop: the fork, the child and the wait.
  unfoldable pub execute : State → Ptr → Result
  unfolding finish child
  execute s p =
      if fork_ok s.world
      then elim (parse_into_tokens 10 (deref s p).command) [
        | none ↦ overrun s
        | some argv ↦ finish s p (child s argv)
      ]
      else failed s

  unfoldable pub conclude : State → Ptr → Result
  conclude s p = elim (deref s p).status [
    | needs_building ↦ execute s p
    | _ ↦ built (set_status s p finished)
  ]

  -- One round of the loop over the dependencies. `build_it` is the recursive call.
  unfoldable pub visit : (Ptr → State → Result) → ℕ → Ptr → State → Bytes → Result
  visit build_it n p s dependency = elim (find_target dependency s.targets n) [
    | none ↦ elim (deref s p).status [
      | unfinished ↦
          if up_to_date s dependency (deref s p).target_name
          then built s
          else built (set_status s p needs_building)
      | _ ↦ built s
    ]
    | some j ↦ elim (deref s (at j)).status [
      | unfinished ↦
          if up_to_date s (deref s (at j)).target_name (deref s p).target_name
          then built s
          else build_it (at j) (set_status s p needs_building)
      | _ ↦ built s
    ]
  ]

  unfoldable pub visit_all : (Ptr → State → Result) → ℕ → Ptr → State → List Bytes → Result
  visit_all build_it n p s [] = built s
  visit_all build_it n p s (d ∷ ds) = elim (visit build_it n p s d) [
    | built s' ↦ visit_all build_it n p s' ds
    | r ↦ r
  ]

  -- `build`, with the depth of the recursion as fuel and `n` targets.
  unfoldable pub build : ℕ → ℕ → Ptr → State → Result
  build zero n p s = out_of_fuel
  build (suc fuel) n p s =
      let t = deref s p in
      let loop = visit_all (build fuel n) n p s (take t.dependency_count t.dependency_names) in
      if t.dependency_count == 0
      then conclude (set_status s p needs_building) p
      else elim loop [ built s' ↦ conclude s' p | r ↦ r ]

  -- `Status = UNFINISHED` for the first `n` targets.
  unfoldable pub reset : ℕ → List Target → List Target
  unfolding with_status
  reset zero ts = ts
  reset (suc n) [] = []
  reset (suc n) (t ∷ ts) = with_status t unfinished ∷ reset n ts

  -- `main` between the parser and `build`; `none` is the read of `targets[-1]`.
  unfoldable pub start : List Target → ℕ → World → Bytes → Option State
  unfolding reset
  start targets n w name = elim (find_target name targets n) [
    | none ↦ none
    | some i ↦ some (record {
      initial_target = elim (get_elem? targets i) [ none ↦ zero_target | some t ↦ t ];
      targets = reset n targets;
      world = w;
      ran = [];
    })
  ]
