-- ===== src/Make/Build/Stale.antt =====
-- `build` of `Project 1 - Makefile/main.c` for a target that depends on files only.
use operating_systems.Common.{
  ℕ, suc, ◌<◌, ◌^◌, ltb, arith, sym, ap₂, Option, some, ◌==◌, ◌≡◌, refl, ◌∙◌, Bool, true, false,
  ◌&&◌, none, List, [], ◌∷◌, All, All-imp, Bool-cases, inl, inr, if◌then◌else◌,
}
use operating_systems.CText.{Bytes}
use operating_systems.Numbers.{to_int_small}
use operating_systems.Make.Target.{
  earlier, compare_modification_time, compare_times, modification_time, unfinished, finished,
  needs_building, find_target,
}
use operating_systems.Make.Build.{
  Os, Ptr, State, Result, built, deref, set_status, execute, up_to_date, visit, visit_all, build,
}
use operating_systems.Make.Build.Frame.{InRange, dependencies, set_status-Same}
use operating_systems.Make.Build.Sound.{status_of, set_status_new}
use operating_systems.Make.Build.Runs.{conclude_runs, conclude_skips}

module _ (os : Os) (n : ℕ) where
  -- `build` finds every one of the files up to date.
  abbrev all_up_to_date : State os → Ptr → List Bytes → Bool
  all_up_to_date s p [] = true
  all_up_to_date s p (d ∷ ds) =
      up_to_date os s d (deref os s p).target_name && all_up_to_date s p ds

  abbrev pub AreFiles : State os → List Bytes → Type 0
  AreFiles s = All (λ d. find_target d s.targets n ≡ none)

  visit_marked :
      (build_it : Ptr → State os → Result os) (p : Ptr) (s : State os) (d : Bytes)
      → find_target d s.targets n ≡ none
      → (deref os s p).status ≡ needs_building
      → visit os build_it n p s d ≡ built s
  unfolding visit
  visit_marked build_it p s d e h = rw (e, h, visit) refl

  visit_older :
      (build_it : Ptr → State os → Result os) (p : Ptr) (s : State os) (d : Bytes)
      → find_target d s.targets n ≡ none
      → (deref os s p).status ≡ unfinished
      → up_to_date os s d (deref os s p).target_name ≡ true
      → visit os build_it n p s d ≡ built s
  unfolding visit
  visit_older build_it p s d e h older = rw (e, h, older, visit) refl

  visit_stale :
      (build_it : Ptr → State os → Result os) (p : Ptr) (s : State os) (d : Bytes)
      → find_target d s.targets n ≡ none
      → (deref os s p).status ≡ unfinished
      → up_to_date os s d (deref os s p).target_name ≡ false
      → visit os build_it n p s d ≡ built (set_status os s p needs_building)
  unfolding visit
  visit_stale build_it p s d e h older = rw (e, h, older, visit) refl

  visit_all_marked :
      (build_it : Ptr → State os → Result os) (p : Ptr) (s : State os) (ds : List Bytes)
      → AreFiles s ds
      → (deref os s p).status ≡ needs_building
      → visit_all os build_it n p s ds ≡ built s
  unfolding visit_all
  visit_all_marked build_it p s [] files h = refl
  visit_all_marked build_it p s (d ∷ ds) files h =
      rw (visit_marked build_it p s d files.0 h, visit_all)
        (visit_all_marked build_it p s ds files.1 h)

  visit_all_files :
      (build_it : Ptr → State os → Result os) (p : Ptr) (s : State os) (ds : List Bytes)
      → InRange os s p
      → AreFiles s ds
      → (deref os s p).status ≡ unfinished
      → visit_all os build_it n p s ds
        ≡ built (if all_up_to_date s p ds then s else set_status os s p needs_building)
  unfolding visit_all
  visit_all_files build_it p s [] range files h = refl
  visit_all_files build_it p s (d ∷ ds) range files h =
      elim (Bool-cases (up_to_date os s d (deref os s p).target_name)) [
        | inl e ↦
            rw (e, visit_older build_it p s d files.0 h e, visit_all)
              (visit_all_files build_it p s ds range files.1 h)
        | inr e ↦
            rw (e, visit_stale build_it p s d files.0 h e, visit_all)
              (visit_all_marked build_it p (set_status os s p needs_building) ds
                (All-imp (λ x. find_target x s.targets n ≡ none)
                  (λ x. find_target x (set_status os s p needs_building).targets n ≡ none) ds
                  (λ x none_found.
                    (set_status-Same os s p needs_building range).finds x n ∙ none_found)
                  files.1)
                (set_status_new os (λ q. 0) s p needs_building range))
      ]

  built_or_executed :
      (fuel : ℕ) (p : Ptr) (s : State os)
      → InRange os s p
      → ((deref os s p).dependency_count == 0) ≡ false
      → AreFiles s (dependencies (deref os s p))
      → status_of os (λ q. 0) s p ≡ unfinished
      → build os (suc fuel) n p s ≡ (
          if all_up_to_date s p (dependencies (deref os s p))
          then built (set_status os s p finished)
          else execute os (set_status os s p needs_building) p)
  unfolding build
  built_or_executed fuel p s range depends files h =
      elim (Bool-cases (all_up_to_date s p (dependencies (deref os s p)))) [
        | inl e ↦
            rw
              (
                depends,
                visit_all_files (build os fuel n) p s (dependencies (deref os s p)) range files h,
                build,
                e,
              )
              (conclude_skips os (λ q. 0) s p h)
        | inr e ↦
            rw
              (
                depends,
                visit_all_files (build os fuel n) p s (dependencies (deref os s p)) range files h,
                build,
                e,
              )
              (conclude_runs os (λ q. 0) (set_status os s p needs_building) p
                (set_status_new os (λ q. 0) s p needs_building range))
      ]

  -- The dependency and the target exist, and the dependency has the smaller time.
  abbrev pub is_older : Option ℕ → Option ℕ → Bool
  is_older none time2 = false
  is_older (some a) none = false
  is_older (some a) (some b) = ltb a b

  -- Every one of the files is older than the target.
  abbrev pub all_older : State os → Ptr → List Bytes → Bool
  all_older s p [] = true
  all_older s p (d ∷ ds) =
      is_older (os.mtime s.world d) (os.mtime s.world (deref os s p).target_name)
      && all_older s p ds

  -- The files that exist have times that an `int` holds.
  abbrev pub TimesFit : State os → Type 0
  TimesFit s = (name : Bytes) (t : ℕ) → os.mtime s.world name ≡ some t → t < 2 ^ 31

  earlier-is_older :
      (time1 time2 : Option ℕ)
      → ((t : ℕ) → time1 ≡ some t → t < 2 ^ 31)
      → ((t : ℕ) → time2 ≡ some t → t < 2 ^ 31)
      → elim (compare_modification_time time1 time2) [ earlier ↦ true | _ ↦ false ]
        ≡ is_older time1 time2
  unfolding compare_modification_time compare_times modification_time
  earlier-is_older none time2 fits1 fits2 = refl
  earlier-is_older (some a) none fits1 fits2 = rw (to_int_small a (fits1 a refl)) refl
  earlier-is_older (some a) (some b) fits1 fits2 =
      rw (to_int_small a (fits1 a refl), to_int_small b (fits2 b refl)) (ground arith)

  up_to_date-is_older :
      (s : State os) (d t : Bytes)
      → TimesFit s
      → up_to_date os s d t ≡ is_older (os.mtime s.world d) (os.mtime s.world t)
  unfolding up_to_date
  up_to_date-is_older s d t h =
      earlier-is_older (os.mtime s.world d) (os.mtime s.world t) (h d) (h t)

  all_up_to_date-all_older :
      (s : State os) (p : Ptr) (ds : List Bytes)
      → TimesFit s
      → all_up_to_date s p ds ≡ all_older s p ds
  all_up_to_date-all_older s p [] h = refl
  all_up_to_date-all_older s p (d ∷ ds) h =
      ap₂ ◌&&◌ (up_to_date-is_older s d (deref os s p).target_name h)
        (all_up_to_date-all_older s p ds h)

  -- A target that is UNFINISHED and depends on files only, on one at least, where the files that exist
  -- have times of less than 2^31 seconds: if all of them and the target exist, and each has a smaller
  -- time than the target, nothing runs and the target is FINISHED; otherwise its command is executed.
  pub build_files :
      (fuel : ℕ) (p : Ptr) (s : State os)
      → InRange os s p
      → ((deref os s p).dependency_count == 0) ≡ false
      → AreFiles s (dependencies (deref os s p))
      → status_of os (λ q. 0) s p ≡ unfinished
      → TimesFit s
      → build os (suc fuel) n p s ≡ (
          if all_older s p (dependencies (deref os s p))
          then built (set_status os s p finished)
          else execute os (set_status os s p needs_building) p)
  build_files fuel p s range depends files h fit =
      rw (sym (all_up_to_date-all_older s p (dependencies (deref os s p)) fit))
        (built_or_executed fuel p s range depends files h)
