-- ===== src/Make/Build/Runs.antt =====
-- What the end of `build` of `Project 1 - Makefile/main.c` does: the command runs, or nothing does.
use operating_systems.Common.{
  ℕ, zero, suc, ◌≡◌, refl, sym, ap, ◌∙◌, subst, ◌≢◌, ◌∷◌, All, All-imp, Bool-cases, Option-cases,
  inl, inr,
}
use operating_systems.Make.Target.{unfinished, finished, needs_building, parse_into_tokens}
use operating_systems.Make.Build.{
  Os, Ptr, initial, at, State, built, deref, set_status, finish, child, execute, conclude, Exit,
  exited, killed,
}
use operating_systems.Make.Build.Frame.{Same-refl, InRange, dependencies}
use operating_systems.Make.Build.Sound.{
  Status-cases, Distinct, status_of, Sound, Grown, Outcome, Outcome-after, not_run, set_status_ran,
  done_keeps, set_status-Grown, set_status-Sound, set_status_new,
}

module _ (os : Os) (level : Ptr → ℕ) where
  -- The state after a command.
  abbrev pub with_run : State os → Ptr → os.World → State os
  with_run s p w = record s { world = w; ran = p ∷ s.ran }

  pub deref-with_run :
      (s : State os) (p q : Ptr) (w : os.World) → deref os (with_run s p w) q ≡ deref os s q
  unfolding deref
  deref-with_run s p initial w = refl
  deref-with_run s p (at i) w = refl

  with_run-Grown : (s : State os) (p : Ptr) (w : os.World) → Grown os level p s (with_run s p w)
  with_run-Grown s p w = record {
    same = record {
      sized = refl;
      finds = λ d n. refl;
      depends = λ q. ap dependencies (deref-with_run s p q w);
    };
    others = λ q ne l. ap (λ t. t.status) (deref-with_run s p q w);
  }

  pub with_run_range :
      (s : State os) (p : Ptr) (w : os.World) → InRange os s p → InRange os (with_run s p w) p
  with_run_range s initial w h = h
  with_run_range s (at i) w h = h

  -- A target that is not finished has its command run and is then finished.
  run-Sound :
      (s : State os) (p : Ptr) (w : os.World)
      → InRange os s p
      → Sound os level s
      → status_of os level s p ≢ finished
      → Sound os level (set_status os (with_run s p w) p finished)
  run-Sound s p w range sound h = record {
    done =
        subst
          (All (λ q. status_of os level (set_status os (with_run s p w) p finished) q ≡ finished))
          (sym (set_status_ran os level (with_run s p w) p finished))
          (
            set_status_new os level (with_run s p w) p finished (with_run_range s p w range),
            done_keeps os level (with_run s p w) p finished s.ran
                (All-imp (λ q. status_of os level s q ≡ finished)
                  (λ q. status_of os level (with_run s p w) q ≡ finished) s.ran
                  (λ q e. ap (λ t. t.status) (deref-with_run s p q w) ∙ e) sound.done)
                (not_run os level s p sound h),
          );
    once =
        subst Distinct (sym (set_status_ran os level (with_run s p w) p finished))
          (not_run os level s p sound h, sound.once);
  }

  run-Outcome :
      (s : State os) (p : Ptr) (w : os.World)
      → InRange os s p
      → Sound os level s
      → status_of os level s p ≢ finished
      → Outcome os level
          (λ st. st ≡ finished)
          p
          s
          (built (set_status os (with_run s p w) p finished))
  run-Outcome s p w range sound h =
      Outcome-after os level (λ st. st ≡ finished) p s (with_run s p w)
        (built (set_status os (with_run s p w) p finished)) (with_run-Grown s p w)
        (
          set_status-Grown os level (with_run s p w) p finished (with_run_range s p w range),
          run-Sound s p w range sound h,
          set_status_new os level (with_run s p w) p finished (with_run_range s p w range),
        )

  pub finish-Outcome :
      (s : State os) (p : Ptr) (w : os.World) (e : Exit)
      → InRange os s p
      → Sound os level s
      → status_of os level s p ≢ finished
      → Outcome os level (λ st. st ≡ finished) p s (finish os s p (w, e))
  unfolding finish
  finish-Outcome s p w (exited zero) range sound h = run-Outcome s p w range sound h
  finish-Outcome s p w (exited (suc k)) range sound h =
      ((with_run-Grown s p w).same, (not_run os level s p sound h, sound.once))
  finish-Outcome s p w killed range sound h = run-Outcome s p w range sound h

  execute-Outcome :
      (s : State os) (p : Ptr)
      → InRange os s p
      → Sound os level s
      → status_of os level s p ≢ finished
      → Outcome os level (λ st. st ≡ finished) p s (execute os s p)
  unfolding execute
  execute-Outcome s p range sound h = elim (Bool-cases (os.fork_ok s.world)) [
    | inl e ↦ elim (Option-cases (parse_into_tokens 10 (deref os s p).command)) [
      | inl e' ↦ rw (e, e') (Same-refl os s, sound.once)
      | inr (argv, e') ↦
          rw (e, e') (finish-Outcome s p (child os s argv).0 (child os s argv).1 range sound h)
    ]
    | inr e ↦ rw e (Same-refl os s, sound.once)
  ]

  finishes :
      (s : State os) (p : Ptr)
      → InRange os s p
      → Sound os level s
      → status_of os level s p ≢ finished
      → Outcome os level (λ st. st ≡ finished) p s (built (set_status os s p finished))
  finishes s p range sound h = (
    set_status-Grown os level s p finished range,
    set_status-Sound os level s p finished sound h,
    set_status_new os level s p finished range,
  )

  pub conclude_runs :
      (s : State os) (p : Ptr)
      → status_of os level s p ≡ needs_building
      → conclude os s p ≡ execute os s p
  unfolding conclude
  conclude_runs s p e = rw (e, conclude) refl

  pub conclude_skips :
      (s : State os) (p : Ptr)
      → status_of os level s p ≡ unfinished
      → conclude os s p ≡ built (set_status os s p finished)
  unfolding conclude
  conclude_skips s p e = rw (e, conclude) refl

  pub conclude-Outcome :
      (s : State os) (p : Ptr)
      → InRange os s p
      → Sound os level s
      → status_of os level s p ≢ finished
      → Outcome os level (λ st. st ≡ finished) p s (conclude os s p)
  conclude-Outcome s p range sound h = elim (Status-cases (deref os s p).status) [
    | inl e ↦ rw (conclude_skips s p e) (finishes s p range sound h)
    | inr (inl e) ↦ absurd (h e)
    | inr (inr e) ↦ rw (conclude_runs s p e) (execute-Outcome s p range sound h)
  ]
