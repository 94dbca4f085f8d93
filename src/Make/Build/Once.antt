-- ===== src/Make/Build/Once.antt =====
-- `build` of `Project 1 - Makefile/main.c` returns where the dependencies have no cycle, and runs no
-- command twice.
use operating_systems.Common.{
  ◌⊎◌, ℕ, zero, suc, ◌≤◌, ◌<◌, ◌==◌, ◌≡◌, refl, sym, ap, ◌∙◌, subst, ◌≢◌, some, List, [], ◌∷◌,
  arith, All, All-imp, Bool-cases, Option-cases, inl, inr,
}
use operating_systems.CText.{Bytes}
use operating_systems.Make.Target.{Status, unfinished, finished, needs_building, find_target}
use operating_systems.Make.Target.Search.{find_target_bound}
use operating_systems.Make.Build.{
  Os, Ptr, initial, at, State, Result, built, failed, overrun, out_of_fuel, deref, set_status,
  conclude, up_to_date, visit, visit_all, build,
}
use operating_systems.Make.Build.Frame.{Same, InRange, dependencies}
use operating_systems.Make.Build.Sound.{
  Status-cases, status_of, Sound, Grown, Outcome, Grown-refl, Outcome-after, set_status_new,
  set_status_keeps, set_status-Grown, set_status-Sound,
}
use operating_systems.Make.Build.Runs.{conclude-Outcome}

needs_building-finished : needs_building ≢ finished
needs_building-finished e = absurd (cc)

pub unfinished-finished : unfinished ≢ finished
unfinished-finished e = absurd (cc)

module _ (os : Os) (level : Ptr → ℕ) (n : ℕ) where
  -- A dependency that names a target names one of a lower level than `p`.
  abbrev pub Below : State os → Ptr → Bytes → Type 0
  Below s p d = (j : ℕ) → find_target d s.targets n ≡ some j → level (at j) < level p

  -- The dependencies have no cycle: the levels fall along them.
  abbrev pub Ranked : State os → Type 0
  Ranked s = (p : Ptr) → All (Below s p) (dependencies (deref os s p))

  Ranked-Same : (s s' : State os) → Same os s s' → Ranked s → Ranked s'
  Ranked-Same s s' same h p = subst (All (Below s' p)) (sym (same.depends p)) (
      All-imp (Below s p) (Below s' p) (dependencies (deref os s p))
        (λ d b j e. b j (sym (same.finds d n) ∙ e)) (h p))

  -- The recursive call is right for the targets below `p`.
  abbrev Builds : (Ptr → State os → Result os) → Ptr → Type 0
  Builds build_it p =
      (j : ℕ) (s : State os)
      → Ranked s
      → InRange os s (at j)
      → Sound os level s
      → status_of os level s (at j) ≢ finished
      → level (at j) < level p
      → Outcome os level (λ st. st ≡ finished) (at j) s (build_it (at j) s)

  lower :
      (p q : Ptr) (j : ℕ) → level (at j) < level p → level q ≡ level (at j) → level p ≤ level q → ⊥
  lower p q j l e le = omega arith

  -- Of the target that is being built a lower one changes nothing.
  Outcome-lift :
      (p : Ptr) (j : ℕ) (s : State os) (r : Result os)
      → level (at j) < level p
      → status_of os level s p ≢ finished
      → Outcome os level (λ st. st ≡ finished) (at j) s r
      → Outcome os level (λ st. st ≢ finished) p s r
  Outcome-lift p j s (built t) l h (grown, sound, done) = (
    record {
      same = grown.same;
      others = λ q ne le. grown.others q (λ e. lower p q j l (ap level e) le) (omega arith);
    },
    sound,
    λ e.
        h (
          sym (grown.others p (λ e'. lower p p j l (ap level e') (omega arith)) (omega arith)) ∙ e),
  )
  Outcome-lift p j s (failed t) l h o = o
  Outcome-lift p j s (overrun t) l h o = o
  Outcome-lift p j s out_of_fuel l h o = o

  marked :
      (s : State os) (p : Ptr)
      → InRange os s p
      → status_of os level (set_status os s p needs_building) p ≢ finished
  marked s p range e =
      absurd (needs_building-finished (sym (set_status_new os level s p needs_building range) ∙ e))

  marked_Ranked :
      (s : State os) (p : Ptr)
      → InRange os s p
      → Ranked s
      → Ranked (set_status os s p needs_building)
  marked_Ranked s p range =
      Ranked-Same s (set_status os s p needs_building)
        (set_status-Grown os level s p needs_building range).same

  Same-InRange : (s s' : State os) (p : Ptr) → Same os s s' → InRange os s p → InRange os s' p
  Same-InRange s s' initial same h = h
  Same-InRange s s' (at i) same h = omega (arith, same.sized, h)

  -- Marking a target leaves a lower one as it is.
  still_unfinished :
      (s : State os) (p : Ptr) (j : ℕ)
      → level (at j) < level p
      → status_of os level s (at j) ≡ unfinished
      → status_of os level (set_status os s p needs_building) (at j) ≢ finished
  still_unfinished s p j l e e' = unfinished-finished (
      sym e
      ∙ sym (
          set_status_keeps os level s p (at j) needs_building
            (λ q. lower p p j l (ap level (sym q)) (omega arith)))
      ∙ e')

  -- The four ways of a round.
  abbrev pub VisitCases : (Ptr → State os → Result os) → Ptr → State os → Bytes → Type 0
  VisitCases build_it p s d =
      (visit os build_it n p s d ≡ built s)
      ⊎ ((visit os build_it n p s d ≡ built (set_status os s p needs_building))
          ⊎ ((j : ℕ) × (find_target d s.targets n ≡ some j)
              × (status_of os level s (at j) ≡ unfinished)
              × (visit os build_it n p s d ≡ build_it (at j) (set_status os s p needs_building))))

  pub visit_cases :
      (build_it : Ptr → State os → Result os) (p : Ptr) (s : State os) (d : Bytes)
      → VisitCases build_it p s d
  unfolding visit
  visit_cases build_it p s d = elim (Option-cases (find_target d s.targets n)) [
    | inl e ↦ elim (Status-cases (status_of os level s p)) [
      | inl e1 ↦ elim (Bool-cases (up_to_date os s d (deref os s p).target_name)) [
        | inl e2 ↦ inl (rw (e, e1, e2, visit) refl)
        | inr e2 ↦ inr (inl (rw (e, e1, e2, visit) refl))
      ]
      | inr (inl e1) ↦ inl (rw (e, e1, visit) refl)
      | inr (inr e1) ↦ inl (rw (e, e1, visit) refl)
    ]
    | inr (j, e) ↦ elim (Status-cases (status_of os level s (at j))) [
      | inl e1 ↦
          elim (Bool-cases
            (up_to_date os s (deref os s (at j)).target_name (deref os s p).target_name)) [
              | inl e2 ↦ inl (rw (e, e1, e2, visit) refl)
              | inr e2 ↦ inr (inr (j, e, e1, rw (e, e1, e2, visit) refl))
            ]
      | inr (inl e1) ↦ inl (rw (e, e1, visit) refl)
      | inr (inr e1) ↦ inl (rw (e, e1, visit) refl)
    ]
  ]

  visit-Outcome :
      (build_it : Ptr → State os → Result os) (p : Ptr) (s : State os) (d : Bytes)
      → Builds build_it p
      → Below s p d
      → Ranked s
      → InRange os s p
      → Sound os level s
      → status_of os level s p ≢ finished
      → Outcome os level (λ st. st ≢ finished) p s (visit os build_it n p s d)
  visit-Outcome build_it p s d builds below ranked range sound h =
      elim (visit_cases build_it p s d) [
        | inl e ↦ rw e (Grown-refl os level p s, sound, h)
        | inr (inl e) ↦ rw e (
          set_status-Grown os level s p needs_building range,
          set_status-Sound os level s p needs_building sound h,
          marked s p range,
        )
        | inr (inr (j, found, e, eq)) ↦ rw eq (
            Outcome-after os level (λ st. st ≢ finished) p s (set_status os s p needs_building)
              (build_it (at j) (set_status os s p needs_building))
              (set_status-Grown os level s p needs_building range)
              (Outcome-lift p j (set_status os s p needs_building)
                (build_it (at j) (set_status os s p needs_building)) (below j found)
                (marked s p range)
                (builds j (set_status os s p needs_building) (marked_Ranked s p range ranked)
                  (Same-InRange s (set_status os s p needs_building) (at j)
                    (set_status-Grown os level s p needs_building range).same
                    (find_target_bound d s.targets n j found).1)
                  (set_status-Sound os level s p needs_building sound h)
                  (still_unfinished s p j (below j found) e) (below j found))))
      ]

  continue :
      (Q Q' : Status → Type 0) (p : Ptr) (s : State os) (r : Result os) (k : State os → Result os)
      → Outcome os level Q p s r
      → ((t : State os)
          → Grown os level p s t
          → Sound os level t
          → Q (status_of os level t p)
          → Outcome os level Q' p t (k t))
      → Outcome os level Q' p s (elim r [ built s' ↦ k s' | r' ↦ r' ])
  continue Q Q' p s (built t) k o f = Outcome-after os level Q' p s t (k t) o.0 (f t o.0 o.1 o.2)
  continue Q Q' p s (failed t) k o f = o
  continue Q Q' p s (overrun t) k o f = o
  continue Q Q' p s out_of_fuel k o f = o

  visit_all-Outcome :
      (build_it : Ptr → State os → Result os) (p : Ptr) (s : State os) (ds : List Bytes)
      → Builds build_it p
      → All (Below s p) ds
      → Ranked s
      → InRange os s p
      → Sound os level s
      → status_of os level s p ≢ finished
      → Outcome os level (λ st. st ≢ finished) p s (visit_all os build_it n p s ds)
  unfolding visit_all
  visit_all-Outcome build_it p s [] builds below ranked range sound h =
      (Grown-refl os level p s, sound, h)
  visit_all-Outcome build_it p s (d ∷ ds) builds below ranked range sound h =
      continue (λ st. st ≢ finished) (λ st. st ≢ finished) p s (visit os build_it n p s d)
        (λ t. visit_all os build_it n p t ds)
        (visit-Outcome build_it p s d builds below.0 ranked range sound h)
        (λ t grown sound' h'.
          visit_all-Outcome build_it p t ds builds
            (All-imp (Below s p) (Below t p) ds (λ d' b j e. b j (sym (grown.same.finds d' n) ∙ e))
              below.1)
            (Ranked-Same s t grown.same ranked) (Same-InRange s t p grown.same range) sound' h')

  -- `build` with fuel above the level of the target.
  pub build-Outcome :
      (fuel : ℕ) (p : Ptr) (s : State os)
      → Ranked s
      → InRange os s p
      → Sound os level s
      → status_of os level s p ≢ finished
      → level p < fuel
      → Outcome os level (λ st. st ≡ finished) p s (build os fuel n p s)
  unfolding build
  build-Outcome zero p s ranked range sound h l = omega (arith, l)
  build-Outcome (suc fuel) p s ranked range sound h l =
      elim (Bool-cases ((deref os s p).dependency_count == 0)) [
        | inl e ↦ rw e (
            Outcome-after os level (λ st. st ≡ finished) p s (set_status os s p needs_building)
              (conclude os (set_status os s p needs_building) p)
              (set_status-Grown os level s p needs_building range)
              (conclude-Outcome os level (set_status os s p needs_building) p
                (Same-InRange s (set_status os s p needs_building) p
                  (set_status-Grown os level s p needs_building range).same range)
                (set_status-Sound os level s p needs_building sound h) (marked s p range)))
        | inr e ↦ rw e (
            continue (λ st. st ≢ finished) (λ st. st ≡ finished) p s
              (visit_all os (build os fuel n) n p s (dependencies (deref os s p)))
              (λ t. conclude os t p)
              (visit_all-Outcome (build os fuel n) p s (dependencies (deref os s p))
                (λ j t ranked' range' sound' h' l'.
                  build-Outcome fuel (at j) t ranked' range' sound' h' (omega (arith, l, l')))
                (ranked p) ranked range sound h)
              (λ t grown sound' h'.
                conclude-Outcome os level t p (Same-InRange s t p grown.same range) sound' h'))
      ]
