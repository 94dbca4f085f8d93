-- ===== src/Make/Build/Depth.antt =====
-- The depth of the recursion of `build` of `Project 1 - Makefile/main.c`. A target is marked before
-- its first dependency is built, and a marked target is not entered again, so a cycle ends too.
use operating_systems.Common.{
  ℕ, zero, suc, ◌+◌, ◌≤◌, ◌<◌, ◌≡◌, ◌≢◌, refl, sym, ap, ◌∙◌, subst, none, some, List, [], ◌∷◌,
  arith, length, get_elem?, set, Bool-cases, Option-cases, inl, inr,
}
use operating_systems.Make.Target.{
  Status, unfinished, finished, needs_building, Target, parse_into_tokens,
}
use operating_systems.Make.Build.{
  Os, Exit, exited, killed, Ptr, initial, at, State, Result, built, failed, overrun, out_of_fuel,
  deref, with_status, set_status, finish, child, execute, conclude,
}
use operating_systems.Make.Build.Frame.{set_status-Same, InRange, Ptr_discrete, deref-set_status_ne}
use operating_systems.Make.Build.Sound.{Status-cases, set_status_new}
use operating_systems.Make.Build.Runs.{
  conclude_runs, conclude_skips, with_run, deref-with_run, with_run_range,
}

-- 1 for a target that has not been touched.
abbrev pub waiting : Status → ℕ
waiting unfinished = 1
waiting finished = 0
waiting needs_building = 0

abbrev pub total : List Target → ℕ
total [] = 0
total (t ∷ ts) = waiting t.status + total ts

total-set :
    (ts : List Target) (i : ℕ) (t v : Target)
    → get_elem? ts i ≡ some t
    → total (set ts i v) + waiting t.status ≡ total ts + waiting v.status
total-set [] i t v e = absurd (cc)
total-set (x ∷ ts) zero t v e =
    subst
      (λ y.
        waiting v.status + total ts + waiting y.status
        ≡ waiting x.status + total ts + waiting v.status)
      (same e) (omega arith)
  where
    same : some x ≡ some t → x ≡ t
    same e' = cc
total-set (x ∷ ts) (suc i) t v e = omega (arith, total-set ts i t v e)

outside : (ts : List Target) (i : ℕ) → get_elem? ts i ≡ none → i < length ts → ⊥
outside [] i e h = omega (arith, h)
outside (x ∷ ts) zero e h = absurd (cc)
outside (x ∷ ts) (suc i) e h = outside ts i e (omega (arith, h))

module _ (os : Os) where
  abbrev pub open_targets : State os → ℕ
  open_targets s = waiting s.initial_target.status + total s.targets

  abbrev pub status_at : State os → Ptr → ℕ
  status_at s p = waiting (deref os s p).status

  -- No status becomes UNFINISHED again.
  pub record Down (s s' : State os) : Type 0 where
    pub same_length : length s'.targets ≡ length s.targets
    pub sums :
        (q : Ptr)
        → InRange os s q
        → open_targets s' + status_at s q ≤ open_targets s + status_at s' q
    pub falls : (q : Ptr) → InRange os s q → status_at s' q ≤ status_at s q

  pub Down-refl : (s : State os) → Down s s
  Down-refl s = record { same_length = refl; sums = λ q h. omega arith; falls = λ q h. omega arith }

  pub Down-range : (s s' : State os) (q : Ptr) → Down s s' → InRange os s q → InRange os s' q
  Down-range s s' initial d h = h
  Down-range s s' (at i) d h = omega (arith, d.same_length, h)

  Down-trans : (s s' s'' : State os) → Down s s' → Down s' s'' → Down s s''
  Down-trans s s' s'' d e = record {
    same_length = e.same_length ∙ d.same_length;
    sums = λ q h. omega (
      arith,
      d.sums q h,
      e.sums q (Down-range s s' q d h),
      d.falls q h,
      e.falls q (Down-range s s' q d h),
    );
    falls = λ q h. omega (arith, d.falls q h, e.falls q (Down-range s s' q d h));
  }

  deref_found :
      (s : State os) (i : ℕ) (t : Target) → get_elem? s.targets i ≡ some t → deref os s (at i) ≡ t
  unfolding deref
  deref_found s i t e = rw (e, deref) refl

  pub open_targets-set_status :
      (s : State os) (p : Ptr) (st : Status)
      → InRange os s p
      → waiting st ≡ 0
      → open_targets (set_status os s p st) + status_at s p ≡ open_targets s
  unfolding set_status deref with_status
  open_targets-set_status s initial st range h = omega (arith, h)
  open_targets-set_status s (at i) st range h = elim (Option-cases (get_elem? s.targets i)) [
    | inl e ↦ absurd (outside s.targets i e range)
    | inr (t, e) ↦ omega (
      arith,
      total-set s.targets i t (with_status os (deref os s (at i)) st) e,
      ap (λ x. waiting x.status) (deref_found s i t e),
      h,
    )
  ]

  pub kept :
      (s : State os) (p q : Ptr) (st : Status)
      → q ≢ p
      → status_at (set_status os s p st) q ≡ status_at s q
  kept s p q st ne = ap (λ x. waiting x.status) (deref-set_status_ne os s p q st ne)

  new_status :
      (s : State os) (p : Ptr) (st : Status)
      → InRange os s p
      → waiting st ≡ 0
      → status_at (set_status os s p st) p ≤ status_at s p
  new_status s p st range h = omega (arith, ap waiting (set_status_new os (λ q. 0) s p st range), h)

  pub set_status-Down :
      (s : State os) (p : Ptr) (st : Status)
      → InRange os s p
      → waiting st ≡ 0
      → Down s (set_status os s p st)
  set_status-Down s p st range h = record {
    same_length = (set_status-Same os s p st range).sized;
    sums = λ q hq. elim (Ptr_discrete q p) [
      | yes e ↦
          subst
            (λ x.
              open_targets (set_status os s p st) + status_at s x
              ≤ open_targets s + status_at (set_status os s p st) x)
            (sym e) (omega (arith, open_targets-set_status s p st range h))
      | no ne ↦ omega (arith, open_targets-set_status s p st range h, kept s p q st ne)
    ];
    falls = λ q hq. elim (Ptr_discrete q p) [
      | yes e ↦
          subst (λ x. status_at (set_status os s p st) x ≤ status_at s x) (sym e)
            (new_status s p st range h)
      | no ne ↦ omega (arith, kept s p q st ne)
    ];
  }

  -- A result that is reached, in a state with no new UNFINISHED target.
  abbrev pub Ends : State os → Result os → Type 0
  Ends s (built s') = Down s s'
  Ends s (failed s') = Unit
  Ends s (overrun s') = Unit
  Ends s out_of_fuel = ⊥

  pub Ends-after : (s s' : State os) (r : Result os) → Down s s' → Ends s' r → Ends s r
  Ends-after s s' (built t) d e = Down-trans s s' t d e
  Ends-after s s' (failed t) d e = tt
  Ends-after s s' (overrun t) d e = tt
  Ends-after s s' out_of_fuel d e = e

  ran_Down :
      (s : State os) (p : Ptr) (w : os.World)
      → InRange os s p
      → Down s (set_status os (with_run os (λ q. 0) s p w) p finished)
  ran_Down s p w range =
      Down-trans s (with_run os (λ q. 0) s p w)
        (set_status os (with_run os (λ q. 0) s p w) p finished)
        (record {
          same_length = refl;
          sums = λ q h. omega (arith, same_status q);
          falls = λ q h. omega (arith, same_status q);
        })
        (set_status-Down (with_run os (λ q. 0) s p w) p finished
          (with_run_range os (λ q. 0) s p w range) refl)
    where
      same_status : (q : Ptr) → status_at (with_run os (λ x. 0) s p w) q ≡ status_at s q
      same_status q = ap (λ x. waiting x.status) (deref-with_run os (λ x. 0) s p q w)

  conclude_done :
      (s : State os) (p : Ptr)
      → (deref os s p).status ≡ finished
      → conclude os s p ≡ built (set_status os s p finished)
  unfolding conclude
  conclude_done s p e = rw (e, conclude) refl

  finish-Ends :
      (s : State os) (p : Ptr) (w : os.World) (e : Exit)
      → InRange os s p
      → Ends s (finish os s p (w, e))
  unfolding finish
  finish-Ends s p w (exited zero) range = ran_Down s p w range
  finish-Ends s p w (exited (suc k)) range = tt
  finish-Ends s p w killed range = ran_Down s p w range

  execute-Ends : (s : State os) (p : Ptr) → InRange os s p → Ends s (execute os s p)
  unfolding execute
  execute-Ends s p range = elim (Bool-cases (os.fork_ok s.world)) [
    | inl e ↦ elim (Option-cases (parse_into_tokens 10 (deref os s p).command)) [
      | inl e' ↦ rw (e, e') tt
      | inr (argv, e') ↦ rw (e, e') (finish-Ends s p (child os s argv).0 (child os s argv).1 range)
    ]
    | inr e ↦ rw e tt
  ]

  pub conclude-Ends : (s : State os) (p : Ptr) → InRange os s p → Ends s (conclude os s p)
  conclude-Ends s p range = elim (Status-cases (deref os s p).status) [
    | inl e ↦ rw (conclude_skips os (λ q. 0) s p e) (set_status-Down s p finished range refl)
    | inr (inl e) ↦ rw (conclude_done s p e) (set_status-Down s p finished range refl)
    | inr (inr e) ↦ rw (conclude_runs os (λ q. 0) s p e) (execute-Ends s p range)
  ]
