-- ===== src/Make/Build/Sound.antt =====
-- What one assignment of a status and one command do to the record of the commands that have run.
use operating_systems.Common.{
  ◌⊎◌, ℕ, ◌≤◌, ◌≡◌, refl, sym, ap, ◌∙◌, subst, ◌≢◌, List, [], ◌∷◌, All, All-imp, inl, inr,
}
use operating_systems.Make.Target.{Status, unfinished, finished, needs_building}
use operating_systems.Make.Build.{
  Os, Ptr, initial, at, State, Result, built, failed, overrun, out_of_fuel, deref, with_status,
  set_status,
}
use operating_systems.Make.Build.Frame.{
  Same, Same-refl, Same-trans, InRange, deref-set_status_self, deref-set_status_ne, set_status-Same,
}

pub Status-cases : (x : Status) → (x ≡ unfinished) ⊎ ((x ≡ finished) ⊎ (x ≡ needs_building))
Status-cases unfinished = inl refl
Status-cases finished = inr (inl refl)
Status-cases needs_building = inr (inr refl)

-- No target is in the list twice.
abbrev pub Distinct : List Ptr → Type 0
Distinct [] = Unit
Distinct (p ∷ ps) = All (λ q. q ≢ p) ps × Distinct ps

module _ (os : Os) (level : Ptr → ℕ) where
  abbrev pub status_of : State os → Ptr → Status
  status_of s p = (deref os s p).status

  -- Every target whose command has run is finished, and none has run twice.
  pub record Sound (s : State os) : Type 0 where
    pub done : All (λ q. status_of s q ≡ finished) s.ran
    pub once : Distinct s.ran

  -- From the first state to the second nothing changes but the statuses of `p` and of lower targets.
  pub record Grown (p : Ptr) (s s' : State os) : Type 0 where
    pub same : Same os s s'
    pub others : (q : Ptr) → q ≢ p → level p ≤ level q → status_of s' q ≡ status_of s q

  -- What a result must be for `p`, whose status is to satisfy `Q` at the end.
  abbrev pub Outcome : (Status → Type 0) → Ptr → State os → Result os → Type 0
  Outcome Q p s (built s') = Grown p s s' × Sound s' × Q (status_of s' p)
  Outcome Q p s (failed s') = Same os s s' × Distinct s'.ran
  Outcome Q p s (overrun s') = Same os s s' × Distinct s'.ran
  Outcome Q p s out_of_fuel = ⊥

  pub Grown-refl : (p : Ptr) (s : State os) → Grown p s s
  Grown-refl p s = record { same = Same-refl os s; others = λ q ne h. refl }

  pub Outcome-after :
      (Q : Status → Type 0) (p : Ptr) (s s' : State os) (r : Result os)
      → Grown p s s'
      → Outcome Q p s' r
      → Outcome Q p s r
  Outcome-after Q p s s' (built t) g h = (
    record {
      same = Same-trans os s s' t g.same h.0.same;
      others = λ q ne l. h.0.others q ne l ∙ g.others q ne l;
    },
    h.1,
    h.2,
  )
  Outcome-after Q p s s' (failed t) g h = (Same-trans os s s' t g.same h.0, h.1)
  Outcome-after Q p s s' (overrun t) g h = (Same-trans os s s' t g.same h.0, h.1)
  Outcome-after Q p s s' out_of_fuel g h = h

  -- A target that is not finished has not run.
  pub not_run :
      (s : State os) (p : Ptr) → Sound s → status_of s p ≢ finished → All (λ q. q ≢ p) s.ran
  not_run s p sound h =
      All-imp (λ q. status_of s q ≡ finished) (λ q. q ≢ p) s.ran
        (λ q e eq. h (subst (λ x. status_of s x ≡ finished) eq e)) sound.done

  pub set_status_ran : (s : State os) (p : Ptr) (st : Status) → (set_status os s p st).ran ≡ s.ran
  unfolding set_status
  set_status_ran s initial st = refl
  set_status_ran s (at i) st = refl

  pub set_status_keeps :
      (s : State os) (p q : Ptr) (st : Status)
      → q ≢ p
      → status_of (set_status os s p st) q ≡ status_of s q
  set_status_keeps s p q st ne = ap (λ t. t.status) (deref-set_status_ne os s p q st ne)

  pub set_status_new :
      (s : State os) (p : Ptr) (st : Status)
      → InRange os s p
      → status_of (set_status os s p st) p ≡ st
  set_status_new s p st range =
      ap (λ t. t.status) (deref-set_status_self os s p st range) ∙ unfold with_status in refl

  pub done_keeps :
      (s : State os) (p : Ptr) (st : Status) (ps : List Ptr)
      → All (λ q. status_of s q ≡ finished) ps
      → All (λ q. q ≢ p) ps
      → All (λ q. status_of (set_status os s p st) q ≡ finished) ps
  done_keeps s p st [] h ne = tt
  done_keeps s p st (q ∷ qs) h ne =
      (set_status_keeps s p q st ne.0 ∙ h.0, done_keeps s p st qs h.1 ne.1)

  pub set_status-Grown :
      (s : State os) (p : Ptr) (st : Status) → InRange os s p → Grown p s (set_status os s p st)
  set_status-Grown s p st range = record {
    same = set_status-Same os s p st range;
    others = λ q ne l. set_status_keeps s p q st ne;
  }

  -- An assignment to a target that is not finished.
  pub set_status-Sound :
      (s : State os) (p : Ptr) (st : Status)
      → Sound s
      → status_of s p ≢ finished
      → Sound (set_status os s p st)
  set_status-Sound s p st sound h = record {
    done =
        subst (All (λ q. status_of (set_status os s p st) q ≡ finished))
          (sym (set_status_ran s p st)) (done_keeps s p st s.ran sound.done (not_run s p sound h));
    once = subst Distinct (sym (set_status_ran s p st)) sound.once;
  }
