-- ===== src/Make/Build/Returns.antt =====
-- `build` of `Project 1 - Makefile/main.c` returns for every makefile, with a cycle or without.
use operating_systems.Common.{
  ℕ, zero, suc, ◌+◌, ◌-◌, ◌*◌, ◌≤◌, ◌<◌, ◌==◌, ◌≡◌, ◌≢◌, refl, ap, List, [], ◌∷◌, arith, length,
  Bool-cases, inl, inr, ℕ_discrete, take,
}
use operating_systems.CText.{Bytes}
use operating_systems.Make.Target.{Status, unfinished, finished, needs_building, Target}
use operating_systems.Make.Target.Search.{find_target_bound}
use operating_systems.Make.Build.{
  Os, Ptr, at, State, Result, built, failed, overrun, out_of_fuel, deref, set_status, conclude,
  visit, visit_all, build,
}
use operating_systems.Make.Build.Frame.{InRange}
use operating_systems.Make.Build.Once.{visit_cases}
use operating_systems.Make.Build.Depth.{
  waiting, total, open_targets, status_at, Down, Down-refl, Down-range, open_targets-set_status,
  kept, set_status-Down, Ends, Ends-after, conclude-Ends,
}

waiting_le : (st : Status) → waiting st ≤ 1
waiting_le unfinished = omega arith
waiting_le finished = omega arith
waiting_le needs_building = omega arith

total_le : (ts : List Target) → total ts ≤ length ts
total_le [] = omega arith
total_le (t ∷ ts) = omega (arith, total_le ts, waiting_le t.status)

module _ (os : Os) where
  -- What bounds the depth of `build` from here.
  abbrev pub rank : State os → Ptr → ℕ
  rank s p = 2 * open_targets os s + (1 - status_at os s p)

  rank_falls : (s s' : State os) (p : Ptr) → InRange os s p → Down os s s' → rank s' p ≤ rank s p
  rank_falls s s' p h d = omega (arith, d.sums p h, d.falls p h)

  -- The dependency that is entered has a lower rank than the target that has been marked for it.
  rank_enters :
      (s : State os) (p : Ptr) (j : ℕ)
      → InRange os s p
      → InRange os s (at j)
      → (deref os s (at j)).status ≡ unfinished
      → rank (set_status os s p needs_building) (at j) < rank s p
  rank_enters s p j range found e = elim (ℕ_discrete (status_at os s p) 0) [
    | yes z ↦ omega (
      arith,
      z,
      ap waiting e,
      kept os s p (at j) needs_building (λ q. other q z),
      open_targets-set_status os s p needs_building range refl,
    )
    | no nz ↦ omega (arith, nz, open_targets-set_status os s p needs_building range refl)
  ]
    where
      other : at j ≡ p → status_at os s p ≡ 0 → ⊥
      other q z = omega (arith, z, ap waiting e, ap (status_at os s) q)

  -- The recursive call ends for the targets of a rank below `bound`.
  abbrev EndsBelow : (Ptr → State os → Result os) → ℕ → Type 0
  EndsBelow build_it bound =
      (j : ℕ) (t : State os)
      → InRange os t (at j)
      → rank t (at j) < bound
      → Ends os t (build_it (at j) t)

  visit-Ends :
      (build_it : Ptr → State os → Result os) (n bound : ℕ) (p : Ptr) (s : State os) (d : Bytes)
      → EndsBelow build_it bound
      → InRange os s p
      → rank s p ≤ bound
      → Ends os s (visit os build_it n p s d)
  visit-Ends build_it n bound p s d ends range h = elim (visit_cases os (λ q. 0) n build_it p s d) [
    | inl e ↦ rw e (Down-refl os s)
    | inr (inl e) ↦ rw e (set_status-Down os s p needs_building range refl)
    | inr (inr (j, found, e, eq)) ↦ rw eq (
        Ends-after os s (set_status os s p needs_building)
          (build_it (at j) (set_status os s p needs_building))
          (set_status-Down os s p needs_building range refl)
          (ends j (set_status os s p needs_building)
            (Down-range os s (set_status os s p needs_building) (at j)
              (set_status-Down os s p needs_building range refl)
              (find_target_bound d s.targets n j found).1)
            (omega
              (arith, h, rank_enters s p j range (find_target_bound d s.targets n j found).1 e))))
  ]

  go_on :
      (s : State os) (r : Result os) (k : State os → Result os)
      → Ends os s r
      → ((t : State os) → Down os s t → Ends os t (k t))
      → Ends os s (elim r [ built s' ↦ k s' | r' ↦ r' ])
  go_on s (built t) k e f = Ends-after os s t (k t) e (f t e)
  go_on s (failed t) k e f = e
  go_on s (overrun t) k e f = e
  go_on s out_of_fuel k e f = e

  visit_all-Ends :
      (build_it : Ptr → State os → Result os) (n bound : ℕ) (p : Ptr) (s : State os)
      (ds : List Bytes)
      → EndsBelow build_it bound
      → InRange os s p
      → rank s p ≤ bound
      → Ends os s (visit_all os build_it n p s ds)
  unfolding visit_all
  visit_all-Ends build_it n bound p s [] ends range h = Down-refl os s
  visit_all-Ends build_it n bound p s (d ∷ ds) ends range h =
      go_on s (visit os build_it n p s d) (λ t. visit_all os build_it n p t ds)
        (visit-Ends build_it n bound p s d ends range h)
        (λ t down.
          visit_all-Ends build_it n bound p t ds ends (Down-range os s t p down range)
            (omega (arith, h, rank_falls s t p range down)))

  build-Ends :
      (fuel n : ℕ) (p : Ptr) (s : State os)
      → InRange os s p
      → rank s p < fuel
      → Ends os s (build os fuel n p s)
  unfolding build
  build-Ends zero n p s range h = omega (arith, h)
  build-Ends (suc fuel) n p s range h = elim (Bool-cases ((deref os s p).dependency_count == 0)) [
    | inl e ↦ rw e (
        Ends-after os s (set_status os s p needs_building)
          (conclude os (set_status os s p needs_building) p)
          (set_status-Down os s p needs_building range refl)
          (conclude-Ends os (set_status os s p needs_building) p (
            Down-range os s (set_status os s p needs_building) p
              (set_status-Down os s p needs_building range refl) range)))
    | inr e ↦ rw e (
        go_on s
          (visit_all os (build os fuel n) n p s
            (take (deref os s p).dependency_count (deref os s p).dependency_names))
          (λ t. conclude os t p)
          (visit_all-Ends (build os fuel n) n fuel p s
            (take (deref os s p).dependency_count (deref os s p).dependency_names)
            (λ j t r l. build-Ends fuel n (at j) t r l) range (omega (arith, h)))
          (λ t down. conclude-Ends os t p (Down-range os s t p down range)))
  ]

  reached : (s : State os) (r : Result os) → Ends os s r → r ≢ out_of_fuel
  reached s (built t) h e = absurd (cc)
  reached s (failed t) h e = absurd (cc)
  reached s (overrun t) h e = absurd (cc)
  reached s out_of_fuel h e = h

  -- For any array of targets, with cycles among the dependencies or without, and any target of it:
  -- a recursion of twice the number of the targets and 4 is deep enough for `build` to return.
  pub build_returns :
      (fuel n : ℕ) (p : Ptr) (s : State os)
      → InRange os s p
      → 2 * length s.targets + 3 < fuel
      → build os fuel n p s ≢ out_of_fuel
  build_returns fuel n p s range h = reached s (build os fuel n p s) (
      build-Ends fuel n p s range
        (omega (arith, h, total_le s.targets, waiting_le s.initial_target.status)))
