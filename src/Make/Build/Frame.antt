-- ===== src/Make/Build/Frame.antt =====
-- A change of a status changes nothing else.
use operating_systems.Common.{
  ℕ, zero, suc, ◌+◌, ◌<◌, ◌≡◌, refl, sym, subst, ap, ◌∙◌, ◌≢◌, some, List, [], ◌∷◌, arith, length,
  length-set, get_elem?, set, set-none, get_elem?-set_self, get_elem?-set_ne, take, Option-cases,
  inl, inr, ℕ_discrete,
}
use operating_systems.CText.{Bytes}
use operating_systems.Make.Target.{Status, Target, find_from, find_target}
use operating_systems.Make.Build.{Os, Ptr, initial, at, State, deref, with_status, set_status}

-- The dependencies that the loop of `build` goes through.
abbrev pub dependencies : Target → List Bytes
dependencies t = take t.dependency_count t.dependency_names

find_from-set :
    (n : ℕ) (ts : List Target) (i : ℕ) (t t' : Target) (name : Bytes) (k : ℕ)
    → get_elem? ts i ≡ some t
    → t'.target_name ≡ t.target_name
    → find_from n (set ts i t') name k ≡ find_from n ts name k
unfolding find_from
find_from-set zero ts i t t' name k h e = refl
find_from-set (suc n) [] i t t' name k h e = refl
find_from-set (suc n) (x ∷ ts) zero t t' name k h e = ground arith
find_from-set (suc n) (x ∷ ts) (suc i) t t' name k h e =
    ground (arith, find_from-set n ts i t t' name (k + 1) h e)

unfoldable pub Ptr_discrete : (p q : Ptr) → Dec (p ≡ q)
Ptr_discrete initial initial = yes refl
Ptr_discrete initial (at j) = no (λ e. absurd (cc))
Ptr_discrete (at i) initial = no (λ e. absurd (cc))
Ptr_discrete (at i) (at j) = elim (ℕ_discrete i j) [
  | yes e ↦ yes (ap at e)
  | no ne ↦ no (λ e. ne (cc))
]

module _ (os : Os) where
  -- The pointer is the copy or points into the array.
  abbrev pub InRange : State os → Ptr → Type 0
  InRange s initial = Unit
  InRange s (at i) = i < length s.targets

  -- The second state has the same targets as the first, up to their statuses.
  pub record Same (s s' : State os) : Type 0 where
    pub sized : length s'.targets ≡ length s.targets
    pub finds : (d : Bytes) (n : ℕ) → find_target d s'.targets n ≡ find_target d s.targets n
    pub depends : (q : Ptr) → dependencies (deref os s' q) ≡ dependencies (deref os s q)

  pub Same-refl : (s : State os) → Same s s
  Same-refl s = record { sized = refl; finds = λ d n. refl; depends = λ q. refl }

  pub Same-trans : (s s' s'' : State os) → Same s s' → Same s' s'' → Same s s''
  Same-trans s s' s'' a b = record {
    sized = b.sized ∙ a.sized;
    finds = λ d n. b.finds d n ∙ a.finds d n;
    depends = λ q. b.depends q ∙ a.depends q;
  }

  pub deref-set_status_self :
      (s : State os) (p : Ptr) (st : Status)
      → InRange s p
      → deref os (set_status os s p st) p ≡ with_status os (deref os s p) st
  unfolding deref set_status
  deref-set_status_self s initial st h = refl
  deref-set_status_self s (at i) st h =
      rw (get_elem?-set_self s.targets i (with_status os (deref os s (at i)) st) h, deref) refl

  pub deref-set_status_ne :
      (s : State os) (p q : Ptr) (st : Status)
      → q ≢ p
      → deref os (set_status os s p st) q ≡ deref os s q
  unfolding deref set_status
  deref-set_status_ne s initial initial st h = absurd (h refl)
  deref-set_status_ne s initial (at j) st h = refl
  deref-set_status_ne s (at i) initial st h = refl
  deref-set_status_ne s (at i) (at j) st h =
      rw
        (
          get_elem?-set_ne s.targets i j (with_status os (deref os s (at i)) st)
              (λ e. h (ap at (sym e))),
          deref,
        )
        refl

  set_status_entry :
      (s : State os) (i : ℕ) (st : Status) (d : Bytes) (n : ℕ)
      → find_target d (set_status os s (at i) st).targets n ≡ find_target d s.targets n
  unfolding find_target set_status deref
  set_status_entry s i st d n = elim (Option-cases (get_elem? s.targets i)) [
    | inl e ↦ rw (set-none s.targets i (with_status os (deref os s (at i)) st) e) refl
    | inr (t, e) ↦
        find_from-set n s.targets i t (with_status os (deref os s (at i)) st) d 0 e
          (unfold with_status in rw (e, deref) refl)
  ]

  set_status_sized :
      (s : State os) (p : Ptr) (st : Status)
      → length (set_status os s p st).targets ≡ length s.targets
  unfolding set_status
  set_status_sized s initial st = refl
  set_status_sized s (at i) st = length-set s.targets i (with_status os (deref os s (at i)) st)

  set_status_finds :
      (s : State os) (p : Ptr) (st : Status) (d : Bytes) (n : ℕ)
      → find_target d (set_status os s p st).targets n ≡ find_target d s.targets n
  set_status_finds s initial st d n = unfold set_status in refl
  set_status_finds s (at i) st d n = set_status_entry s i st d n

  set_status_depends :
      (s : State os) (p q : Ptr) (st : Status)
      → InRange s p
      → dependencies (deref os (set_status os s p st) q) ≡ dependencies (deref os s q)
  unfolding with_status
  set_status_depends s p q st h = elim (Ptr_discrete q p) [
    | yes e ↦
        subst (λ x. dependencies (deref os (set_status os s p st) x) ≡ dependencies (deref os s x))
          (sym e) (ap dependencies (deref-set_status_self s p st h))
    | no ne ↦ ap dependencies (deref-set_status_ne s p q st ne)
  ]

  pub set_status-Same :
      (s : State os) (p : Ptr) (st : Status) → InRange s p → Same s (set_status os s p st)
  set_status-Same s p st h = record {
    sized = set_status_sized s p st;
    finds = λ d n. set_status_finds s p st d n;
    depends = λ q. set_status_depends s p q st h;
  }
