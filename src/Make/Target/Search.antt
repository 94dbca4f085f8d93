-- ===== src/Make/Target/Search.antt =====
-- `find_target` finds the first target of the name.
use operating_systems.Common.{ℕ, zero, suc, ◌+◌, ◌≤◌, ◌<◌, ◌≡◌, some, List, [], ◌∷◌, arith, length}
use operating_systems.CText.{Bytes}
use operating_systems.Make.Target.{Target, find_from, find_target}

-- A found index is below both the count and the length.
find_from_bound :
    (n : ℕ) (ts : List Target) (name : Bytes) (i j : ℕ)
    → find_from n ts name i ≡ some j
    → (i ≤ j) × (j < i + n) × (j < i + length ts)
unfolding find_from
find_from_bound zero ts name i j h = absurd (cc)
find_from_bound (suc n) [] name i j h = absurd (cc)
find_from_bound (suc n) (t ∷ ts) name i j h = ground (arith, find_from_bound n ts name (i + 1) j)

pub find_target_bound :
    (name : Bytes) (ts : List Target) (n j : ℕ)
    → find_target name ts n ≡ some j
    → (j < n) × (j < length ts)
unfolding find_target
find_target_bound name ts n j h = omega (arith, find_from_bound n ts name 0 j h)
