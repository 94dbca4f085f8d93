-- ===== src/Common/Modular.antt =====
-- The next index of a circular array, as `(i + 1) % size` computes it.
use Prim.Native.Nat.{ℕ, ◌+◌, ◌-◌, ◌%◌, ◌<◌}
use mathlib.Core.Path.{◌≡◌}
use native.Mathlib.Nat.{mod-eq_of_lt, mod-eq-sub-mod}
use native.Mathlib.Decide.{dec_lt}
use native.Mathlib.Omega.{arith}
use operating_systems.Common.Tests.{ltb, if◌then◌else◌}

pub mod-suc : (size h : ℕ) → h < size → (h + 1) % size ≡ (if ltb (h + 1) size then h + 1 else 0)
mod-suc size h lt = elim (dec_lt (h + 1) size) [
  | yes p ↦ ground (arith, mod-eq_of_lt p)
  | no p ↦ ground (
    arith,
    mod-eq-sub-mod {n = h + 1} {m = size} (omega arith),
    mod-eq_of_lt {n = h + 1 - size} {m = size} (omega arith),
  )
]
