-- ===== src/Web/Threads/Safety.antt =====
-- What holds in every state that the threads can reach, however they are interleaved.
use operating_systems.Common.{ℕ, ◌≡◌, sym, ◌∙◌, true, false, some, List, ◌++◌, map, All}
use operating_systems.CText.{Bytes}
use operating_systems.Web.Queue.{Request}
use operating_systems.Web.Queue.Fifo.{Repr}
use operating_systems.Web.Worker.{Disk}
use operating_systems.Web.Worker.Coherence.{SizesFit}
use operating_systems.Web.Config.{Config}
use operating_systems.Web.Config.Checks.{InLimits}
use operating_systems.Web.Threads.{System, Reach}
use operating_systems.Web.Threads.Invariant.{inside, IsRight, Reach-Inv}

some-injective : (i j : ℕ) → some i ≡ some j → i ≡ j
some-injective i j h = cc

-- From a configuration within the limits, two threads are never between the lock of `mtx` and its
-- unlock together.
pub mutual_exclusion :
    {disk : Disk} {dir : Bytes} {c : Config} {s : System}
    → InLimits c
    → Reach disk dir c s
    → (i j : ℕ) → inside (s.pc i) ≡ true
    → inside (s.pc j) ≡ true
    → i ≡ j
mutual_exclusion v r i j hi hj =
    some-injective i j (sym ((Reach-Inv v r).mutex i hi) ∙ (Reach-Inv v r).mutex j hj)

-- In every reachable state the requests that the workers took, followed by those that the valid
-- queue holds, are the requests that the dispatchers stored, in their order: none is lost, taken
-- twice, overtaken or invented, and no slot is read that was never written.
pub requests_conserved :
    {disk : Disk} {dir : Bytes} {c : Config} {s : System}
    → InLimits c
    → Reach disk dir c s
    → (waiting : List Request) × Repr s.queue waiting
      × (map some s.stored ≡ s.taken ++ map some waiting)
requests_conserved v r = let k = (Reach-Inv v r).conserved in (k.waiting, k.repr, k.kept)

-- With files that do not change, and if every size that `stat` gives is below 2^31: in any reachable
-- state that no fault has come before, every answer that was given is the one that the file on the disk
-- calls for, however the workers' visits of the cache are interleaved.
pub answers_faithful :
    {disk : Disk} {dir : Bytes} {c : Config} {s : System}
    → InLimits c
    → SizesFit disk dir
    → Reach disk dir c s
    → s.faulted ≡ false
    → All (IsRight disk dir) s.answers
answers_faithful v fit r unfaulted = ((Reach-Inv v r).faithful fit).right
