-- ===== src/Web/Threads/Progress.antt =====
-- How the mutex `mtx` of `Project 3 - Multithreaded Web Server/server.c` can become free again.
use operating_systems.Common.{◌⊎◌, ℕ, ◌≡◌, refl, ap, ◌∙◌, true, false, none, some, inl, inr}
use operating_systems.CText.{Bytes}
use operating_systems.Web.Queue.{Request}
use operating_systems.Web.Worker.{Disk}
use operating_systems.Web.Config.{Config}
use operating_systems.Web.Threads.{
  Pc, accepting, put_lock, put_test, put_unlock, put_wait, put_signal, take_lock, take_test,
  take_wait, take_unlock, take_signal, look_up, miss, fill, absent, System, go, lock_put, lock_take,
  Reach,
}
use operating_systems.Web.Threads.Invariant.{inside}
use operating_systems.Web.Threads.Release.{Steps, more, here_now, released, Reach-Owned}

-- A thread before its lock of `mtx`, and that it has got it.
abbrev pub WantsLock : Pc → Type 0
WantsLock (put_lock r) = Unit
WantsLock take_lock = Unit
WantsLock _ = ⊥

wants_cases : (p : Pc) → WantsLock p → ((r : Request) × (p ≡ put_lock r)) ⊎ (p ≡ take_lock)
wants_cases (put_lock r) h = inl (r, refl)
wants_cases take_lock h = inr refl
wants_cases absent h = absurd h
wants_cases accepting h = absurd h
wants_cases (put_test r) h = absurd h
wants_cases (put_wait r) h = absurd h
wants_cases put_unlock h = absurd h
wants_cases put_signal h = absurd h
wants_cases take_test h = absurd h
wants_cases take_wait h = absurd h
wants_cases (take_unlock o) h = absurd h
wants_cases (take_signal o) h = absurd h
wants_cases (look_up o) h = absurd h
wants_cases (miss r) h = absurd h
wants_cases (fill r l) h = absurd h

wants_outside : (p : Pc) → WantsLock p → inside p ≡ false
unfolding inside
wants_outside p h = elim (wants_cases p h) [ inl (r, e) ↦ rw e refl | inr e ↦ rw e refl ]

put_test_inside : (r : Request) → inside (put_test r) ≡ true
unfolding inside
put_test_inside r = refl

take_test_inside : inside take_test ≡ true
unfolding inside
take_test_inside = refl

-- In every reachable state, a thread that is about to lock `mtx` can get it: some steps lead to a
-- state where it is the owner and inside its section. So no thread waits, with `mtx` held, for
-- another that needs it.
pub lock_obtained :
    {disk : Disk} {dir : Bytes} {c : Config} {s : System}
    → Reach disk dir c s
    → (i : ℕ) → WantsLock (s.pc i)
    → (t : System) × Steps disk dir s t × (t.owner ≡ some i) × (inside (t.pc i) ≡ true)
lock_obtained {disk} {dir} {c} {s} reach i wants = elim (wants_cases (s.pc i) wants) [
  | inl (r, e) ↦ locked_put r e unlocked
  | inr e ↦ locked_take e unlocked
]
  where
    unlocked : (t : System) × Steps disk dir s t × (t.owner ≡ none) × (t.pc i ≡ s.pc i)
    unlocked = released disk dir s (Reach-Owned reach) i (wants_outside (s.pc i) wants)

    locked_put :
        (r : Request)
        → s.pc i ≡ put_lock r
        → (t : System) × Steps disk dir s t × (t.owner ≡ none) × (t.pc i ≡ s.pc i)
        → (t : System) × Steps disk dir s t × (t.owner ≡ some i) × (inside (t.pc i) ≡ true)
    locked_put r e (t, steps, free, same) = (
      go (record t { owner = some i }) i (put_test r),
      more steps (lock_put i r (same ∙ e) free),
      refl,
      ap inside (here_now t.pc i (put_test r)) ∙ put_test_inside r,
    )

    locked_take :
        s.pc i ≡ take_lock
        → (t : System) × Steps disk dir s t × (t.owner ≡ none) × (t.pc i ≡ s.pc i)
        → (t : System) × Steps disk dir s t × (t.owner ≡ some i) × (inside (t.pc i) ≡ true)
    locked_take e (t, steps, free, same) = (
      go (record t { owner = some i }) i take_test,
      more steps (lock_take i (same ∙ e) free),
      refl,
      ap inside (here_now t.pc i take_test) ∙ take_test_inside,
    )
