-- ===== src/Web/Threads/Release.antt =====
-- The owner of the mutex `mtx` of `Project 3 - Multithreaded Web Server/server.c` gives it back.
use operating_systems.Common.{
  ◌⊎◌, ℕ, ◌≡◌, ◌≢◌, refl, subst, ◌∙◌, true, false, Option, none, some, [], ◌∷◌, ◌++◌, arith,
  Bool-cases, Option-cases, inl, inr,
}
use operating_systems.CText.{Bytes}
use operating_systems.Web.Queue.{Request, is_full, is_empty, put, take}
use operating_systems.Web.Worker.{Disk}
use operating_systems.Web.Config.{Config}
use operating_systems.Web.Threads.{
  Pc, accepting, put_lock, put_test, put_unlock, put_wait, put_signal, take_lock, take_test,
  take_wait, take_unlock, take_signal, look_up, miss, fill, absent, System, update, init_system, go,
  Step, accept, lock_put, wait_freed, store, unlock_put, signal_filled, signal_filled_none,
  wake_filled, lock_take, wait_filled, fetch, unlock_take, signal_freed, signal_freed_none,
  wake_freed, hit, look_up_miss, read, answer_miss, Reach, here, next,
}
use operating_systems.Web.Threads.Invariant.{inside}

-- The owner of `mtx` is inside a section.
abbrev pub Owned : System → Type 0
Owned s = (i : ℕ) → s.owner ≡ some i → inside (s.pc i) ≡ true

pub Owned-Step : {disk : Disk} {dir : Bytes} {s t : System} → Step disk dir s t → Owned s → Owned t
unfolding inside
Owned-Step (accept i r e) m j h = ground (arith, m j)
Owned-Step (lock_put i r e o) m j h = ground (arith, m j)
Owned-Step (wait_freed i r e o) m j h = absurd (cc)
Owned-Step (store i r e o) m j h = ground (arith, m i, m j)
Owned-Step (unlock_put i e) m j h = absurd (cc)
Owned-Step (signal_filled i k e e') m j h = ground (arith, m j)
Owned-Step (signal_filled_none i e e') m j h = ground (arith, m j)
Owned-Step (wake_filled i e) m j h = ground (arith, m j)
Owned-Step (lock_take i e o) m j h = ground (arith, m j)
Owned-Step (wait_filled i e o) m j h = absurd (cc)
Owned-Step (fetch i e o) m j h = ground (arith, m i, m j)
Owned-Step (unlock_take i o e) m j h = absurd (cc)
Owned-Step (signal_freed i k o r e e') m j h = ground (arith, m j)
Owned-Step (signal_freed_none i o e e') m j h = ground (arith, m j)
Owned-Step (wake_freed i r e) m j h = ground (arith, m j)
Owned-Step (hit i r b n e e') m j h = ground (arith, m j)
Owned-Step (look_up_miss i r e e') m j h = ground (arith, m j)
Owned-Step (read i r e) m j h = ground (arith, m j)
Owned-Step (answer_miss i r l e) m j h = ground (arith, m j)

pub Reach-Owned :
    {disk : Disk} {dir : Bytes} {c : Config} {s : System} → Reach disk dir c s → Owned s
Reach-Owned here = unfold init_system in λ i h. absurd (cc)
Reach-Owned (next r st) = Owned-Step st (Reach-Owned r)

-- Some steps, one after the other.
pub data Steps (disk : Disk) (dir : Bytes) (s : System) : System → Type 0 where
  done : Steps disk dir s s
  more : {t u : System} → Steps disk dir s t → Step disk dir t u → Steps disk dir s u

inside_cases :
    (p : Pc)
    → inside p ≡ true
    → ((r : Request) × (p ≡ put_test r))
      ⊎ ((p ≡ put_unlock) ⊎ ((p ≡ take_test) ⊎ ((o : Option Request) × (p ≡ take_unlock o))))
unfolding inside
inside_cases (put_test r) h = inl (r, refl)
inside_cases put_unlock h = inr (inl refl)
inside_cases take_test h = inr (inr (inl refl))
inside_cases (take_unlock o) h = inr (inr (inr (o, refl)))
inside_cases absent h = absurd (cc)
inside_cases accepting h = absurd (cc)
inside_cases (put_lock r) h = absurd (cc)
inside_cases (put_wait r) h = absurd (cc)
inside_cases put_signal h = absurd (cc)
inside_cases take_lock h = absurd (cc)
inside_cases take_wait h = absurd (cc)
inside_cases (take_signal o) h = absurd (cc)
inside_cases (look_up o) h = absurd (cc)
inside_cases (miss r) h = absurd (cc)
inside_cases (fill r l) h = absurd (cc)

-- Steps of the owner `i` alone, to a state where `mtx` is free.
record Released (disk : Disk) (dir : Bytes) (i : ℕ) (s : System) : Type 0 where
  state : System
  steps : Steps disk dir s state
  free : state.owner ≡ none
  others : (j : ℕ) → i ≢ j → state.pc j ≡ s.pc j

other : (pc : ℕ → Pc) (i j : ℕ) (p : Pc) → i ≢ j → update pc i p j ≡ pc j
other pc i j p ne = ground arith

pub here_now : (pc : ℕ → Pc) (i : ℕ) (p : Pc) → update pc i p i ≡ p
here_now pc i p = ground arith

module _ (disk : Disk) (dir : Bytes) where
  release : (i : ℕ) (s : System) → inside (s.pc i) ≡ true → Released disk dir i s
  release i s h = elim (inside_cases (s.pc i) h) [
    | inl (r, e) ↦ elim (Bool-cases (is_full s.queue)) [
      | inl f ↦ record {
        state = go (record s { owner = none }) i (put_wait r);
        steps = more done (wait_freed i r e f);
        free = refl;
        others = λ j ne. other s.pc i j (put_wait r) ne;
      }
      | inr f ↦
          let stored =
            go (record s { queue = put s.queue r; stored = s.stored ++ r ∷ [] }) i put_unlock in
          record {
            state = go (record stored { owner = none }) i put_signal;
            steps = more (more done (store i r e f)) (unlock_put i (here_now s.pc i put_unlock));
            free = refl;
            others = λ j ne. other stored.pc i j put_signal ne ∙ other s.pc i j put_unlock ne;
          }
    ]
    | inr (inl e) ↦ record {
      state = go (record s { owner = none }) i put_signal;
      steps = more done (unlock_put i e);
      free = refl;
      others = λ j ne. other s.pc i j put_signal ne;
    }
    | inr (inr (inl e)) ↦ elim (Bool-cases (is_empty s.queue)) [
      | inl f ↦ record {
        state = go (record s { owner = none }) i take_wait;
        steps = more done (wait_filled i e f);
        free = refl;
        others = λ j ne. other s.pc i j take_wait ne;
      }
      | inr f ↦
          let o = (take s.queue).0 in
          let taken =
            go (record s { queue = (take s.queue).1; taken = s.taken ++ o ∷ [] }) i
              (take_unlock o) in
          record {
            state = go (record taken { owner = none }) i (take_signal o);
            steps =
                more (more done (fetch i e f)) (unlock_take i o (here_now s.pc i (take_unlock o)));
            free = refl;
            others =
                λ j ne. other taken.pc i j (take_signal o) ne ∙ other s.pc i j (take_unlock o) ne;
          }
    ]
    | inr (inr (inr (o, e))) ↦ record {
      state = go (record s { owner = none }) i (take_signal o);
      steps = more done (unlock_take i o e);
      free = refl;
      others = λ j ne. other s.pc i j (take_signal o) ne;
    }
  ]

  pub released :
      (s : System)
      → Owned s
      → (i : ℕ) → inside (s.pc i) ≡ false
      → (t : System) × Steps disk dir s t × (t.owner ≡ none) × (t.pc i ≡ s.pc i)
  released s m i out = elim (Option-cases s.owner) [
    | inl e ↦ (s, done, e, refl)
    | inr (k, e) ↦
        let r = release k s (m k e) in (r.state, r.steps, r.free, r.others i (apart k (m k e)))
  ]
    where
      apart : (k : ℕ) → inside (s.pc k) ≡ true → k ≢ i
      apart k h = λ e. absurd (clash (subst (λ x. inside (s.pc x) ≡ true) e h))
        where
          clash : inside (s.pc i) ≡ true → ⊥
          clash h' = cc
