-- ===== src/Web/Threads/Invariant.antt =====
-- What every step of the threads keeps: the owner of `mtx` is the thread inside a section, the queue
-- holds what was stored and not yet taken, and the cache and the answers are those of the disk.
use mathlib.Core.List.{map-append}
use mathlib.Core.Logic.{if_pos, if_neg}
use operating_systems.Common.{
  ℕ, ◌+◌, ◌≡◌, refl, sym, ap, subst, ◌∙◌, Bool, true, false, some, List, [], ◌∷◌, ◌++◌, map,
  append_assoc, arith, ltb, All, All-append, ℕ_discrete, Bool-cases, inl, inr,
}
use operating_systems.CText.{Bytes}
use operating_systems.Web.Queue.{Request, is_empty, take}
use operating_systems.Web.Queue.Fifo.{Repr, init_request_queue-Repr, put-Repr, take-Repr}
use operating_systems.Web.Cache.{cached_reply}
use operating_systems.Web.Cache.Entries.{init_cache-Repr}
use operating_systems.Web.Worker.{loaded, Disk, load, Answer, answer_load}
use operating_systems.Web.Worker.Coherence.{
  SizesFit, answer_load-loaded, Coherent, cached_reply-Coherent, cache_load-Coherent,
}
use operating_systems.Web.Config.{Config}
use operating_systems.Web.Config.Checks.{InLimits}
use operating_systems.Web.Threads.{
  Pc, accepting, put_lock, put_test, put_unlock, take_lock, take_test, take_unlock, look_up, miss,
  fill, System, update, init_pc, init_system, go, Step, accept, lock_put, wait_freed, store,
  unlock_put, signal_filled, signal_filled_none, wake_filled, lock_take, wait_filled, fetch,
  unlock_take, signal_freed, signal_freed_none, wake_freed, hit, look_up_miss, read, answer_miss,
  Reach, here, next,
}

-- Between the lock of `mtx` and its unlock.
unfoldable pub inside : Pc → Bool
inside (put_test r) = true
inside put_unlock = true
inside take_test = true
inside (take_unlock o) = true
inside _ = false

-- The owner of `mtx` is the one thread inside.
abbrev pub Mutex : System → Type 0
Mutex s = (i : ℕ) → inside (s.pc i) ≡ true → s.owner ≡ some i

Mutex-Step : {disk : Disk} {dir : Bytes} {s t : System} → Step disk dir s t → Mutex s → Mutex t
unfolding inside
Mutex-Step (accept i r e) m j h = ground (arith, m j)
Mutex-Step (lock_put i r e o) m j h = ground (arith, m j)
Mutex-Step (wait_freed i r e o) m j h = ground (arith, m i, m j)
Mutex-Step (store i r e o) m j h = ground (arith, m i, m j)
Mutex-Step (unlock_put i e) m j h = ground (arith, m i, m j)
Mutex-Step (signal_filled i k e e') m j h = ground (arith, m j)
Mutex-Step (signal_filled_none i e e') m j h = ground (arith, m j)
Mutex-Step (wake_filled i e) m j h = ground (arith, m j)
Mutex-Step (lock_take i e o) m j h = ground (arith, m j)
Mutex-Step (wait_filled i e o) m j h = ground (arith, m i, m j)
Mutex-Step (fetch i e o) m j h = ground (arith, m i, m j)
Mutex-Step (unlock_take i o e) m j h = ground (arith, m i, m j)
Mutex-Step (signal_freed i k o r e e') m j h = ground (arith, m j)
Mutex-Step (signal_freed_none i o e e') m j h = ground (arith, m j)
Mutex-Step (wake_freed i r e) m j h = ground (arith, m j)
Mutex-Step (hit i r b n e e') m j h = ground (arith, m j)
Mutex-Step (look_up_miss i r e e') m j h = ground (arith, m j)
Mutex-Step (read i r e) m j h = ground (arith, m j)
Mutex-Step (answer_miss i r l e) m j h = ground (arith, m j)

-- The queue stands for the requests that were stored and not taken; no garbage was taken.
pub record Conserved (s : System) : Type 0 where
  pub waiting : List Request
  pub repr : Repr s.queue waiting
  pub kept : map some s.stored ≡ s.taken ++ map some waiting

Conserved-fetch :
    (s : System) (i : ℕ) (xs : List Request)
    → is_empty s.queue ≡ false
    → Repr s.queue xs
    → map some s.stored ≡ s.taken ++ map some xs
    → Conserved (
        go
          (record s { queue = (take s.queue).1; taken = s.taken ++ (take s.queue).0 ∷ [] })
          i
          (take_unlock (take s.queue).0))
unfolding is_empty
Conserved-fetch s i [] o r k = absurd (ground arith)
Conserved-fetch s i (x ∷ xs) o r k = record {
  waiting = xs;
  repr = (take-Repr s.queue x xs r).1;
  kept =
      rw (take-Repr s.queue x xs r).0 (k ∙ sym (append_assoc s.taken (some x ∷ []) (map some xs)));
}

Conserved-Step :
    {disk : Disk} {dir : Bytes} {s t : System} → Step disk dir s t → Conserved s → Conserved t
Conserved-Step {s = s} (store i r e o) v = record {
  waiting = v.waiting ++ r ∷ [];
  repr = put-Repr s.queue v.waiting r v.repr o;
  kept =
      map-append some s.stored (r ∷ [])
      ∙ ap (λ l. l ++ some r ∷ []) v.kept
      ∙ append_assoc s.taken (map some v.waiting) (some r ∷ [])
      ∙ ap (◌++◌ s.taken) (sym (map-append some v.waiting (r ∷ [])));
}
Conserved-Step {s = s} (fetch i e o) v = Conserved-fetch s i v.waiting o v.repr v.kept
Conserved-Step _ v = record { waiting = v.waiting; repr = v.repr; kept = v.kept }

module _ (disk : Disk) (dir : Bytes) where
  -- A worker in the miss branch holds what the disk has.
  abbrev pub Loaded : Pc → Type 0
  Loaded (fill r l) = load disk dir r.request ≡ l
  Loaded _ = Unit

  -- The cache and every answer so far are those of the disk.
  pub record Faithful (s : System) : Type 0 where
    pub coherent : Coherent disk dir s.cache
    pub loads : (i : ℕ) → Loaded (s.pc i)
    pub right : All (λ a. a.1 ≡ answer_load (a.0).request (load disk dir (a.0).request)) s.answers

  Loaded-update :
      (pc : ℕ → Pc) (i : ℕ) (p : Pc)
      → ((j : ℕ) → Loaded (pc j))
      → Loaded p
      → (j : ℕ) → Loaded (update pc i p j)
  Loaded-update pc i p h k j = elim (ℕ_discrete i j) [
    | yes e ↦ rw (if_pos _ e) k
    | no e ↦ rw (if_neg _ e) (h j)
  ]

  -- An answer is right when it is the one that the disk's file calls for.
  abbrev pub IsRight : Request × Answer → Type 0
  IsRight (r, a) = a ≡ answer_load r.request (load disk dir r.request)

  -- A hit sends what the disk has.
  from_disk :
      {s : System} (r : Request) (buf : Bytes) (size : ℕ)
      → Faithful s
      → (cached_reply s.cache r.request).0 ≡ some (buf, size)
      → load disk dir r.request ≡ loaded buf size
  from_disk {s} r buf size f =
      (cached_reply-Coherent disk dir s.cache r.request f.coherent).1 buf size

  Faithful-Step : {s t : System} → SizesFit disk dir → Step disk dir s t → Faithful s → Faithful t
  Faithful-Step {s = s} fit (signal_filled i k e e') f = record {
    coherent = f.coherent;
    loads = Loaded-update _ i accepting (Loaded-update s.pc k take_lock f.loads tt) tt;
    right = f.right;
  }
  Faithful-Step {s = s} fit (signal_freed i k o r e e') f = record {
    coherent = f.coherent;
    loads = Loaded-update _ i (look_up o) (Loaded-update s.pc k (put_lock r) f.loads tt) tt;
    right = f.right;
  }
  Faithful-Step {s = s} fit (hit i r buf size e e') f = record {
    coherent = (cached_reply-Coherent disk dir s.cache r.request f.coherent).0;
    loads = Loaded-update s.pc i take_lock f.loads tt;
    right = All-append IsRight s.answers _ f.right (
      sym (
          ap (answer_load r.request) (from_disk r buf size f e')
          ∙ answer_load-loaded disk dir r.request buf size fit (from_disk r buf size f e')),
      tt,
    );
  }
  Faithful-Step {s = s} fit (look_up_miss i r e e') f = record {
    coherent = (cached_reply-Coherent disk dir s.cache r.request f.coherent).0;
    loads = Loaded-update s.pc i (miss r) f.loads tt;
    right = f.right;
  }
  Faithful-Step {s = s} fit (read i r e) f = record {
    coherent = f.coherent;
    loads = Loaded-update s.pc i (fill r (load disk dir r.request)) f.loads refl;
    right = f.right;
  }
  Faithful-Step {s = s} fit (answer_miss i r l e) f = record {
    coherent =
        cache_load-Coherent disk dir s.cache r.request l fit (subst Loaded e (f.loads i))
          f.coherent;
    loads = Loaded-update s.pc i take_lock f.loads tt;
    right =
        All-append IsRight s.answers _ f.right
          (sym (ap (answer_load r.request) (subst Loaded e (f.loads i))), tt);
  }
  Faithful-Step fit _ f = record {
    coherent = f.coherent;
    loads = Loaded-update _ _ _ f.loads tt;
    right = f.right;
  }

Loaded-init : (disk : Disk) (dir : Bytes) (c : Config) (i : ℕ) → Loaded disk dir (init_pc c i)
unfolding init_pc
Loaded-init disk dir c i = elim (Bool-cases (ltb i c.num_dispatcher)) [
  | inl e ↦ rw (e, init_pc) tt
  | inr e ↦ elim (Bool-cases (ltb i (c.num_dispatcher + c.num_workers))) [
    | inl e' ↦ rw (e, e', init_pc) tt
    | inr e' ↦ rw (e, e', init_pc) tt
  ]
]

-- All of it holds at the start and after every step.
pub record Inv (disk : Disk) (dir : Bytes) (s : System) : Type 0 where
  pub mutex : Mutex s
  pub conserved : Conserved s
  pub faithful : SizesFit disk dir → Faithful disk dir s

Inv-init : (disk : Disk) (dir : Bytes) (c : Config) → InLimits c → Inv disk dir (init_system c)
unfolding init_system
Inv-init disk dir c v = record {
  mutex = λ i h. absurd (unfold inside init_pc in ground arith);
  conserved = record {
    waiting = [];
    repr = init_request_queue-Repr c.qlen v.queue_in.0;
    kept = refl;
  };
  faithful = λ fit. record {
    coherent = record {
      list = [];
      valid = init_cache-Repr c.cache_entries v.cache_in.0;
      fresh = tt;
    };
    loads = Loaded-init disk dir c;
    right = tt;
  };
}

pub Reach-Inv :
    {disk : Disk} {dir : Bytes} {c : Config} {s : System}
    → InLimits c
    → Reach disk dir c s
    → Inv disk dir s
Reach-Inv {disk} {dir} {c} v here = Inv-init disk dir c v
Reach-Inv {disk} {dir} v (next r st) =
    let i = Reach-Inv v r in
    record {
      mutex = Mutex-Step st i.mutex;
      conserved = Conserved-Step st i.conserved;
      faithful = λ fit. Faithful-Step disk dir fit st (i.faithful fit);
    }
