-- ===== src/Web/Threads.antt =====
-- The dispatcher and worker threads of `Project 3 - Multithreaded Web Server/server.c`, interleaved
-- in any order: `dispatch`, `worker`, the mutex `mtx`, the condition variables `freed` and `filled`.
-- A section under `cacheMtx` is one step. The log and its mutex are left out here.
pub mod Invariant
pub mod Safety
pub mod Release
pub mod Progress
pub mod Waiters
pub mod Counting
pub mod Wakeups
pub mod Service
pub mod Served
use operating_systems.Common.{
  ℕ, ◌+◌, ◌<◌, ◌≡◌, ◌≢◌, Bool, true, false, ◌||◌, Option, none, some, List, [], ◌∷◌, ◌++◌, ltb,
  if◌then◌else◌, ℕ_discrete,
}
use mathlib.Core.Logic.{ite}
use operating_systems.CText.{Bytes}
use operating_systems.Web.Queue.{
  Request, RequestQueue, init_request_queue, is_full, is_empty, put, take,
}
use operating_systems.Web.Cache.{Cache, init_cache, cached_reply}
use operating_systems.Web.Content.{get_content_type}
use operating_systems.Web.Worker.{
  Disk, Load, load, Answer, result, cache_load, answer_load, overruns, crashes,
}
use operating_systems.Web.Config.{Config}

-- Where a thread stands, with its live local variables.
pub data Pc : Type 0 where
  -- no thread has this index
  absent : Pc
  -- `dispatch`: before `accept_connection`; before locking `mtx` with a request; at the test of the
  -- wait loop; waiting on `freed`; before the unlock; before the signal
  accepting : Pc
  put_lock put_test put_wait : Request → Pc
  put_unlock put_signal : Pc
  -- `worker`: before locking `mtx`; at the test of the wait loop; waiting on `filled`; before the
  -- unlock; before the signal; before the lookup; before the miss branch; before the second visit
  -- of the cache
  take_lock take_test take_wait : Pc
  take_unlock take_signal look_up : Option Request → Pc
  miss : Request → Pc
  fill : Request → Load → Pc

-- The shared state, and what has happened so far: requests stored and taken, in order, answers, and
-- whether a worker has written past a buffer or crashed. Nothing says what the program does behind such
-- a fault: the steps from there on are those of a run on which it has no further effect.
pub record System : Type 0 where
  pub queue : RequestQueue
  pub cache : Cache
  pub owner : Option ℕ
  pub pc : ℕ → Pc
  pub stored : List Request
  pub taken : List (Option Request)
  pub answers : List (Request × Answer)
  pub faulted : Bool

abbrev pub update : (ℕ → Pc) → ℕ → Pc → ℕ → Pc
update pc i p j = ite (ℕ_discrete i j) p (pc j)

-- The dispatchers come first.
unfoldable pub init_pc : Config → ℕ → Pc
init_pc c i =
    if ltb i c.num_dispatcher
    then accepting
    else if ltb i (c.num_dispatcher + c.num_workers)
    then take_lock
    else absent

unfoldable pub init_system : Config → System
init_system c = record {
  queue = init_request_queue c.qlen;
  cache = init_cache c.cache_entries;
  owner = none;
  pc = init_pc c;
  stored = [];
  taken = [];
  answers = [];
  faulted = false;
}

-- Thread `i` goes on at `p`.
abbrev pub go : System → ℕ → Pc → System
go s i p = record s { pc = update s.pc i p }

-- One step of thread `i`. A thread that waits on a condition variable and is woken, by a signal or
-- spuriously, has to lock `mtx` again and to test again.
pub data Step (disk : Disk) (working_dir : Bytes) (s : System) : System → Type 0 where
  -- `accept_connection` and `get_request` succeed; a failure of one leaves the thread where it is
  accept :
      (i : ℕ) (r : Request) → s.pc i ≡ accepting → Step disk working_dir s (go s i (put_lock r))
  lock_put :
      (i : ℕ) (r : Request)
      → s.pc i ≡ put_lock r
      → s.owner ≡ none
      → Step disk working_dir s (go (record s { owner = some i }) i (put_test r))
  wait_freed :
      (i : ℕ) (r : Request)
      → s.pc i ≡ put_test r
      → is_full s.queue ≡ true
      → Step disk working_dir s (go (record s { owner = none }) i (put_wait r))
  store :
      (i : ℕ) (r : Request)
      → s.pc i ≡ put_test r
      → is_full s.queue ≡ false
      → Step disk working_dir s
          (go (record s { queue = put s.queue r; stored = s.stored ++ r ∷ [] }) i put_unlock)
  unlock_put :
      (i : ℕ)
      → s.pc i ≡ put_unlock
      → Step disk working_dir s (go (record s { owner = none }) i put_signal)
  -- `pthread_cond_signal(&filled)`: a waiting worker is woken, if there is one
  signal_filled :
      (i j : ℕ)
      → s.pc i ≡ put_signal
      → s.pc j ≡ take_wait
      → Step disk working_dir s (go (go s j take_lock) i accepting)
  signal_filled_none :
      (i : ℕ)
      → s.pc i ≡ put_signal
      → ((j : ℕ) → s.pc j ≢ take_wait)
      → Step disk working_dir s (go s i accepting)
  wake_filled : (j : ℕ) → s.pc j ≡ take_wait → Step disk working_dir s (go s j take_lock)
  lock_take :
      (i : ℕ)
      → s.pc i ≡ take_lock
      → s.owner ≡ none
      → Step disk working_dir s (go (record s { owner = some i }) i take_test)
  wait_filled :
      (i : ℕ)
      → s.pc i ≡ take_test
      → is_empty s.queue ≡ true
      → Step disk working_dir s (go (record s { owner = none }) i take_wait)
  fetch :
      (i : ℕ)
      → s.pc i ≡ take_test
      → is_empty s.queue ≡ false
      → Step disk working_dir s (
          go
            (record s { queue = (take s.queue).1; taken = s.taken ++ (take s.queue).0 ∷ [] })
            i
            (take_unlock (take s.queue).0))
  unlock_take :
      (i : ℕ) (o : Option Request)
      → s.pc i ≡ take_unlock o
      → Step disk working_dir s (go (record s { owner = none }) i (take_signal o))
  -- `pthread_cond_signal(&freed)`
  signal_freed :
      (i j : ℕ) (o : Option Request) (r : Request)
      → s.pc i ≡ take_signal o
      → s.pc j ≡ put_wait r
      → Step disk working_dir s (go (go s j (put_lock r)) i (look_up o))
  signal_freed_none :
      (i : ℕ) (o : Option Request)
      → s.pc i ≡ take_signal o
      → ((j : ℕ) (r : Request) → s.pc j ≢ put_wait r)
      → Step disk working_dir s (go s i (look_up o))
  wake_freed :
      (j : ℕ) (r : Request) → s.pc j ≡ put_wait r → Step disk working_dir s (go s j (put_lock r))
  hit :
      (i : ℕ) (r : Request) (buf : Bytes) (size : ℕ)
      → s.pc i ≡ look_up (some r)
      → (cached_reply s.cache r.request).0 ≡ some (buf, size)
      → Step disk working_dir s (
          go
            (record s {
              cache = (cached_reply s.cache r.request).1;
              answers = s.answers ++ (r, result (get_content_type r.request) buf size) ∷ [];
            })
            i
            take_lock)
  look_up_miss :
      (i : ℕ) (r : Request)
      → s.pc i ≡ look_up (some r)
      → (cached_reply s.cache r.request).0 ≡ none
      → Step disk working_dir s
          (go (record s { cache = (cached_reply s.cache r.request).1 }) i (miss r))
  read :
      (i : ℕ) (r : Request)
      → s.pc i ≡ miss r
      → Step disk working_dir s (
          go
            (record s { faulted = s.faulted || overruns (load disk working_dir r.request) })
            i
            (fill r (load disk working_dir r.request)))
  answer_miss :
      (i : ℕ) (r : Request) (l : Load)
      → s.pc i ≡ fill r l
      → Step disk working_dir s (
          go
            (record s {
              cache = cache_load s.cache r.request l;
              answers = s.answers ++ (r, answer_load r.request l) ∷ [];
              faulted = s.faulted || crashes l;
            })
            i
            take_lock)

pub data Reach (disk : Disk) (working_dir : Bytes) (c : Config) : System → Type 0 where
  here : Reach disk working_dir c (init_system c)
  next :
      {s t : System}
      → Reach disk working_dir c s
      → Step disk working_dir s t
      → Reach disk working_dir c t
