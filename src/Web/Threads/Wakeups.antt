-- ===== src/Web/Threads/Wakeups.antt =====
-- How many threads of `Project 3 - Multithreaded Web Server/server.c` will signal or look at the queue
-- while another waits.
use operating_systems.Common.{ℕ, ◌+◌, ◌≤◌, ◌≡◌, refl, arith, some}
use operating_systems.CText.{Bytes}
use operating_systems.Web.Queue.{Request, is_full, is_empty, put, take}
use operating_systems.Web.Worker.{Disk, load}
use operating_systems.Web.Config.{Config}
use operating_systems.Web.Threads.{
  Pc, accepting, put_lock, put_test, put_unlock, put_wait, put_signal, take_lock, take_test,
  take_wait, take_unlock, take_signal, look_up, miss, fill, absent, System, init_pc, init_system,
  Step, accept, lock_put, wait_freed, store, unlock_put, signal_filled, signal_filled_none,
  wake_filled, lock_take, wait_filled, fetch, unlock_take, signal_freed, signal_freed_none,
  wake_freed, hit, look_up_miss, read, answer_miss, Reach, here, next,
}
use operating_systems.Web.Threads.Waiters.{Bounded, Reach-Bounded}
use operating_systems.Web.Threads.Counting.{total, total_moved, woken}

-- The threads that will signal `filled` or are about to look at the queue.
unfoldable pub will_take : Pc → ℕ
will_take put_unlock = 1
will_take put_signal = 1
will_take take_lock = 1
will_take take_test = 1
will_take _ = 0

-- The threads that will signal `freed` or are about to look for room.
unfoldable pub will_put : Pc → ℕ
will_put (take_unlock o) = 1
will_put (take_signal o) = 1
will_put (put_lock r) = 1
will_put (put_test r) = 1
will_put _ = 0

abbrev pub Filled : ℕ → System → Type 0
Filled n s = (j : ℕ) → s.pc j ≡ take_wait → s.queue.num_requests_in_queue ≤ total will_take n s.pc

Filled-Step :
    {disk : Disk} {dir : Bytes} {s t : System} (n : ℕ)
    → Step disk dir s t
    → Bounded n s
    → Filled n s
    → Filled n t
unfolding will_take is_empty take put
Filled-Step {s = s} n (accept i r e) b m j h =
    ground (arith, m j, total_moved will_take n i accepting (put_lock r) s.pc b e)
Filled-Step {s = s} n (lock_put i r e o) b m j h =
    ground (arith, m j, total_moved will_take n i (put_lock r) (put_test r) s.pc b e)
Filled-Step {s = s} n (wait_freed i r e o) b m j h =
    ground (arith, m j, total_moved will_take n i (put_test r) (put_wait r) s.pc b e)
Filled-Step {s = s} n (store i r e o) b m j h =
    ground (arith, m j, total_moved will_take n i (put_test r) put_unlock s.pc b e)
Filled-Step {s = s} n (unlock_put i e) b m j h =
    ground (arith, m j, total_moved will_take n i put_unlock put_signal s.pc b e)
Filled-Step {s = s} n (signal_filled i k e e') b m j h =
    ground (arith, m j, woken will_take n i k put_signal accepting take_wait take_lock s.pc b e e')
Filled-Step {s = s} n (signal_filled_none i e free) b m j h = ground (arith, free j)
Filled-Step {s = s} n (wake_filled i e) b m j h =
    ground (arith, m j, total_moved will_take n i take_wait take_lock s.pc b e)
Filled-Step {s = s} n (lock_take i e o) b m j h =
    ground (arith, m j, total_moved will_take n i take_lock take_test s.pc b e)
Filled-Step {s = s} n (wait_filled i e o) b m j h = ground arith
Filled-Step {s = s} n (fetch i e o) b m j h =
    ground (arith, m j, total_moved will_take n i take_test (take_unlock (take s.queue).0) s.pc b e)
Filled-Step {s = s} n (unlock_take i o e) b m j h =
    ground (arith, m j, total_moved will_take n i (take_unlock o) (take_signal o) s.pc b e)
Filled-Step {s = s} n (signal_freed i k o r e e') b m j h = ground (
  arith,
  m j,
  woken will_take n i k (take_signal o) (look_up o) (put_wait r) (put_lock r) s.pc b e e',
)
Filled-Step {s = s} n (signal_freed_none i o e e') b m j h =
    ground (arith, m j, total_moved will_take n i (take_signal o) (look_up o) s.pc b e)
Filled-Step {s = s} n (wake_freed i r e) b m j h =
    ground (arith, m j, total_moved will_take n i (put_wait r) (put_lock r) s.pc b e)
Filled-Step {s = s} n (hit i r buf k e e') b m j h =
    ground (arith, m j, total_moved will_take n i (look_up (some r)) take_lock s.pc b e)
Filled-Step {s = s} n (look_up_miss i r e e') b m j h =
    ground (arith, m j, total_moved will_take n i (look_up (some r)) (miss r) s.pc b e)
Filled-Step {disk} {dir} {s} n (read i r e) b m j h =
    ground
      (arith, m j, total_moved will_take n i (miss r) (fill r (load disk dir r.request)) s.pc b e)
Filled-Step {s = s} n (answer_miss i r l e) b m j h =
    ground (arith, m j, total_moved will_take n i (fill r l) take_lock s.pc b e)

abbrev pub Freed : ℕ → System → Type 0
Freed n s =
    (j : ℕ) (r : Request)
    → s.pc j ≡ put_wait r
    → s.queue.request_queue_size ≤ s.queue.num_requests_in_queue + total will_put n s.pc

Freed-Step :
    {disk : Disk} {dir : Bytes} {s t : System} (n : ℕ)
    → Step disk dir s t
    → Bounded n s
    → Freed n s
    → Freed n t
unfolding will_put is_full is_empty take put
Freed-Step {s = s} n (accept i r e) b m j q h =
    ground (arith, m j q, total_moved will_put n i accepting (put_lock r) s.pc b e)
Freed-Step {s = s} n (lock_put i r e o) b m j q h =
    ground (arith, m j q, total_moved will_put n i (put_lock r) (put_test r) s.pc b e)
Freed-Step {s = s} n (wait_freed i r e o) b m j q h = ground arith
Freed-Step {s = s} n (store i r e o) b m j q h =
    ground (arith, m j q, total_moved will_put n i (put_test r) put_unlock s.pc b e)
Freed-Step {s = s} n (unlock_put i e) b m j q h =
    ground (arith, m j q, total_moved will_put n i put_unlock put_signal s.pc b e)
Freed-Step {s = s} n (signal_filled i k e e') b m j q h =
    ground (arith, m j q, woken will_put n i k put_signal accepting take_wait take_lock s.pc b e e')
Freed-Step {s = s} n (signal_filled_none i e e') b m j q h =
    ground (arith, m j q, total_moved will_put n i put_signal accepting s.pc b e)
Freed-Step {s = s} n (wake_filled i e) b m j q h =
    ground (arith, m j q, total_moved will_put n i take_wait take_lock s.pc b e)
Freed-Step {s = s} n (lock_take i e o) b m j q h =
    ground (arith, m j q, total_moved will_put n i take_lock take_test s.pc b e)
Freed-Step {s = s} n (wait_filled i e o) b m j q h =
    ground (arith, m j q, total_moved will_put n i take_test take_wait s.pc b e)
Freed-Step {s = s} n (fetch i e o) b m j q h =
    ground
      (arith, m j q, total_moved will_put n i take_test (take_unlock (take s.queue).0) s.pc b e)
Freed-Step {s = s} n (unlock_take i o e) b m j q h =
    ground (arith, m j q, total_moved will_put n i (take_unlock o) (take_signal o) s.pc b e)
Freed-Step {s = s} n (signal_freed i k o r e e') b m j q h = ground (
  arith,
  m j q,
  woken will_put n i k (take_signal o) (look_up o) (put_wait r) (put_lock r) s.pc b e e',
)
Freed-Step {s = s} n (signal_freed_none i o e free) b m j q h = ground (arith, free j q)
Freed-Step {s = s} n (wake_freed i r e) b m j q h =
    ground (arith, m j q, total_moved will_put n i (put_wait r) (put_lock r) s.pc b e)
Freed-Step {s = s} n (hit i r buf k e e') b m j q h =
    ground (arith, m j q, total_moved will_put n i (look_up (some r)) take_lock s.pc b e)
Freed-Step {s = s} n (look_up_miss i r e e') b m j q h =
    ground (arith, m j q, total_moved will_put n i (look_up (some r)) (miss r) s.pc b e)
Freed-Step {disk} {dir} {s} n (read i r e) b m j q h =
    ground
      (arith, m j q, total_moved will_put n i (miss r) (fill r (load disk dir r.request)) s.pc b e)
Freed-Step {s = s} n (answer_miss i r l e) b m j q h =
    ground (arith, m j q, total_moved will_put n i (fill r l) take_lock s.pc b e)

init-Filled : (n : ℕ) (c : Config) → Filled n (init_system c)
unfolding init_system init_pc
init-Filled n c j h = absurd (ground arith)

init-Freed : (n : ℕ) (c : Config) → Freed n (init_system c)
unfolding init_system init_pc
init-Freed n c j r h = absurd (ground arith)

Reach-Filled :
    {disk : Disk} {dir : Bytes} {c : Config} {s : System}
    → Reach disk dir c s
    → Filled (c.num_dispatcher + c.num_workers) s
Reach-Filled {c = c} here = init-Filled (c.num_dispatcher + c.num_workers) c
Reach-Filled {c = c} (next r st) =
    Filled-Step (c.num_dispatcher + c.num_workers) st (Reach-Bounded r) (Reach-Filled r)

Reach-Freed :
    {disk : Disk} {dir : Bytes} {c : Config} {s : System}
    → Reach disk dir c s
    → Freed (c.num_dispatcher + c.num_workers) s
Reach-Freed {c = c} here = init-Freed (c.num_dispatcher + c.num_workers) c
Reach-Freed {c = c} (next r st) =
    Freed-Step (c.num_dispatcher + c.num_workers) st (Reach-Bounded r) (Reach-Freed r)

-- What the other threads owe to a thread that waits: for every request in the queue, or every free
-- slot of it, one of them will signal or is about to look.
abbrev pub Owed : ℕ → System → Pc → Type 0
Owed n s take_wait = s.queue.num_requests_in_queue ≤ total will_take n s.pc
Owed n s (put_wait r) =
    s.queue.request_queue_size ≤ s.queue.num_requests_in_queue + total will_put n s.pc
Owed n s _ = Unit

owed : (n : ℕ) (s : System) (j : ℕ) (p : Pc) → Filled n s → Freed n s → s.pc j ≡ p → Owed n s p
owed n s j take_wait m f e = m j e
owed n s j (put_wait r) m f e = f j r e
owed n s j absent m f e = tt
owed n s j accepting m f e = tt
owed n s j (put_lock r) m f e = tt
owed n s j (put_test r) m f e = tt
owed n s j put_unlock m f e = tt
owed n s j put_signal m f e = tt
owed n s j take_lock m f e = tt
owed n s j take_test m f e = tt
owed n s j (take_unlock o) m f e = tt
owed n s j (take_signal o) m f e = tt
owed n s j (look_up o) m f e = tt
owed n s j (miss r) m f e = tt
owed n s j (fill r l) m f e = tt

-- In every reachable state: while a worker waits on `filled`, the requests in the queue are at most as
-- many as the dispatchers that have stored one and not signalled yet and the workers that lock `mtx`
-- or are at their test; while a dispatcher waits on `freed`, the free slots are at most as many as the
-- workers that have taken a request and not signalled yet and the dispatchers that lock `mtx` or are
-- at their test. So no signal is lost.
pub no_wakeup_lost :
    {disk : Disk} {dir : Bytes} {c : Config} {s : System}
    → Reach disk dir c s
    → (j : ℕ) → Owed (c.num_dispatcher + c.num_workers) s (s.pc j)
no_wakeup_lost {c = c} {s} reach j =
    owed (c.num_dispatcher + c.num_workers) s j (s.pc j) (Reach-Filled reach) (Reach-Freed reach)
      refl
