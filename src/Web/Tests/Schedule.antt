-- ===== src/Web/Tests/Schedule.antt =====
-- One dispatcher and one worker: a request is accepted, stored, taken and answered.
use operating_systems.Common.{
  ℕ, zero, suc, ◌+◌, ◌≡◌, ◌≤◌, true, refl, ◌≢◌, some, List, ◌++◌, map, arith, All, ℕ_discrete,
}
use operating_systems.CText.{str_eq}
use operating_systems.Web.Queue.{
  Request, init_request_queue, is_full, is_empty, put, take, read_slot,
}
use operating_systems.Web.Queue.Fifo.{Repr}
use operating_systems.Web.Cache.{init_cache, cached_reply, get_cache_index}
use operating_systems.Web.Worker.{load, overruns, crashes}
use operating_systems.Web.Threads.{
  System, Reach, here, next, accept, lock_put, store, unlock_put, lock_take, wait_filled, fetch,
  unlock_take, signal_freed_none, look_up_miss, read, answer_miss, init_system, init_pc, put_wait,
}
use operating_systems.Web.Threads.Invariant.{inside, IsRight}
use operating_systems.Web.Threads.Progress.{lock_obtained}
use operating_systems.Web.Threads.Release.{Steps}
use operating_systems.Web.Threads.Counting.{total}
use operating_systems.Web.Threads.Served.{sum, in_service, of_answer, answered_once}
use operating_systems.Web.Threads.Wakeups.{will_take, no_wakeup_lost}
use operating_systems.Web.Threads.Safety.{mutual_exclusion, requests_conserved, answers_faithful}
use operating_systems.Web.Tests.Data.{root, page, small_disk, small_config, page_request}
use operating_systems.Web.Tests.Requests.{small_config-InLimits, small_sizes_fit}

abbrev Run : Type 0
Run = (s : System) × Reach small_disk root small_config s

-- The dispatcher stores the request and gives `mtx` back.
abbrev storing : Run
unfolding init_system init_pc ℕ_discrete is_full init_request_queue
storing = (
  _,
  next
      (next (next (next here (accept 0 page_request refl)) (lock_put 0 page_request refl refl))
        (store 0 page_request refl refl))
      (unlock_put 0 refl),
)

-- The worker takes it.
abbrev taking : Run
unfolding storing is_empty put take read_slot
taking = (
  _,
  next (next (next storing.1 (lock_take 1 refl refl)) (fetch 1 refl refl))
      (unlock_take 1 (some page_request) refl),
)

no_dispatcher_waits : (j : ℕ) (r : Request) → taking.0.pc j ≢ put_wait r
unfolding taking
no_dispatcher_waits zero r = λ e. cc
no_dispatcher_waits (suc zero) r = λ e. cc
no_dispatcher_waits (suc (suc j)) r = λ e. ground arith

-- It misses the cache, reads the file and answers.
abbrev served : Run
unfolding taking cached_reply get_cache_index init_cache
served = (
  _,
  next
      (next
        (next (next taking.1 (signal_freed_none 1 (some page_request) refl no_dispatcher_waits))
          (look_up_miss 1 page_request refl refl))
        (read 1 page_request refl))
      (answer_miss 1 page_request (load small_disk root page) refl),
)

mutual_exclusion_example : ◌≡◌ {A = ℕ} 1 1
unfolding taking inside
mutual_exclusion_example = mutual_exclusion small_config-InLimits fetched.1 1 1 refl refl
  where
    fetched : Run
    fetched = (_, next (next storing.1 (lock_take 1 refl refl)) (fetch 1 refl refl))

requests_conserved_example :
    (waiting : List Request) × Repr storing.0.queue waiting
    × (map some storing.0.stored ≡ storing.0.taken ++ map some waiting)
requests_conserved_example = requests_conserved small_config-InLimits storing.1

answered_once_example :
    (waiting : List Request) × Repr served.0.queue waiting
    × ((w : Request → ℕ)
        → sum w served.0.stored
          ≡ sum w waiting + total (in_service w) 2 served.0.pc + sum (of_answer w) served.0.answers)
answered_once_example = answered_once small_config-InLimits served.1

answers_faithful_example : All (IsRight small_disk root) served.0.answers
unfolding served overruns load str_eq crashes
answers_faithful_example = answers_faithful small_config-InLimits small_sizes_fit served.1 refl

-- The dispatcher has `mtx`, and the worker waits for it.
abbrev holding : Run
unfolding storing
holding = (_, next (next here (accept 0 page_request refl)) (lock_put 0 page_request refl refl))

lock_obtained_example :
    (t : System) × Steps small_disk root holding.0 t × (t.owner ≡ some 1) × (inside (t.pc 1) ≡ true)
unfolding holding
lock_obtained_example = lock_obtained holding.1 1 tt

-- The worker has `mtx`, and the queue holds the request.
abbrev looking : Run
unfolding storing
looking = (_, next storing.1 (lock_take 1 refl refl))

-- The worker waits, and the dispatcher has stored a request and not signalled yet.
abbrev unsignalled : Run
unfolding init_system init_pc ℕ_discrete is_full is_empty init_request_queue
unsignalled = (
  _,
  next
      (next
        (next
          (next (next (next here (lock_take 1 refl refl)) (wait_filled 1 refl refl))
            (accept 0 page_request refl))
          (lock_put 0 page_request refl refl))
        (store 0 page_request refl refl))
      (unlock_put 0 refl),
)

no_wakeup_lost_example :
    unsignalled.0.queue.num_requests_in_queue ≤ total will_take 2 unsignalled.0.pc
unfolding unsignalled
no_wakeup_lost_example = no_wakeup_lost unsignalled.1 1
