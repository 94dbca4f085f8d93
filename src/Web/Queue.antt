-- ===== src/Web/Queue.antt =====
-- The request buffer of `Project 3 - Multithreaded Web Server/server.c`: `request_t`,
-- `request_queue_t`, `initRequestQueue`, and the critical sections of `dispatch` and `worker` on it.
pub mod Fifo
pub mod Refinement
use operating_systems.Common.{
  ℕ, ◌+◌, ◌-◌, ◌%◌, Bool, Option, none, some, List, [], ◌∷◌, ◌==◌, if◌then◌else◌, get_elem?, set,
  replicate,
}
use operating_systems.CText.{Bytes}

-- `request_t`. A descriptor that `dispatch` stores is positive.
pub record Request : Type 0 where
  pub fd : ℕ
  pub request : Bytes

-- `request_queue_t`. A slot of the malloc'ed array that was never written is `none`.
pub record RequestQueue : Type 0 where
  pub next_slot_to_store : ℕ
  pub next_slot_to_service : ℕ
  pub num_requests_in_queue : ℕ
  pub request_queue_size : ℕ
  pub requests : List (Option Request)

-- `initRequestQueue`
unfoldable pub init_request_queue : ℕ → RequestQueue
init_request_queue qlen = record {
  next_slot_to_store = 0;
  next_slot_to_service = 0;
  num_requests_in_queue = 0;
  request_queue_size = qlen;
  requests = replicate qlen none;
}

-- The request in a slot; `none` if the slot was never written or lies outside the array.
unfoldable pub read_slot : List (Option Request) → ℕ → Option Request
read_slot slots i = elim (get_elem? slots i) [ none ↦ none | some r ↦ r ]

-- The test of the wait loop in `dispatch`.
unfoldable pub is_full : RequestQueue → Bool
is_full q = q.num_requests_in_queue == q.request_queue_size

-- The test of the wait loop in `worker`.
unfoldable pub is_empty : RequestQueue → Bool
is_empty q = q.num_requests_in_queue == 0

-- What `dispatch` does under `mtx` once its wait loop has ended.
unfoldable pub put : RequestQueue → Request → RequestQueue
put q r = record q {
  requests = set q.requests q.next_slot_to_store (some r);
  num_requests_in_queue = q.num_requests_in_queue + 1;
  next_slot_to_store = (q.next_slot_to_store + 1) % q.request_queue_size;
}

-- What `worker` does under `mtx` once its wait loop has ended. The counter is an `int`: it is
-- decremented only above 0.
unfoldable pub take : RequestQueue → Option Request × RequestQueue
unfolding read_slot
take q = (
  read_slot q.requests q.next_slot_to_service,
  record q {
    next_slot_to_service = (q.next_slot_to_service + 1) % q.request_queue_size;
    num_requests_in_queue = q.num_requests_in_queue - 1;
  },
)

-- One pass of `dispatch` through the section: `none` means that it waits on `freed`.
unfoldable pub try_put : RequestQueue → Request → Option RequestQueue
unfolding is_full put
try_put q r = if is_full q then none else some (put q r)

-- One pass of `worker`: `none` means that it waits on `filled`.
unfoldable pub try_take : RequestQueue → Option (Option Request × RequestQueue)
unfolding is_empty take
try_take q = if is_empty q then none else some (take q)

-- Passes of the threads through the two sections, in any order, with what each pass returns.
pub data Pass : Type 0 where
  puts : Request → Pass
  takes : Pass

pub data Reply : Type 0 where
  blocked stored : Reply
  got : Option Request → Reply

unfoldable pub run : RequestQueue → List Pass → List Reply
unfolding try_put try_take
run q [] = []
run q (puts r ∷ ps) = elim (try_put q r) [
  | none ↦ blocked ∷ run q ps
  | some q' ↦ stored ∷ run q' ps
]
run q (takes ∷ ps) = elim (try_take q) [
  | none ↦ blocked ∷ run q ps
  | some (r, q') ↦ got r ∷ run q' ps
]
