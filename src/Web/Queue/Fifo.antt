-- ===== src/Web/Queue/Fifo.antt =====
-- The circular buffer implements a bounded first-in first-out queue.
use native.Mathlib.Nat.{mod-eq_of_lt}
use operating_systems.Common.{
  ℕ, suc, ◌+◌, ◌-◌, ◌%◌, ◌≤◌, ◌<◌, ◌≡◌, ◌≢◌, true, false, Option, none, some, List, [], ◌∷◌, ◌++◌,
  arith, ltb, if◌then◌else◌, length, length-set, length-replicate, length-append, set, mod-suc,
  get_elem?-set_self, get_elem?-set_ne, dec_lt,
}
use operating_systems.Web.Queue.{
  Request, RequestQueue, init_request_queue, read_slot, is_full, put, take,
}

-- The slot of a position that has gone round the array at most once.
abbrev pub slot : ℕ → ℕ → ℕ
slot size k = if ltb k size then k else k - size

module _ (size : ℕ) where
  -- The slots from position `k` on hold `xs`, oldest first.
  abbrev pub Holds : List (Option Request) → ℕ → List Request → Type 0
  Holds slots k [] = Unit
  Holds slots k (x ∷ xs) = (read_slot slots (slot size k) ≡ some x) × Holds slots (suc k) xs

  read_slot-set_self :
      (slots : List (Option Request)) (i : ℕ) (r : Request)
      → i < length slots
      → read_slot (set slots i (some r)) i ≡ some r
  unfolding read_slot
  read_slot-set_self slots i r h = ground (arith, get_elem?-set_self slots i (some r) h)

  read_slot-set_ne :
      (slots : List (Option Request)) (i j : ℕ) (r : Request)
      → i ≢ j
      → read_slot (set slots i (some r)) j ≡ read_slot slots j
  unfolding read_slot
  read_slot-set_ne slots i j r h = ground (arith, get_elem?-set_ne slots i j (some r) h)

  -- A write past the held positions, less than once round, extends what is held.
  Holds-put :
      (slots : List (Option Request)) (k t : ℕ) (xs : List Request) (r : Request)
      → length slots ≡ size
      → t ≡ k + length xs
      → t < k + size
      → t < size + size
      → Holds slots k xs
      → Holds (set slots (slot size t) (some r)) k (xs ++ r ∷ [])
  Holds-put slots k t [] r len e lt small h =
      ground (arith, read_slot-set_self slots (slot size t) r)
  Holds-put slots k t (x ∷ xs) r len e lt small h = (
    ground (arith, read_slot-set_ne slots (slot size t) (slot size k) r),
    Holds-put slots (suc k) t xs r len (omega arith) (omega arith) small h.1,
  )

  -- A whole round changes no slot.
  Holds-round :
      (slots : List (Option Request)) (k j : ℕ) (xs : List Request)
      → j ≡ k + size
      → k + length xs ≤ size
      → Holds slots j xs
      → Holds slots k xs
  Holds-round slots k j [] e lt h = tt
  Holds-round slots k j (x ∷ xs) e lt h =
      (ground arith, Holds-round slots (suc k) (suc j) xs (omega arith) (omega arith) h.1)

  -- The next slot of the oldest position, as the code computes it.
  Holds-next :
      (slots : List (Option Request)) (k : ℕ) (xs : List Request)
      → k < size
      → length xs < size
      → Holds slots (suc k) xs
      → Holds slots ((k + 1) % size) xs
  Holds-next slots k xs lt few h = elim (dec_lt (k + 1) size) [
    | yes p ↦ let e : (k + 1) % size ≡ suc k = omega (arith, mod-eq_of_lt p) in rw e h
    | no p ↦
        let e : (k + 1) % size ≡ 0 = ground (arith, mod-suc size k) in
        rw e (Holds-round slots 0 (suc k) xs (omega arith) (omega arith) h)
  ]

-- `q` stands for the queue `xs`: the invariant of `request_queue_t`.
pub record Repr (q : RequestQueue) (xs : List Request) : Type 0 where
  pub sized : 0 < q.request_queue_size
  pub allocated : length q.requests ≡ q.request_queue_size
  pub counted : q.num_requests_in_queue ≡ length xs
  pub bounded : q.num_requests_in_queue ≤ q.request_queue_size
  pub service_in : q.next_slot_to_service < q.request_queue_size
  pub store_at :
      q.next_slot_to_store
      ≡ slot q.request_queue_size (q.next_slot_to_service + q.num_requests_in_queue)
  pub held : Holds q.request_queue_size q.requests q.next_slot_to_service xs

-- `initRequestQueue` makes the empty queue.
pub init_request_queue-Repr : (qlen : ℕ) → 0 < qlen → Repr (init_request_queue qlen) []
unfolding init_request_queue
init_request_queue-Repr qlen h = ground (arith, length-replicate {A = Option Request} qlen none)

pub is_full_lem :
    (q : RequestQueue) (xs : List Request)
    → Repr q xs
    → is_full q ≡ (if ltb (length xs) q.request_queue_size then false else true)
unfolding is_full
is_full_lem q xs v = ground arith

pub put-Repr :
    (q : RequestQueue) (xs : List Request) (r : Request)
    → Repr q xs
    → is_full q ≡ false
    → Repr (put q r) (xs ++ r ∷ [])
unfolding put is_full
put-Repr q xs r v room = record {
  sized = v.sized;
  allocated = omega (arith, v.allocated, length-set q.requests q.next_slot_to_store (some r));
  counted = omega (arith, v.counted, length-append xs (r ∷ []));
  bounded = ground arith;
  service_in = v.service_in;
  store_at = ground (arith, mod-suc q.request_queue_size q.next_slot_to_store);
  held = rw v.store_at (
      Holds-put q.request_queue_size q.requests q.next_slot_to_service
        (q.next_slot_to_service + q.num_requests_in_queue) xs r v.allocated
        (omega (arith, v.counted)) (ground arith) (ground arith) v.held);
}

pub take-Repr :
    (q : RequestQueue) (x : Request) (xs : List Request)
    → Repr q (x ∷ xs)
    → ((take q).0 ≡ some x) × Repr (take q).1 xs
unfolding take
take-Repr q x xs v = (
  ground arith,
  record {
    sized = v.sized;
    allocated = v.allocated;
    counted = omega (arith, v.counted);
    bounded = omega (arith, v.bounded);
    service_in = ground (arith, mod-suc q.request_queue_size q.next_slot_to_service v.service_in);
    store_at = ground (arith, mod-suc q.request_queue_size q.next_slot_to_service v.service_in);
    held =
        Holds-next q.request_queue_size q.requests q.next_slot_to_service xs v.service_in
          (omega (arith, v.counted, v.bounded)) v.held.1;
  },
)
