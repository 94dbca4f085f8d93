-- ===== src/Web/Queue/Refinement.antt =====
-- What the threads observe of the circular buffer is what they would observe of a bounded queue.
use operating_systems.Common.{
  ℕ, ◌<◌, ◌≡◌, refl, ap, ◌∙◌, true, false, Option, none, some, List, [], ◌∷◌, ◌++◌, arith, ◌==◌,
  if◌then◌else◌, length, Bool-cases, inl, inr,
}
use operating_systems.Web.Queue.{
  Request, RequestQueue, init_request_queue, is_full, is_empty, put, take, Pass, puts, takes, Reply,
  blocked, stored, got, run,
}
use operating_systems.Web.Queue.Fifo.{Repr, init_request_queue-Repr, put-Repr, take-Repr}

module _ (size : ℕ) where
  -- A queue of at most `size` requests, oldest first.
  abbrev pub spec_put : List Request → Request → Option (List Request)
  spec_put xs r = if length xs == size then none else some (xs ++ r ∷ [])

  unfoldable pub spec_run : List Request → List Pass → List Reply
  spec_run xs [] = []
  spec_run xs (puts r ∷ ps) = elim (length xs == size) [
    | true ↦ blocked ∷ spec_run xs ps
    | false ↦ stored ∷ spec_run (xs ++ r ∷ []) ps
  ]
  spec_run [] (takes ∷ ps) = blocked ∷ spec_run [] ps
  spec_run (x ∷ xs) (takes ∷ ps) = got (some x) ∷ spec_run xs ps

pub is_full-length :
    (q : RequestQueue) (xs : List Request)
    → Repr q xs
    → is_full q ≡ (length xs == q.request_queue_size)
unfolding is_full
is_full-length q xs v = rw v.counted refl

pub size-put :
    (q : RequestQueue) (r : Request) → (put q r).request_queue_size ≡ q.request_queue_size
unfolding put
size-put q r = refl

pub size-take : (q : RequestQueue) → (take q).1.request_queue_size ≡ q.request_queue_size
unfolding take
size-take q = refl

pub run-spec_run :
    (q : RequestQueue) (xs : List Request) (ps : List Pass)
    → Repr q xs
    → run q ps ≡ spec_run q.request_queue_size xs ps
unfolding run spec_run
run-spec_run q xs [] v = refl
run-spec_run q xs (puts r ∷ ps) v = elim (Bool-cases (is_full q)) [
  | inl e ↦ ground (arith, is_full-length q xs v, run-spec_run q xs ps v)
  | inr e ↦ ground (
    arith,
    is_full-length q xs v,
    run-spec_run (put q r) (xs ++ r ∷ []) ps (put-Repr q xs r v e),
    size-put q r,
  )
]
run-spec_run q [] (takes ∷ ps) v = unfold is_empty in ground (arith, run-spec_run q [] ps v)
run-spec_run q (x ∷ xs) (takes ∷ ps) v =
    unfold is_empty in
    ground
      (arith, take-Repr q x xs v, run-spec_run (take q).1 xs ps (take-Repr q x xs v).1, size-take q)

-- For every queue length of at least 1 and every sequence of passes through the two sections: the
-- circular buffer blocks, stores and hands out requests exactly as a first-in first-out queue of
-- that many requests does; in particular no read meets a slot that was never written.
pub run-refines :
    (qlen : ℕ) (ps : List Pass) → 0 < qlen → run (init_request_queue qlen) ps ≡ spec_run qlen [] ps
run-refines qlen ps h =
    run-spec_run (init_request_queue qlen) [] ps (init_request_queue-Repr qlen h)
    ∙ ap (λ n. spec_run n [] ps) (unfold init_request_queue in refl)
