-- ===== src/Web/Threads/Served.antt =====
-- What becomes of the requests that the dispatchers of `Project 3 - Multithreaded Web Server/server.c`
-- store.
use operating_systems.Common.{
  ℕ, zero, suc, ◌+◌, ◌≡◌, refl, sym, ap, ◌∙◌, arith, Option, none, some, List, [], ◌∷◌, ◌++◌, map,
}
use operating_systems.CText.{Bytes}
use operating_systems.Web.Queue.{Request, take}
use operating_systems.Web.Queue.Fifo.{Repr}
use operating_systems.Web.Worker.{Disk, Answer, load, result, answer_load}
use operating_systems.Web.Content.{get_content_type}
use operating_systems.Web.Config.{Config}
use operating_systems.Web.Config.Checks.{InLimits}
use operating_systems.Web.Threads.{
  Pc, accepting, put_lock, put_test, put_unlock, put_wait, put_signal, take_lock, take_test,
  take_wait, take_unlock, take_signal, look_up, miss, fill, System, init_pc, init_system, Step,
  accept, lock_put, wait_freed, store, unlock_put, signal_filled, signal_filled_none, wake_filled,
  lock_take, wait_filled, fetch, unlock_take, signal_freed, signal_freed_none, wake_freed, hit,
  look_up_miss, read, answer_miss, Reach, here, next,
}
use operating_systems.Web.Threads.Waiters.{Bounded, Reach-Bounded}
use operating_systems.Web.Threads.Counting.{total, total_moved, woken}
use operating_systems.Web.Threads.Safety.{requests_conserved}

-- The sum of the weights of a list.
unfoldable pub sum {ℓ} : {A : Type ℓ} → (A → ℕ) → List A → ℕ
sum w [] = 0
sum w (x ∷ xs) = w x + sum w xs

sum-append {ℓ} : {A : Type ℓ} (w : A → ℕ) (xs ys : List A) → sum w (xs ++ ys) ≡ sum w xs + sum w ys
unfolding sum
sum-append w [] ys = omega arith
sum-append w (x ∷ xs) ys = ground (arith, sum-append w xs ys)

sum-map {ℓ ℓ'} :
    {A : Type ℓ} {B : Type ℓ'} (w : B → ℕ) (f : A → B) (xs : List A)
    → sum w (map f xs) ≡ sum (λ x. w (f x)) xs
unfolding sum
sum-map w f [] = refl
sum-map w f (x ∷ xs) = ap (λ n. w (f x) + n) (sum-map w f xs)

module _ (w : Request → ℕ) where
  unfoldable pub of_taken : Option Request → ℕ
  of_taken none = 0
  of_taken (some r) = w r

  -- The request that a worker has taken and not answered yet.
  unfoldable pub in_service : Pc → ℕ
  unfolding of_taken
  in_service (take_unlock o) = of_taken o
  in_service (take_signal o) = of_taken o
  in_service (look_up o) = of_taken o
  in_service (miss r) = w r
  in_service (fill r l) = w r
  in_service _ = 0

  unfoldable pub of_answer : Request × Answer → ℕ
  of_answer (r, answer) = w r

  abbrev pub Served : ℕ → System → Type 0
  Served n s = sum of_taken s.taken ≡ total in_service n s.pc + sum of_answer s.answers

  Served-Step :
      {disk : Disk} {dir : Bytes} {s t : System} (n : ℕ)
      → Step disk dir s t
      → Bounded n s
      → Served n s
      → Served n t
  unfolding sum of_taken of_answer in_service
  Served-Step {s = s} n (accept i r e) b h =
      ground (arith, h, total_moved in_service n i accepting (put_lock r) s.pc b e)
  Served-Step {s = s} n (lock_put i r e o) b h =
      ground (arith, h, total_moved in_service n i (put_lock r) (put_test r) s.pc b e)
  Served-Step {s = s} n (wait_freed i r e o) b h =
      ground (arith, h, total_moved in_service n i (put_test r) (put_wait r) s.pc b e)
  Served-Step {s = s} n (store i r e o) b h =
      ground (arith, h, total_moved in_service n i (put_test r) put_unlock s.pc b e)
  Served-Step {s = s} n (unlock_put i e) b h =
      ground (arith, h, total_moved in_service n i put_unlock put_signal s.pc b e)
  Served-Step {s = s} n (signal_filled i k e e') b h =
      ground (arith, h, woken in_service n i k put_signal accepting take_wait take_lock s.pc b e e')
  Served-Step {s = s} n (signal_filled_none i e e') b h =
      ground (arith, h, total_moved in_service n i put_signal accepting s.pc b e)
  Served-Step {s = s} n (wake_filled i e) b h =
      ground (arith, h, total_moved in_service n i take_wait take_lock s.pc b e)
  Served-Step {s = s} n (lock_take i e o) b h =
      ground (arith, h, total_moved in_service n i take_lock take_test s.pc b e)
  Served-Step {s = s} n (wait_filled i e o) b h =
      ground (arith, h, total_moved in_service n i take_test take_wait s.pc b e)
  Served-Step {s = s} n (fetch i e o) b h = ground (
    arith,
    h,
    total_moved in_service n i take_test (take_unlock (take s.queue).0) s.pc b e,
    sum-append of_taken s.taken ((take s.queue).0 ∷ []),
  )
  Served-Step {s = s} n (unlock_take i o e) b h =
      ground (arith, h, total_moved in_service n i (take_unlock o) (take_signal o) s.pc b e)
  Served-Step {s = s} n (signal_freed i k o r e e') b h = ground (
    arith,
    h,
    woken in_service n i k (take_signal o) (look_up o) (put_wait r) (put_lock r) s.pc b e e',
  )
  Served-Step {s = s} n (signal_freed_none i o e e') b h =
      ground (arith, h, total_moved in_service n i (take_signal o) (look_up o) s.pc b e)
  Served-Step {s = s} n (wake_freed i r e) b h =
      ground (arith, h, total_moved in_service n i (put_wait r) (put_lock r) s.pc b e)
  Served-Step {s = s} n (hit i r buf k e e') b h = ground (
    arith,
    h,
    total_moved in_service n i (look_up (some r)) take_lock s.pc b e,
    sum-append of_answer s.answers ((r, result (get_content_type r.request) buf k) ∷ []),
  )
  Served-Step {s = s} n (look_up_miss i r e e') b h =
      ground (arith, h, total_moved in_service n i (look_up (some r)) (miss r) s.pc b e)
  Served-Step {disk} {dir} {s} n (read i r e) b h =
      ground
        (arith, h, total_moved in_service n i (miss r) (fill r (load disk dir r.request)) s.pc b e)
  Served-Step {s = s} n (answer_miss i r l e) b h = ground (
    arith,
    h,
    total_moved in_service n i (fill r l) take_lock s.pc b e,
    sum-append of_answer s.answers ((r, answer_load r.request l) ∷ []),
  )

  init_pc_idle : (c : Config) (i : ℕ) → in_service (init_pc c i) ≡ 0
  unfolding init_pc in_service
  init_pc_idle c i = ground arith

  total_idle : (n : ℕ) (c : Config) → total in_service n (init_pc c) ≡ 0
  unfolding total
  total_idle zero c = refl
  total_idle (suc n) c = ground (arith, total_idle n c, init_pc_idle c n)

  init-Served : (n : ℕ) (c : Config) → Served n (init_system c)
  unfolding init_system sum
  init-Served n c = ground (arith, total_idle n c)

  Reach-Served :
      {disk : Disk} {dir : Bytes} {c : Config} {s : System}
      → Reach disk dir c s
      → Served (c.num_dispatcher + c.num_workers) s
  Reach-Served {c = c} here = init-Served (c.num_dispatcher + c.num_workers) c
  Reach-Served {c = c} (next r st) =
      Served-Step (c.num_dispatcher + c.num_workers) st (Reach-Bounded r) (Reach-Served r)

  stored_taken :
      (stored waiting : List Request) (taken : List (Option Request))
      → map some stored ≡ taken ++ map some waiting
      → sum w stored ≡ sum of_taken taken + sum w waiting
  unfolding of_taken
  stored_taken stored waiting taken h =
      sym (sum-map of_taken some stored)
      ∙ ap (sum of_taken) h
      ∙ sum-append of_taken taken (map some waiting)
      ∙ ap (λ n. sum of_taken taken + n) (sum-map of_taken some waiting)

-- From a configuration within the limits, in every reachable state, and for every weight of the
-- requests, such as the number of those that are equal to a given one: the requests that the
-- dispatchers stored weigh as much as those that the valid queue holds, those that a worker has taken
-- and not answered yet, and those that were answered, together. So no request is dropped, and none is
-- answered twice.
pub answered_once :
    {disk : Disk} {dir : Bytes} {c : Config} {s : System}
    → InLimits c
    → Reach disk dir c s
    → (waiting : List Request) × Repr s.queue waiting
      × ((w : Request → ℕ)
          → sum w s.stored
            ≡ sum w waiting
              + total (in_service w) (c.num_dispatcher + c.num_workers) s.pc
              + sum (of_answer w) s.answers)
answered_once {c = c} {s} limits reach =
    let (waiting, repr, kept) = requests_conserved limits reach in
    (
      waiting,
      repr,
      λ w. omega (arith, stored_taken w s.stored waiting s.taken kept, Reach-Served w reach),
    )
