-- ===== src/Web/Threads/Waiters.antt =====
-- The threads of `Project 3 - Multithreaded Web Server/server.c` are finitely many, so that it is
-- decided whether a dispatcher waits for room in the queue.
use operating_systems.Common.{
  ◌⊎◌, ℕ, zero, suc, ◌+◌, ◌<◌, ◌≤◌, ◌≡◌, ◌≢◌, refl, subst, arith, dec_lt, inl, inr,
}
use operating_systems.CText.{Bytes}
use operating_systems.Web.Queue.{Request}
use operating_systems.Web.Worker.{Disk}
use operating_systems.Web.Config.{Config}
use operating_systems.Web.Threads.{
  Pc, accepting, put_lock, put_test, put_unlock, put_wait, put_signal, take_lock, take_test,
  take_wait, take_unlock, take_signal, look_up, miss, fill, absent, System, init_pc, init_system,
  Step, accept, lock_put, wait_freed, store, unlock_put, signal_filled, signal_filled_none,
  wake_filled, lock_take, wait_filled, fetch, unlock_take, signal_freed, signal_freed_none,
  wake_freed, hit, look_up_miss, read, answer_miss, Reach, here, next,
}

-- There are no threads behind the workers.
abbrev pub Bounded : ℕ → System → Type 0
Bounded n s = (j : ℕ) → n ≤ j → s.pc j ≡ absent

pub Bounded-Step :
    {disk : Disk} {dir : Bytes} {s t : System} (n : ℕ)
    → Step disk dir s t
    → Bounded n s
    → Bounded n t
Bounded-Step n (accept i r e) m j h = ground (arith, m j)
Bounded-Step n (lock_put i r e o) m j h = ground (arith, m j)
Bounded-Step n (wait_freed i r e o) m j h = ground (arith, m j)
Bounded-Step n (store i r e o) m j h = ground (arith, m j)
Bounded-Step n (unlock_put i e) m j h = ground (arith, m j)
Bounded-Step n (signal_filled i k e e') m j h = ground (arith, m j)
Bounded-Step n (signal_filled_none i e e') m j h = ground (arith, m j)
Bounded-Step n (wake_filled i e) m j h = ground (arith, m j)
Bounded-Step n (lock_take i e o) m j h = ground (arith, m j)
Bounded-Step n (wait_filled i e o) m j h = ground (arith, m j)
Bounded-Step n (fetch i e o) m j h = ground (arith, m j)
Bounded-Step n (unlock_take i o e) m j h = ground (arith, m j)
Bounded-Step n (signal_freed i k o r e e') m j h = ground (arith, m j)
Bounded-Step n (signal_freed_none i o e e') m j h = ground (arith, m j)
Bounded-Step n (wake_freed i r e) m j h = ground (arith, m j)
Bounded-Step n (hit i r b k e e') m j h = ground (arith, m j)
Bounded-Step n (look_up_miss i r e e') m j h = ground (arith, m j)
Bounded-Step n (read i r e) m j h = ground (arith, m j)
Bounded-Step n (answer_miss i r l e) m j h = ground (arith, m j)

init-Bounded : (c : Config) → Bounded (c.num_dispatcher + c.num_workers) (init_system c)
unfolding init_system init_pc
init-Bounded c j h = ground arith

pub Reach-Bounded :
    {disk : Disk} {dir : Bytes} {c : Config} {s : System}
    → Reach disk dir c s
    → Bounded (c.num_dispatcher + c.num_workers) s
Reach-Bounded {c = c} here = init-Bounded c
Reach-Bounded {c = c} (next r st) =
    Bounded-Step (c.num_dispatcher + c.num_workers) st (Reach-Bounded r)

-- Whether a dispatcher waits.
is_waiting : (p : Pc) → ((r : Request) × (p ≡ put_wait r)) ⊎ ((r : Request) → p ≢ put_wait r)
is_waiting (put_wait r) = inl (r, refl)
is_waiting absent = inr (λ r e. absurd (cc))
is_waiting accepting = inr (λ r e. absurd (cc))
is_waiting (put_lock q) = inr (λ r e. absurd (cc))
is_waiting (put_test q) = inr (λ r e. absurd (cc))
is_waiting put_unlock = inr (λ r e. absurd (cc))
is_waiting put_signal = inr (λ r e. absurd (cc))
is_waiting take_lock = inr (λ r e. absurd (cc))
is_waiting take_test = inr (λ r e. absurd (cc))
is_waiting take_wait = inr (λ r e. absurd (cc))
is_waiting (take_unlock o) = inr (λ r e. absurd (cc))
is_waiting (take_signal o) = inr (λ r e. absurd (cc))
is_waiting (look_up o) = inr (λ r e. absurd (cc))
is_waiting (miss q) = inr (λ r e. absurd (cc))
is_waiting (fill q l) = inr (λ r e. absurd (cc))

waiter_below :
    (pc : ℕ → Pc) (n : ℕ)
    → ((j : ℕ) × (r : Request) × (pc j ≡ put_wait r))
      ⊎ ((j : ℕ) (r : Request) → j < n → pc j ≢ put_wait r)
waiter_below pc zero = inr (λ j r h. absurd (omega (arith, h)))
waiter_below pc (suc n) = elim (is_waiting (pc n)) [
  | inl (r, e) ↦ inl (n, r, e)
  | inr none_here ↦ elim (waiter_below pc n) [
    | inl found ↦ inl found
    | inr none_below ↦ inr (λ j r h. elim (dec_lt j n) [
      | yes below ↦ none_below j r below
      | no beyond ↦ subst (λ k. pc k ≢ put_wait r) (omega (arith, h, beyond)) (none_here r)
    ])
  ]
]

pub waiter :
    (n : ℕ) (s : System)
    → Bounded n s
    → ((j : ℕ) × (r : Request) × (s.pc j ≡ put_wait r))
      ⊎ ((j : ℕ) (r : Request) → s.pc j ≢ put_wait r)
waiter n s bounded = elim (waiter_below s.pc n) [
  | inl found ↦ inl found
  | inr none_below ↦ inr (λ j r. elim (dec_lt j n) [
    | yes below ↦ none_below j r below
    | no beyond ↦ λ e. absurd (clash (bounded j (omega (arith, beyond))) e)
  ])
]
  where
    clash : {p : Pc} {r : Request} → p ≡ absent → p ≡ put_wait r → ⊥
    clash a b = cc
