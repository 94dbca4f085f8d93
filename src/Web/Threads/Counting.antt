-- ===== src/Web/Threads/Counting.antt =====
-- Sums over the threads of `Project 3 - Multithreaded Web Server/server.c`, by where they stand.
use operating_systems.Common.{
  ℕ, zero, suc, ◌+◌, ◌<◌, ◌≤◌, ◌≡◌, ◌≢◌, refl, sym, ap, ◌∙◌, arith, dec_lt,
}
use operating_systems.Web.Threads.{Pc, absent, update}

module _ (w : Pc → ℕ) where
  -- The weights of the threads below `n`.
  unfoldable pub total : ℕ → (ℕ → Pc) → ℕ
  total zero pc = 0
  total (suc n) pc = total n pc + w (pc n)

  total_above :
      (n : ℕ) (pc : ℕ → Pc) (i : ℕ) (q : Pc) → n ≤ i → total n (update pc i q) ≡ total n pc
  unfolding total
  total_above zero pc i q h = refl
  total_above (suc n) pc i q h = ground (arith, total_above n pc i q)

  total-update :
      (n : ℕ) (pc : ℕ → Pc) (i : ℕ) (q : Pc)
      → i < n
      → total n (update pc i q) + w (pc i) ≡ total n pc + w q
  unfolding total
  total-update zero pc i q h = absurd (omega (arith, h))
  total-update (suc n) pc i q h = elim (dec_lt i n) [
    | yes below ↦ ground (arith, total-update n pc i q below)
    | no last ↦ ground (arith, total_above n pc i q)
  ]

  -- A thread goes on from `p` to `q`.
  pub total_moved :
      (n i : ℕ) (p q : Pc) (pc : ℕ → Pc)
      → ((j : ℕ) → n ≤ j → pc j ≡ absent)
      → pc i ≡ p
      → p ≢ absent
      → total n (update pc i q) + w p ≡ total n pc + w q
  total_moved n i p q pc bounded e ne = elim (dec_lt i n) [
    | yes below ↦ ap (λ x. total n (update pc i q) + w x) (sym e) ∙ total-update n pc i q below
    | no beyond ↦ absurd (ne (sym e ∙ bounded i (omega (arith, beyond))))
  ]

  -- A thread goes on from `p` to `q`, and wakes another that waits at `v` and goes on at `u`.
  pub woken :
      (n i k : ℕ) (p q v u : Pc) (pc : ℕ → Pc)
      → ((j : ℕ) → n ≤ j → pc j ≡ absent)
      → pc i ≡ p
      → pc k ≡ v
      → p ≢ absent
      → v ≢ absent
      → p ≢ v
      → total n (update (update pc k u) i q) + w p + w v ≡ total n pc + w q + w u
  woken n i k p q v u pc bounded e e' ne ne' differ = omega (
    arith,
    total_moved n k v u pc bounded e' ne',
    total_moved n i p q (update pc k u) bounded_then (other ∙ e) ne,
  )
    where
      bounded_then : (j : ℕ) → n ≤ j → update pc k u j ≡ absent
      bounded_then j h = ground (arith, bounded j)

      other : update pc k u i ≡ pc i
      other = ground arith
