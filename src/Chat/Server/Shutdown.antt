-- ===== src/Chat/Server/Shutdown.antt =====
-- `cleanup_users` of `Project 2 - Server/server.c`, which ends the chat.
use operating_systems.Common.{
  ◌⊎◌, ℕ, zero, suc, ◌+◌, ◌≤◌, ◌<◌, ◌≡◌, ◌≢◌, refl, ◌∙◌, sym, ap, subst, true, none, some, List, [],
  ◌∷◌, length, get_elem?, set, set_cases, get_elem?_lt, get_elem?-set_ne, dec_lt, ℕ_discrete,
  Option-cases, inl, inr, arith,
}
use operating_systems.Chat.Users.{slot_full, slot_empty, User, empty_slot}
use operating_systems.Chat.Users.Lookup.{SlotStatus-cases}
use operating_systems.Chat.Server.{
  Call, close, kill, Os, Server, kick_user, cleanup_slot, cleanup_from, cleanup_users,
}
use operating_systems.Chat.Server.Kick.{first_close, kick_user_closed}

-- The call is one of the calls.
abbrev pub Called : Call → List Call → Type 0
Called c [] = ⊥
Called c (x ∷ calls) = (x ≡ c) ⊎ Called c calls

module _ (os : Os) (ok : (calls : List Call) → os calls ≡ true) where
  slot_full_lem :
      (i : ℕ) (u : User) (s : Server)
      → get_elem? s.users i ≡ some u
      → u.m_status ≡ slot_full
      → cleanup_slot os i s ≡ record {
        users = set s.users i empty_slot;
        calls = close u.m_fd_to_server ∷ first_close u s.calls;
      }
  slot_full_lem i u s e f =
      opened
      ∙ kick_user_closed os i u s e (ok (first_close u s.calls))
          (ok (close u.m_fd_to_server ∷ first_close u s.calls))
    where
      opened : cleanup_slot os i s ≡ kick_user os i s
      opened = unfold cleanup_slot in rw (e, f, cleanup_slot) refl

  slot_empty_lem :
      (i : ℕ) (u : User) (s : Server)
      → get_elem? s.users i ≡ some u
      → u.m_status ≡ slot_empty
      → cleanup_slot os i s ≡ s
  unfolding cleanup_slot
  slot_empty_lem i u s e f = rw (e, f, cleanup_slot) refl

  slot_none_lem : (i : ℕ) (s : Server) → get_elem? s.users i ≡ none → cleanup_slot os i s ≡ s
  unfolding cleanup_slot
  slot_none_lem i s e = rw (e, cleanup_slot) refl

  -- What an entry is after a round for slot `i`.
  slot_entry :
      (i j : ℕ) (s : Server) (w : User)
      → get_elem? (cleanup_slot os i s).users j ≡ some w
      → (w.m_status ≡ slot_empty) ⊎ ((i ≢ j) × (get_elem? s.users j ≡ some w))
  slot_entry i j s w h = elim (Option-cases (get_elem? s.users i)) [
    | inl e ↦ inr (λ p. absurd (clash p e (at s (slot_none_lem i s e))), at s (slot_none_lem i s e))
    | inr (u, e) ↦ elim (SlotStatus-cases u.m_status) [
      | inl f ↦
          elim (set_cases s.users i j empty_slot w (get_elem?_lt s.users i u e) (
            at
              (record {
                users = set s.users i empty_slot;
                calls = close u.m_fd_to_server ∷ first_close u s.calls;
              })
              (slot_full_lem i u s e f))) [
                | inl (p, q) ↦ inl (ap (λ x. x.m_status) q)
                | inr r ↦ inr r
              ]
      | inr f ↦ elim (ℕ_discrete i j) [
        | yes p ↦ inl (ap (λ x. x.m_status) (same p e (at s (slot_empty_lem i u s e f))) ∙ f)
        | no ne ↦ inr (ne, at s (slot_empty_lem i u s e f))
      ]
    ]
  ]
    where
      at : (t : Server) → cleanup_slot os i s ≡ t → get_elem? t.users j ≡ some w
      at t e = subst (λ x. get_elem? x.users j ≡ some w) e h

      clash : i ≡ j → get_elem? s.users i ≡ none → get_elem? s.users j ≡ some w → ⊥
      clash p e k = cc

      same :
          {u : User} → i ≡ j → get_elem? s.users i ≡ some u → get_elem? s.users j ≡ some w → w ≡ u
      same p e k = cc

  swept :
      (n i j : ℕ) (s : Server) (w : User)
      → get_elem? (cleanup_from os n i s).users j ≡ some w
      → (w.m_status ≡ slot_empty) ⊎ (((j < i) ⊎ (i + n ≤ j)) × (get_elem? s.users j ≡ some w))
  unfolding cleanup_from
  swept zero i j s w h =
      inr (elim (dec_lt j i) [ yes p ↦ inl p | no p ↦ inr (omega (arith, p)) ], h)
  swept (suc n) i j s w h = elim (swept n (i + 1) j (cleanup_slot os i s) w h) [
    | inl e ↦ inl e
    | inr (out, k) ↦ elim (slot_entry i j s w k) [
      | inl e ↦ inl e
      | inr (ne, k') ↦ inr (elim (dec_lt j i) [ yes p ↦ inl p | no p ↦ inr (beyond p ne out) ], k')
    ]
  ]
    where
      beyond : ¬ (j < i) → i ≢ j → (j < i + 1) ⊎ (i + 1 + n ≤ j) → i + suc n ≤ j
      beyond p ne (inl q) = absurd (omega (arith, p, ne, q))
      beyond p ne (inr q) = omega (arith, q)

  -- The calls of a round, and of the loop, come on top of the others.
  slot_keeps :
      (i : ℕ) (s : Server) (c : Call) → Called c s.calls → Called c (cleanup_slot os i s).calls
  slot_keeps i s c h = elim (Option-cases (get_elem? s.users i)) [
    | inl e ↦ rw (slot_none_lem i s e) h
    | inr (u, e) ↦ elim (SlotStatus-cases u.m_status) [
      | inl f ↦ rw (slot_full_lem i u s e f) (inr (inr (inr (inr h))))
      | inr f ↦ rw (slot_empty_lem i u s e f) h
    ]
  ]

  loop_keeps :
      (n i : ℕ) (s : Server) (c : Call) → Called c s.calls → Called c (cleanup_from os n i s).calls
  unfolding cleanup_from
  loop_keeps zero i s c h = h
  loop_keeps (suc n) i s c h = loop_keeps n (i + 1) (cleanup_slot os i s) c (slot_keeps i s c h)

  slot_other :
      (i j : ℕ) (s : Server) → i ≢ j → get_elem? (cleanup_slot os i s).users j ≡ get_elem? s.users j
  slot_other i j s ne = elim (Option-cases (get_elem? s.users i)) [
    | inl e ↦ rw (slot_none_lem i s e) refl
    | inr (u, e) ↦ elim (SlotStatus-cases u.m_status) [
      | inl f ↦ rw (slot_full_lem i u s e f) (get_elem?-set_ne s.users i j empty_slot ne)
      | inr f ↦ rw (slot_empty_lem i u s e f) refl
    ]
  ]

  killed :
      (n i j : ℕ) (s : Server) (u : User)
      → get_elem? s.users j ≡ some u
      → u.m_status ≡ slot_full
      → i ≤ j
      → j < i + n
      → Called (kill u.m_pid) (cleanup_from os n i s).calls
  unfolding cleanup_from
  killed zero i j s u e f le lt = absurd (omega (arith, le, lt))
  killed (suc n) i j s u e f le lt = elim (ℕ_discrete i j) [
    | yes p ↦ loop_keeps n (i + 1) (cleanup_slot os i s) (kill u.m_pid) (
        rw (slot_full_lem i u s (subst (λ k. get_elem? s.users k ≡ some u) (sym p) e) f)
          (inr (inr (inr (inl refl)))))
    | no ne ↦
        killed n (i + 1) j (cleanup_slot os i s) u (slot_other i j s ne ∙ e) f
          (omega (arith, le, ne)) (omega (arith, lt))
  ]

-- Where every `close` succeeds, `cleanup_users` on a list of 10 slots kills the process of every
-- full slot and leaves every slot empty.
pub cleanup_users_all :
    (os : Os) (s : Server)
    → ((calls : List Call) → os calls ≡ true)
    → length s.users ≡ 10
    → ((j : ℕ) (w : User)
        → get_elem? (cleanup_users os s).users j ≡ some w
        → w.m_status ≡ slot_empty)
      × ((j : ℕ) (u : User)
          → get_elem? s.users j ≡ some u
          → u.m_status ≡ slot_full
          → Called (kill u.m_pid) (cleanup_users os s).calls)
unfolding cleanup_users
cleanup_users_all os s ok ten = (
  λ j w h. elim (swept os ok 10 0 j s w h) [
    | inl e ↦ e
    | inr (out, k) ↦ absurd (outside j w out (get_elem?_lt s.users j w k))
  ],
  λ j u e f.
      killed os ok 10 0 j s u e f (omega arith) (omega (arith, get_elem?_lt s.users j u e, ten)),
)
  where
    outside : (j : ℕ) (w : User) → (j < 0) ⊎ (0 + 10 ≤ j) → j < length s.users → ⊥
    outside j w (inl p) h = omega (arith, p)
    outside j w (inr p) h = omega (arith, p, h, ten)
