-- ===== src/Chat/Server/Valid.antt =====
-- What the functions of `Project 2 - Server/server.c` that call the system do to the user list.
use operating_systems.Common.{
  ℕ, zero, suc, ◌+◌, ◌≡◌, refl, ap, true, false, Option, none, some, [], ◌∷◌, ◌++◌, get_elem?,
  Bool-cases, Option-cases, inl, inr,
}
use operating_systems.CText.{Bytes}
use operating_systems.Chat.Users.{User}
use operating_systems.Chat.Users.Lookup.{SlotStatus-cases}
use operating_systems.Chat.Users.Valid.{IsValid, clean_slot-IsValid}
use operating_systems.Chat.Server.Private.{AnswerOf, send_p2p_private}
use operating_systems.Chat.Server.{
  Call, Os, Server, called, kill_user, cleanup_entry, cleanup_user, kick_user, cleanup_slot,
  cleanup_from, cleanup_users, broadcast_msg, list_text, list_users, send_p2p_msg,
}

cleanup_entry-IsValid :
    (os : Os) (idx : ℕ) (u : User) (s : Server)
    → IsValid s.users
    → IsValid (cleanup_entry os idx u s).users
unfolding cleanup_entry
cleanup_entry-IsValid os idx u s valid =
    elim (Bool-cases (os (Call.close u.m_fd_to_user ∷ s.calls))) [
      | inl e ↦
          rw (e, cleanup_entry)
            (clean_slot-IsValid true
              (os (Call.close u.m_fd_to_server ∷ Call.close u.m_fd_to_user ∷ s.calls)) idx s.users
              valid)
      | inr e ↦ rw (e, cleanup_entry) (clean_slot-IsValid false false idx s.users valid)
    ]

cleanup_user-IsValid :
    (os : Os) (idx : ℕ) (s : Server) → IsValid s.users → IsValid (cleanup_user os idx s).users
unfolding cleanup_user
cleanup_user-IsValid os idx s valid = elim (Option-cases (get_elem? s.users idx)) [
  | inl e ↦ rw (e, cleanup_user) valid
  | inr (u, e) ↦ rw (e, cleanup_user) (cleanup_entry-IsValid os idx u s valid)
]

pub kick_user-IsValid :
    (os : Os) (idx : ℕ) (s : Server) → IsValid s.users → IsValid (kick_user os idx s).users
unfolding kick_user kill_user
kick_user-IsValid os idx s valid = elim (Option-cases (get_elem? s.users idx)) [
  | inl e ↦ rw (e, kick_user) valid
  | inr (u, e) ↦ rw (e, kick_user) (cleanup_user-IsValid os idx (kill_user u s) valid)
]

cleanup_slot-IsValid :
    (os : Os) (i : ℕ) (s : Server) → IsValid s.users → IsValid (cleanup_slot os i s).users
unfolding cleanup_slot
cleanup_slot-IsValid os i s valid = elim (Option-cases (get_elem? s.users i)) [
  | inl e ↦ rw (e, cleanup_slot) valid
  | inr (u, e) ↦ elim (SlotStatus-cases u.m_status) [
    | inl f ↦ rw (e, f, cleanup_slot) (kick_user-IsValid os i s valid)
    | inr f ↦ rw (e, f, cleanup_slot) valid
  ]
]

cleanup_from-IsValid :
    (os : Os) (n i : ℕ) (s : Server) → IsValid s.users → IsValid (cleanup_from os n i s).users
unfolding cleanup_from
cleanup_from-IsValid os zero i s valid = valid
cleanup_from-IsValid os (suc n) i s valid =
    cleanup_from-IsValid os n (i + 1) (cleanup_slot os i s) (cleanup_slot-IsValid os i s valid)

pub cleanup_users-IsValid :
    (os : Os) (s : Server) → IsValid s.users → IsValid (cleanup_users os s).users
unfolding cleanup_users
cleanup_users-IsValid os s valid = cleanup_from-IsValid os 10 0 s valid

pub broadcast_msg-users :
    (os : Os) (buf : Bytes) (sender : Option ℕ) (s : Server)
    → (broadcast_msg os buf sender s).users ≡ s.users
unfolding broadcast_msg
broadcast_msg-users os buf sender s = refl

-- A function that may only add to the calls.
abbrev pub Leaves : Server → Option Server → Type 0
Leaves s none = Unit
Leaves s (some s') = s'.users ≡ s.users

pub list_users-Leaves : (idx : Option ℕ) (s : Server) → Leaves s (list_users idx s)
unfolding list_users
list_users-Leaves idx s = elim (Option-cases (list_text s.users)) [
  | inl e ↦ rw (e, list_users) tt
  | inr (text, e) ↦ rw (e, list_users) (at_index idx text)
]
  where
    at_index :
        (k : Option ℕ) (text : Bytes)
        → Leaves s (elim k [
          | none ↦ some (called (Call.print (10 ∷ [])) (called (Call.print text) s))
          | some i ↦ elim (get_elem? s.users i) [
            | none ↦ none
            | some u ↦ some (called (Call.write u.m_fd_to_user (text ++ 0 ∷ [])) s)
          ]
        ])
    at_index none text = refl
    at_index (some i) text = elim (Option-cases (get_elem? s.users i)) [
      | inl e ↦ rw e tt
      | inr (u, e) ↦ rw e refl
    ]

pub send_p2p_msg-Leaves :
    (idx : ℕ) (sender : User) (buf : Bytes) (s : Server) → Leaves s (send_p2p_msg idx sender buf s)
send_p2p_msg-Leaves idx sender buf s =
    leaves (send_p2p_msg idx sender buf s) (send_p2p_private idx sender buf s)
  where
    leaves : (r : Option Server) → AnswerOf idx sender buf s r → Leaves s r
    leaves none h = tt
    leaves (some s') (inl d) = ap (λ x. x.users) d.sent
    leaves (some s') (inr (answer, why, e)) = ap (λ x. x.users) e
