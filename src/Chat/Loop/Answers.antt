-- ===== src/Chat/Loop/Answers.antt =====
-- `list_users` and `send_p2p_msg` of `Project 2 - Server/server.c` with short ids and messages.
use operating_systems.Common.{
  ℕ, zero, suc, ◌+◌, ◌*◌, ◌≤◌, ◌<◌, ◌≡◌, refl, ◌∙◌, sym, true, Option, none, some, List, [], ◌∷◌,
  ◌++◌, ltb, leb, ◌==◌, get_elem?, take, ◌-◌, length, length-append, arith, All, Bool-cases,
  Option-cases, inl, inr, ◌⊎◌,
}
use operating_systems.CText.{Bytes, codes, str_eq}
use operating_systems.Chat.Users.{User, user_from, find_user_index}
use operating_systems.Chat.Users.Lookup.{SlotStatus-cases, user_empty, user_full}
use operating_systems.Chat.Command.{
  Extracted, extracted, missing, overrun, extract_name, extract_text,
}
use operating_systems.Chat.Server.{
  Call, Server, called, list_from, list_header, list_text, list_users, relay_p2p, send_p2p_msg,
  name_not_given, not_found, to_yourself, no_message,
}
use operating_systems.Chat.Loop.Polite.{
  HasShortIds, IsPolite, Stays, extract_name-Stays, extract_text-Stays,
}

list_from_fits :
    (us : List User) (t : Bytes)
    → All (λ u. length u.m_user_id ≤ 22) us
    → length t + 23 * length us ≤ 256
    → (t' : Bytes) × (list_from us t ≡ some t')
unfolding list_from
list_from_fits [] t short h = (t, refl)
list_from_fits (u ∷ us) t short h = elim (SlotStatus-cases u.m_status) [
  | inr f ↦
      let (t', e) = list_from_fits us t short.1 (omega (arith, h)) in (t', rw (f, list_from) e)
  | inl f ↦
      let longer : length (t ++ u.m_user_id ++ 10 ∷ []) ≡ length t + length u.m_user_id + 1 =
        omega (
          arith,
          length-append t (u.m_user_id ++ 10 ∷ []),
          length-append u.m_user_id (10 ∷ []),
          length-append (t ++ u.m_user_id) (10 ∷ []),
          length-append t u.m_user_id,
        ) in
      let (t', e) =
        list_from_fits us (t ++ u.m_user_id ++ 10 ∷ []) short.1
          (omega (arith, h, longer, short.0)) in
      let fits : leb (length (t ++ u.m_user_id ++ 10 ∷ [])) 256 ≡ true =
        ground (arith, longer, short.0, h) in
      (t', rw (f, fits, list_from) e)
]

list_text_fits : (us : List User) → HasShortIds us → (t : Bytes) × (list_text us ≡ some t)
unfolding list_text
list_text_fits us h =
    let (t, e) = list_from_fits us list_header h.short (omega (arith, h.ten)) in
    elim (Bool-cases (length t == length list_header)) [
      | inl b ↦ (codes "<no users>\n", rw (e, b, list_text) refl)
      | inr b ↦ (take (length t - 1) t, rw (e, b, list_text) refl)
    ]

-- A result with the same users.
abbrev pub Answers : Server → Option Server → Type 0
Answers s o = (s' : Server) × (o ≡ some s') × (s'.users ≡ s.users)

pub list_users_all : (s : Server) → HasShortIds s.users → Answers s (list_users none s)
unfolding list_users
list_users_all s h =
    let (t, e) = list_text_fits s.users h in
    (called (Call.print (codes "\n")) (called (Call.print t) s), rw (e, list_users) refl, refl)

pub list_users_slot :
    (s : Server) (i : ℕ) (u : User)
    → HasShortIds s.users
    → get_elem? s.users i ≡ some u
    → Answers s (list_users (some i) s)
unfolding list_users
list_users_slot s i u h at =
    let (t, e) = list_text_fits s.users h in
    (called (Call.write u.m_fd_to_user (t ++ 0 ∷ [])) s, rw (e, at, list_users) refl, refl)

user_from_lt :
    (us : List User) (name : Bytes) (i k : ℕ) → user_from us name i ≡ some k → k < i + length us
unfolding user_from
user_from_lt [] name i k e = absurd (cc)
user_from_lt (x ∷ us) name i k e = elim (SlotStatus-cases x.m_status) [
  | inr f ↦ omega (arith, user_from_lt us name (i + 1) k (sym (user_empty x us name i f) ∙ e))
  | inl f ↦ elim (Bool-cases (str_eq x.m_user_id name)) [
    | inl b ↦ omega (arith, inj (sym (user_full x us name i f ∙ rw b refl) ∙ e))
    | inr b ↦
        omega
          (arith, user_from_lt us name (i + 1) k (sym (user_full x us name i f ∙ rw b refl) ∙ e))
  ]
]
  where
    inj : some i ≡ some k → i ≡ k
    inj e' = cc

entry : (us : List User) (k : ℕ) → k < length us → (u : User) × (get_elem? us k ≡ some u)
entry [] k h = absurd (omega (arith, h))
entry (u ∷ us) zero h = (u, refl)
entry (u ∷ us) (suc k) h = entry us k (omega (arith, h))

relay_p2p_fits :
    (message : Bytes) (sender receiver : User) (s : Server)
    → length sender.m_user_id ≤ 22
    → length message ≤ 232
    → Answers s (relay_p2p message sender receiver s)
unfolding relay_p2p
relay_p2p_fits message sender receiver s h k = (
  called (Call.write receiver.m_fd_to_user (sender.m_user_id ++ 58 ∷ message)) s,
  rw (fits, relay_p2p) refl,
  refl,
)
  where
    fits : ltb (length (sender.m_user_id ++ 58 ∷ message)) 256 ≡ true
    fits = ground (arith, length-append sender.m_user_id (58 ∷ message), h, k)

extracted-cases :
    (P : Bytes → Type 0) (x : Extracted)
    → Stays P x
    → (x ≡ missing) ⊎ ((s : Bytes) × (x ≡ extracted s) × P s)
extracted-cases P (extracted s) h = inr (s, refl, h)
extracted-cases P missing h = inl refl
extracted-cases P overrun h = elim h [ ]

-- A message of a user with a short id is answered or passed on.
pub send_p2p_msg-Answers :
    (i : ℕ) (sender : User) (t : Bytes) (s : Server)
    → length sender.m_user_id ≤ 22
    → IsPolite t
    → Answers s (send_p2p_msg i sender t s)
unfolding send_p2p_msg find_user_index
send_p2p_msg-Answers i sender t s short h =
    elim (extracted-cases (λ s. Unit) (extract_name t) (extract_name-Stays t h)) [
      | inl e ↦ (
        called (Call.write sender.m_fd_to_user name_not_given) s,
        rw (e, send_p2p_msg) refl,
        refl,
      )
      | inr (name, e, _) ↦ elim (Option-cases (find_user_index s.users name)) [
        | inl f ↦ (
          called (Call.write sender.m_fd_to_user not_found) s,
          rw (e, f, send_p2p_msg) refl,
          refl,
        )
        | inr (k, f) ↦ elim (Bool-cases (k == i)) [
          | inl b ↦ (
            called (Call.write sender.m_fd_to_user to_yourself) s,
            rw (e, f, b, send_p2p_msg) refl,
            refl,
          )
          | inr b ↦
              elim (extracted-cases (λ s. length s ≤ length t) (extract_text t)
                (extract_text-Stays t h)) [
                  | inl g ↦ (
                    called (Call.write sender.m_fd_to_user no_message) s,
                    rw (e, f, b, g, send_p2p_msg) refl,
                    refl,
                  )
                  | inr (message, g, le) ↦
                      let (u, at) =
                        entry s.users k (omega (arith, user_from_lt s.users name 0 k f)) in
                      rw (e, f, b, g, at, send_p2p_msg)
                        (relay_p2p_fits message sender u s short (omega (arith, le, h.fits)))
                ]
        ]
      ]
    ]
