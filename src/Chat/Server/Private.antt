-- ===== src/Chat/Server/Private.antt =====
-- Where `send_p2p_msg` of `Project 2 - Server/server.c` writes.
use operating_systems.Common.{
  ◌⊎◌, ℕ, suc, ◌+◌, ◌≤◌, ◌≡◌, ◌≢◌, refl, ◌∙◌, sym, ap, subst, true, false, Option, none, some, List,
  [], ◌∷◌, ◌++◌, ltb, ◌==◌, length, get_elem?, Bool-cases, Option-cases, inl, inr, arith,
}
use operating_systems.CText.{Bytes, str_eq, str_eq_sound}
use operating_systems.Chat.Users.{slot_full, User, user_from, find_user_index}
use operating_systems.Chat.Users.Lookup.{SlotStatus-cases, user_full, user_empty}
use operating_systems.Chat.Command.{
  Extracted, extracted, missing, overrun, extract_name, extract_text,
}
use operating_systems.Chat.Server.{
  write, Server, called, relay_p2p, send_p2p_msg, name_not_given, not_found, to_yourself,
  no_message,
}

-- A user that the loop of `find_user_index` finds stands in the slot and has the id.
found_from :
    (us : List User) (id : Bytes) (k m : ℕ)
    → user_from us id k ≡ some m
    → (j : ℕ) × (w : User) × (m ≡ k + j)
      × (get_elem? us j ≡ some w)
      × (w.m_status ≡ slot_full)
      × (w.m_user_id ≡ id)
unfolding user_from
found_from [] id k m e = absurd (cc)
found_from (x ∷ us) id k m e = elim (SlotStatus-cases x.m_status) [
  | inl f ↦ elim (Bool-cases (str_eq x.m_user_id id)) [
    | inl b ↦ (
      0,
      x,
      omega (arith, same_index (sym (user_full x us id k f ∙ rw b refl) ∙ e)),
      refl,
      f,
      str_eq_sound x.m_user_id id b,
    )
    | inr b ↦ later (found_from us id (k + 1) m (sym (user_full x us id k f ∙ rw b refl) ∙ e))
  ]
  | inr f ↦ later (found_from us id (k + 1) m (sym (user_empty x us id k f) ∙ e))
]
  where
    same_index : some k ≡ some m → k ≡ m
    same_index e' = cc

    later :
        (j : ℕ) × (w : User) × (m ≡ k + 1 + j)
          × (get_elem? us j ≡ some w)
          × (w.m_status ≡ slot_full)
          × (w.m_user_id ≡ id)
        → (j : ℕ) × (w : User) × (m ≡ k + j)
          × (get_elem? (x ∷ us) j ≡ some w)
          × (w.m_status ≡ slot_full)
          × (w.m_user_id ≡ id)
    later (j, w, a, b, c, d) = (suc j, w, omega (arith, a), b, c, d)

pub find_user_index_sound :
    (us : List User) (id : Bytes) (m : ℕ)
    → find_user_index us id ≡ some m
    → (w : User) × (get_elem? us m ≡ some w) × (w.m_status ≡ slot_full) × (w.m_user_id ≡ id)
unfolding find_user_index
find_user_index_sound us id m e = shift (found_from us id 0 m e)
  where
    shift :
        (j : ℕ) × (w : User) × (m ≡ 0 + j)
          × (get_elem? us j ≡ some w)
          × (w.m_status ≡ slot_full)
          × (w.m_user_id ≡ id)
        → (w : User) × (get_elem? us m ≡ some w) × (w.m_status ≡ slot_full) × (w.m_user_id ≡ id)
    shift (j, w, a, b, c, d) = (w, subst (λ k. get_elem? us k ≡ some w) (omega (arith, a)) b, c, d)

-- One of the answers to the sender, which says why the message was not sent.
pub data Refusal (idx : ℕ) (buf : Bytes) (s : Server) : Bytes → Type 0 where
  nameless : extract_name buf ≡ missing → Refusal idx buf s name_not_given
  unknown :
      (name : Bytes)
      → extract_name buf ≡ extracted name
      → find_user_index s.users name ≡ none
      → Refusal idx buf s not_found
  self :
      (name : Bytes)
      → extract_name buf ≡ extracted name
      → find_user_index s.users name ≡ some idx
      → Refusal idx buf s to_yourself
  wordless :
      (name : Bytes)
      → extract_name buf ≡ extracted name
      → extract_text buf ≡ missing
      → Refusal idx buf s no_message

-- The message goes to the user of another slot who has the name.
pub record Delivery (idx : ℕ) (sender : User) (buf : Bytes) (s s' : Server) : Type 0 where
  pub index : ℕ
  pub receiver : User
  pub message : Bytes
  pub other : index ≢ idx
  pub slot : get_elem? s.users index ≡ some receiver
  pub full : receiver.m_status ≡ slot_full
  pub name : extract_name buf ≡ extracted receiver.m_user_id
  pub text : extract_text buf ≡ extracted message
  pub sent : s' ≡ called (write receiver.m_fd_to_user (sender.m_user_id ++ 58 ∷ message)) s

-- What `send_p2p_msg` may return; `none` is a write past an array.
abbrev pub AnswerOf : ℕ → User → Bytes → Server → Option Server → Type 0
AnswerOf idx sender buf s none =
    (extract_name buf ≡ overrun)
    ⊎ ((extract_text buf ≡ overrun)
        ⊎ ((message : Bytes) × (extract_text buf ≡ extracted message)
            × (256 ≤ length (sender.m_user_id ++ 58 ∷ message))))
AnswerOf idx sender buf s (some s') =
    Delivery idx sender buf s s'
    ⊎ ((answer : Bytes) × Refusal idx buf s answer
        × (s' ≡ called (write sender.m_fd_to_user answer) s))

Extracted-cases :
    (x : Extracted) → (x ≡ overrun) ⊎ ((x ≡ missing) ⊎ ((t : Bytes) × (x ≡ extracted t)))
Extracted-cases overrun = inl refl
Extracted-cases missing = inr (inl refl)
Extracted-cases (extracted t) = inr (inr (t, refl))

-- `send_p2p_msg` makes one `write`: the message, after the sender's id and a colon, to a full slot
-- other than the sender's whose id is the name in the command; or an answer to the sender that says
-- why not, which is so. It makes none only if an array is too short: for the words of the command,
-- for the name, or for the line.
pub send_p2p_private :
    (idx : ℕ) (sender : User) (buf : Bytes) (s : Server)
    → AnswerOf idx sender buf s (send_p2p_msg idx sender buf s)
unfolding send_p2p_msg relay_p2p
send_p2p_private idx sender buf s = elim (Extracted-cases (extract_name buf)) [
  | inl e ↦ rw (e, send_p2p_msg) (inl e)
  | inr (inl e) ↦ rw (e, send_p2p_msg) (inr (name_not_given, nameless e, refl))
  | inr (inr (name, e)) ↦ elim (Option-cases (find_user_index s.users name)) [
    | inl f ↦ rw (e, f, send_p2p_msg) (inr (not_found, unknown name e f, refl))
    | inr (index, f) ↦ elim (Bool-cases (index == idx)) [
      | inl g ↦
          rw (e, f, g, send_p2p_msg)
            (inr (to_yourself, self name e (f ∙ ap some (eq_of index idx g)), refl))
      | inr g ↦ elim (Extracted-cases (extract_text buf)) [
        | inl h ↦ rw (e, f, g, h, send_p2p_msg) (inr (inl h))
        | inr (inl h) ↦ rw (e, f, g, h, send_p2p_msg) (inr (no_message, wordless name e h, refl))
        | inr (inr (message, h)) ↦
            to_receiver name index message e f (ne_of index idx g) h g
              (find_user_index_sound s.users name index f)
      ]
    ]
  ]
]
  where
    eq_of : (a b : ℕ) → (a == b) ≡ true → a ≡ b
    eq_of a b h = ground arith

    ne_of : (a b : ℕ) → (a == b) ≡ false → a ≢ b
    ne_of a b h = ground arith

    too_long :
        (message : Bytes)
        → ltb (length (sender.m_user_id ++ 58 ∷ message)) 256 ≡ false
        → 256 ≤ length (sender.m_user_id ++ 58 ∷ message)
    too_long message h = ground arith

    to_receiver :
        (name : Bytes) (index : ℕ) (message : Bytes)
        → extract_name buf ≡ extracted name
        → find_user_index s.users name ≡ some index
        → index ≢ idx
        → extract_text buf ≡ extracted message
        → (index == idx) ≡ false
        → (w : User) × (get_elem? s.users index ≡ some w)
          × (w.m_status ≡ slot_full)
          × (w.m_user_id ≡ name)
        → AnswerOf idx sender buf s (send_p2p_msg idx sender buf s)
    to_receiver name index message e f ne h g (w, at_index, full, same) =
        elim (Bool-cases (ltb (length (sender.m_user_id ++ 58 ∷ message)) 256)) [
          | inl short ↦
              rw (e, f, g, h, at_index, send_p2p_msg)
                (rw (short, relay_p2p)
                  (inl (record {
                    index = index;
                    receiver = w;
                    message = message;
                    other = ne;
                    slot = at_index;
                    full = full;
                    name = e ∙ ap extracted (sym same);
                    text = h;
                    sent = refl;
                  })))
          | inr long ↦
              rw (e, f, g, h, at_index, send_p2p_msg)
                (rw (long, relay_p2p) (inr (inr (message, h, too_long message long))))
        ]
