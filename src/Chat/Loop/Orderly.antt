-- ===== src/Chat/Loop/Orderly.antt =====
-- Any rounds of `main` of `Project 2 - Server/server.c` on inputs that overflow no array.
use operating_systems.Common.{
  ℕ, zero, suc, ◌+◌, ◌≤◌, ◌≡◌, refl, ◌∙◌, ap, true, Option, none, some, List, [], ◌∷◌, ltb,
  get_elem?, length, arith, All, append_assoc, Option-cases, inl, inr,
}
use operating_systems.CText.{Bytes}
use operating_systems.Numbers.{ℤ, pos, negsuc}
use operating_systems.Chat.Users.{User, find_empty_slot, find_user_index, add_user}
use operating_systems.Chat.Users.Lookup.{SlotStatus-cases, new_user}
use operating_systems.Chat.Server.{Os, called, close}
use operating_systems.Chat.Connect.{
  overwrite, c_string, Main, Connection, Inputs, Outcome, and_then, cleared, parent_connected,
  forked_as, connected, admit, connect, next, again, exited, child, crashed,
}
use operating_systems.Chat.Loop.{
  admin_round, user_text, poll_user, poll_slot, poll_from, round_as, round, rounds, init_main,
}
use operating_systems.Chat.Loop.Buffer.{c_string_text}
use operating_systems.Chat.Loop.Polite.{get_command_type-IsPolite, set-HasShortIds}
use operating_systems.Chat.Loop.Survives.{
  IsSteady, Survives, IsSent, silent, message, HasShortId, no_one, connects, IsOrderly,
  and_then-Survives, c_string-read, nonempty, admin_round-Survives,
}
use operating_systems.Chat.Loop.UserCommands.{user_command-Survives}

poll_user-Survives :
    (os : Os) (i : ℕ) (u : User) (b : Option Bytes) (m : Main)
    → IsSteady m
    → get_elem? m.server.users i ≡ some u
    → IsSent b
    → Survives (poll_user os i u b m)
unfolding poll_user user_text
poll_user-Survives os i u none m st at silent = st
poll_user-Survives os i u (some _) m st at (message t p) =
    let (c, e) = get_command_type-IsPolite t p in
    rw
      (
        c_string-read t m.buf st.buffer p.no_nul (nonempty t p) (omega (arith, p.fits)),
        e,
        poll_user,
        user_text,
      )
      (user_command-Survives os i u c t (record m { buf = overwrite t m.buf }) st.ids at p)

poll_slot-Survives :
    (os : Os) (i : ℕ) (o : Option User) (b : Option Bytes) (m : Main)
    → IsSteady m
    → get_elem? m.server.users i ≡ o
    → IsSent b
    → Survives (poll_slot os i o b m)
unfolding poll_slot
poll_slot-Survives os i none b m st at h = st
poll_slot-Survives os i (some u) b m st at h = elim (SlotStatus-cases u.m_status) [
  | inl f ↦ rw (f, poll_slot) (poll_user-Survives os i u b m st at h)
  | inr f ↦ rw (f, poll_slot) st
]

poll_from-Survives :
    (os : Os) (from_user : ℕ → Option Bytes) (n i : ℕ) (m : Main)
    → IsSteady m
    → ((j : ℕ) → IsSent (from_user j))
    → Survives (poll_from os from_user n i m)
unfolding poll_from
poll_from-Survives os from_user zero i m st h = st
poll_from-Survives os from_user (suc n) i m st h =
    and_then-Survives (poll_slot os i (get_elem? m.server.users i) (from_user i) m)
      (poll_from os from_user n (i + 1))
      (poll_slot-Survives os i (get_elem? m.server.users i) (from_user i) m st refl (h i))
      (λ m' st'. poll_from-Survives os from_user n (i + 1) m' st' h)

forked-Survives : (z : ℤ) (o : Outcome) → Survives o → Survives (forked_as z o)
unfolding forked_as
forked-Survives (pos zero) o h = tt
forked-Survives (pos (suc n)) o h = h
forked-Survives (negsuc n) o h = h

parent_connected-Survives :
    (m : Main) (id : Bytes) (c : Connection) (i : ℕ)
    → IsSteady m
    → length id ≤ 22
    → Survives (parent_connected m id c i)
unfolding parent_connected add_user
parent_connected-Survives m id c i st short =
    rw (fits, parent_connected, add_user)
      (record { ids = set-HasShortIds m.server.users i user st.ids short; buffer = inl refl })
  where
    open c use {forked, server_writing, server_reading}

    fits : ltb (length id) 32 ≡ true
    fits = ground (arith, short)

    user : User
    user = new_user forked id server_writing.write_end server_reading.read_end

connected-Survives :
    (m : Main) (id : Bytes) (c : Connection) (i : ℕ)
    → IsSteady m
    → length id ≤ 22
    → Survives (connected m id c i)
unfolding connected
connected-Survives m id c i st short =
    forked-Survives c.forked (parent_connected m id c i)
      (parent_connected-Survives m id c i st short)

admit-Survives :
    (m : Main) (c : Connection) (id : Bytes)
    → IsSteady m
    → c_string m.user_id ≡ some id
    → length id ≤ 22
    → Survives (admit m c)
unfolding admit
admit-Survives m c id st e short = elim (Option-cases (find_empty_slot m.server.users)) [
  | inl f ↦ rw (f, admit) (record { ids = st.ids; buffer = st.buffer })
  | inr (i, f) ↦ elim (Option-cases (find_user_index m.server.users id)) [
    | inl g ↦ rw (f, e, g, admit) (connected-Survives m id c i st short)
    | inr (other, g) ↦ rw (f, e, g, admit) (record { ids = st.ids; buffer = st.buffer })
  ]
]

connect-Survives :
    (o : Option Connection) (m : Main) → IsSteady m → HasShortId o → Survives (connect o m)
unfolding connect
connect-Survives none m st no_one = st
connect-Survives (some _) m st (connects c id rest e nul short) =
    admit-Survives
      (record m {
        server =
            called (close c.child_writing.read_end)
              (called (close c.child_reading.write_end) m.server);
        user_id = overwrite c.id_bytes m.user_id;
      })
      c id (record { ids = st.ids; buffer = st.buffer })
      (ap c_string (ap (λ b. overwrite b m.user_id) e ∙ append_assoc id (0 ∷ rest) _)
        ∙ c_string_text id _ nul)
      short

round-Survives :
    (os : Os) (inputs : Inputs) (m : Main)
    → IsSteady m
    → IsOrderly inputs
    → Survives (round os inputs m)
unfolding round round_as
round-Survives os inputs m st h =
    as_process m.childpid (and_then (connect inputs.connection m) served) (
      and_then-Survives (connect inputs.connection m) served
        (connect-Survives inputs.connection m st h.connection_short) served-Survives)
  where
    served : Main → Outcome
    served m' = and_then (admin_round os inputs.admin m') (poll_from os inputs.from_user 10 0)

    served-Survives : (m' : Main) → IsSteady m' → Survives (served m')
    served-Survives m' st' =
        and_then-Survives (admin_round os inputs.admin m') (poll_from os inputs.from_user 10 0)
          (admin_round-Survives os inputs.admin m' st' h.admin_typed)
          (λ m'' st''. poll_from-Survives os inputs.from_user 10 0 m'' st'' h.users_sent)

    as_process : (z : ℤ) (o : Outcome) → Survives o → Survives (round_as z o m)
    as_process (pos zero) o k = tt
    as_process (pos (suc n)) o k = k
    as_process (negsuc n) o k = st

steady-rounds :
    (os : Os) (inputs : List Inputs) (m : Main)
    → IsSteady m
    → All IsOrderly inputs
    → Survives (rounds os inputs m)
unfolding rounds
steady-rounds os [] m st h = st
steady-rounds os (i ∷ rest) m st h =
    onward (round os i m) (round-Survives os i m st h.0)
      (λ m' st'. steady-rounds os rest m' st' h.1)
  where
    onward :
        (o : Outcome)
        → Survives o
        → ((m' : Main) → IsSteady m' → Survives (rounds os rest m'))
        → Survives (elim o [
          | next m' ↦ rounds os rest m'
          | again m' ↦ rounds os rest m'
          | exited m' ↦ exited m'
          | child ↦ child
          | crashed ↦ crashed
        ])
    onward (next m') k go = go m' k
    onward (again m') k go = go m' k
    onward (exited m') k go = k
    onward child k go = tt
    onward crashed k go = k

-- From the start of `main` with a cleared buffer, the server process does not crash in any number of
-- rounds and with any failures of the system, if no `read` of its terminal or of a user's pipe meets
-- the end of the file, every `read` of the terminal that does not fail gives one whole line with its
-- newline, every id that connects has at most 22 bytes, and every line of the administrator that is not
-- just a newline and every message of a user has no NUL, at most 232 bytes, one to 15 words, and a
-- second word of less than 32 bytes. It keeps 10 slots with ids of at most 22 bytes.
pub rounds-Survives :
    (os : Os) (inputs : List Inputs) (user_id : Bytes)
    → All IsOrderly inputs
    → Survives (rounds os inputs (init_main cleared user_id))
rounds-Survives os inputs user_id h = steady-rounds os inputs (init_main cleared user_id) begun h
  where
    begun : IsSteady (init_main cleared user_id)
    begun = record { ids = record { ten = refl; short = omega arith }; buffer = inl refl }
