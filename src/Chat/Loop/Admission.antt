-- ===== src/Chat/Loop/Admission.antt =====
-- A new user in `main` of `Project 2 - Server/server.c`.
use operating_systems.Common.{
  ℕ, suc, ◌<◌, ◌≡◌, refl, ◌∙◌, ap, none, some, List, ◌∷◌, ◌++◌, length, set, drop, arith,
  append_assoc,
}
use operating_systems.CText.{Bytes}
use operating_systems.Numbers.{ℤ, pos}
use operating_systems.Chat.Users.{User, find_empty_slot, find_user_index, add_user}
use operating_systems.Chat.Users.Lookup.{new_user, find_user_index-add_user}
use operating_systems.Chat.Server.{called, close}
use operating_systems.Chat.Connect.{
  Main, Connection, Outcome, next, overwrite, c_string, parent_connected, forked_as, connected,
  admit, connect,
}
use operating_systems.Chat.Loop.Buffer.{NoNul, c_string_text}

c_string-overwrite :
    (id rest buf : Bytes) → NoNul id → c_string (overwrite (id ++ 0 ∷ rest) buf) ≡ some id
c_string-overwrite id rest buf h =
    ap c_string (append_assoc id (0 ∷ rest) (drop (length (id ++ 0 ∷ rest)) buf))
    ∙ c_string_text id (rest ++ drop (length (id ++ 0 ∷ rest)) buf) h

forked_parent : (z : ℤ) (pid : ℕ) (o : Outcome) → z ≡ pos (suc pid) → forked_as z o ≡ o
unfolding forked_as
forked_parent z pid o e = rw e refl

add_user_short :
    (idx : ℕ) (us : List User) (pid : ℤ) (id : Bytes) (to_child to_parent : ℤ)
    → length id < 32
    → add_user idx us pid id to_child to_parent
      ≡ some (set us idx (new_user pid id to_child to_parent))
unfolding add_user
add_user_short idx us pid id to_child to_parent h = ground arith

-- The list after the parent's branch, and what it finds.
pub record Joins (c : Connection) (id : Bytes) (idx : ℕ) (us : List User) (o : Outcome)
    : Type 0 where
  pub state : Main
  pub goes_on : o ≡ next state
  pub listed :
      state.server.users
      ≡ set us idx (new_user c.forked id c.server_writing.write_end c.server_reading.read_end)
  pub found : find_user_index state.server.users id ≡ some idx

parent_connected-Joins :
    (m : Main) (c : Connection) (id : Bytes) (idx pid : ℕ)
    → find_empty_slot m.server.users ≡ some idx
    → find_user_index m.server.users id ≡ none
    → length id < 32
    → c.forked ≡ pos (suc pid)
    → Joins c id idx m.server.users (connected m id c idx)
unfolding connected parent_connected
parent_connected-Joins m c id idx pid e f short forked =
    rw (forked_parent c.forked pid (parent_connected m id c idx) forked) rw
      (added, parent_connected)
      (record {
        state = _;
        goes_on = refl;
        listed = refl;
        found =
            (find_user_index-add_user m.server.users _ idx c.forked id c.server_writing.write_end
              c.server_reading.read_end e f added).0;
      })
  where
    added :
        add_user idx m.server.users c.forked id c.server_writing.write_end c.server_reading.read_end
        ≡ some (
            set m.server.users idx
              (new_user c.forked id c.server_writing.write_end c.server_reading.read_end))
    added =
        add_user_short idx m.server.users c.forked id c.server_writing.write_end
          c.server_reading.read_end short

-- A connection with an id that fits its array and is not in use, on a list with an empty slot, and
-- whose `fork` succeeds: the server goes on with the user in the first empty slot, all other slots as
-- they were, and finds the id there.
pub connect-Joins :
    (m : Main) (c : Connection) (id rest : Bytes) (idx pid : ℕ)
    → c.id_bytes ≡ id ++ 0 ∷ rest
    → NoNul id
    → length id < 32
    → find_empty_slot m.server.users ≡ some idx
    → find_user_index m.server.users id ≡ none
    → c.forked ≡ pos (suc pid)
    → Joins c id idx m.server.users (connect (some c) m)
unfolding connect admit
connect-Joins m c id rest idx pid bytes h short e f forked =
    rw (e, read, f, admit)
      (parent_connected-Joins
        (record m {
          server =
              called (close c.child_writing.read_end)
                (called (close c.child_reading.write_end) m.server);
          user_id = overwrite c.id_bytes m.user_id;
        })
        c id idx pid e f short forked)
  where
    read : c_string (overwrite c.id_bytes m.user_id) ≡ some id
    read = ap (λ b. c_string (overwrite b m.user_id)) bytes ∙ c_string-overwrite id rest m.user_id h
