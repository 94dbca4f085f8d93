-- ===== src/Chat/Loop/Keeps.antt =====
-- What a round of `main` of `Project 2 - Server/server.c` keeps of the user list, and that a
-- connection keeps it.
use operating_systems.Common.{
  ℕ, zero, suc, ◌+◌, ◌<◌, ◌≡◌, ◌∙◌, sym, Option, none, some, List, [], ◌∷◌, length, Option-cases,
  inl, inr, arith,
}
use operating_systems.CText.{Bytes}
use operating_systems.Numbers.{ℤ, pos, negsuc}
use operating_systems.Chat.Users.{User, empty_from, find_empty_slot, add_user, find_user_index}
use operating_systems.Chat.Users.Lookup.{SlotStatus-cases, empty_full, empty_empty}
use operating_systems.Chat.Users.Valid.{IsValid, add_user-IsValid}
use operating_systems.Chat.Server.{close, called}
use operating_systems.Chat.Connect.{
  Main, Connection, Outcome, next, again, exited, child, crashed, and_then, overwrite, c_string,
  connected, parent_connected, forked_as, admit, connect,
}

abbrev pub MainValid : Main → Type 0
MainValid m = IsValid m.server.users

-- The server process goes on, or ends, with a well-formed list.
abbrev pub Keeps : Outcome → Type 0
Keeps (next m) = MainValid m
Keeps (again m) = MainValid m
Keeps (exited m) = MainValid m
Keeps child = Unit
Keeps crashed = Unit

pub and_then-Keeps :
    (o : Outcome) (f : Main → Outcome)
    → Keeps o
    → ((m : Main) → MainValid m → Keeps (f m))
    → Keeps (and_then o f)
and_then-Keeps (next m) f h k = k m h
and_then-Keeps (again m) f h k = h
and_then-Keeps (exited m) f h k = h
and_then-Keeps child f h k = tt
and_then-Keeps crashed f h k = tt

empty_from_lt : (us : List User) (i k : ℕ) → empty_from us i ≡ some k → k < i + length us
unfolding empty_from
empty_from_lt [] i k e = absurd (cc)
empty_from_lt (x ∷ us) i k e = elim (SlotStatus-cases x.m_status) [
  | inl f ↦ omega (arith, empty_from_lt us (i + 1) k (sym (empty_full x us i f) ∙ e))
  | inr f ↦ omega (arith, inj (sym (empty_empty x us i f) ∙ e))
]
  where
    inj : some i ≡ some k → i ≡ k
    inj e' = cc

find_empty_slot_lt : (us : List User) (k : ℕ) → find_empty_slot us ≡ some k → k < length us
unfolding find_empty_slot
find_empty_slot_lt us k e = omega (arith, empty_from_lt us 0 k e)

forked_Keeps : (z : ℤ) (o : Outcome) → Keeps o → Keeps (forked_as z o)
unfolding forked_as
forked_Keeps (pos zero) o h = tt
forked_Keeps (pos (suc n)) o h = h
forked_Keeps (negsuc n) o h = h

connected-Keeps :
    (m : Main) (id : Bytes) (c : Connection) (idx : ℕ)
    → MainValid m
    → idx < length m.server.users
    → find_user_index m.server.users id ≡ none
    → Keeps (connected m id c idx)
unfolding connected
connected-Keeps m id c idx valid below free =
    forked_Keeps c.forked (parent_connected m id c idx) (parent_Keeps)
  where
    parent_Keeps : Keeps (parent_connected m id c idx)
    parent_Keeps =
        elim (Option-cases (
          add_user idx m.server.users c.forked id c.server_writing.write_end
            c.server_reading.read_end)) [
              | inl e ↦ rw (e, parent_connected) tt
              | inr (added, e) ↦
                  rw (e, parent_connected)
                    (add_user-IsValid m.server.users added idx c.forked id
                      c.server_writing.write_end c.server_reading.read_end valid below free e)
            ]

admit-Keeps : (m : Main) (c : Connection) → MainValid m → Keeps (admit m c)
unfolding admit
admit-Keeps m c valid = elim (Option-cases (find_empty_slot m.server.users)) [
  | inl e ↦ rw (e, admit) valid
  | inr (idx, e) ↦ elim (Option-cases (c_string m.user_id)) [
    | inl f ↦ rw (e, f, admit) tt
    | inr (id, f) ↦ elim (Option-cases (find_user_index m.server.users id)) [
      | inl g ↦
          rw (e, f, g, admit)
            (connected-Keeps m id c idx valid (find_empty_slot_lt m.server.users idx e) g)
      | inr (other, g) ↦ rw (e, f, g, admit) valid
    ]
  ]
]

pub connect-Keeps : (c : Option Connection) (m : Main) → MainValid m → Keeps (connect c m)
unfolding connect
connect-Keeps none m valid = valid
connect-Keeps (some c) m valid =
    admit-Keeps
      (record m {
        server =
            called (close c.child_writing.read_end)
              (called (close c.child_reading.write_end) m.server);
        user_id = overwrite c.id_bytes m.user_id;
      })
      c valid
