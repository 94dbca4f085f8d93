-- ===== src/Chat/Loop/Valid.antt =====
-- The loop of `main` of `Project 2 - Server/server.c` keeps its user list well formed.
use operating_systems.Common.{
  ℕ, zero, suc, ◌+◌, Option, none, some, List, [], ◌∷◌, get_elem?, inl, inr,
}
use operating_systems.CText.{Bytes}
use operating_systems.Numbers.{ℤ, pos, negsuc}
use operating_systems.Chat.Users.{User}
use operating_systems.Chat.Users.Lookup.{SlotStatus-cases}
use operating_systems.Chat.Users.Valid.{init_user_list-IsValid}
use operating_systems.Chat.Command.{get_command_type}
use operating_systems.Chat.Server.{Os}
use operating_systems.Chat.Connect.{
  Main, Inputs, Outcome, next, again, exited, child, crashed, and_then, overwrite, c_string,
  connect,
}
use operating_systems.Chat.Loop.{
  round_as, admin_round, user_text, poll_user, poll_slot, poll_from, round, rounds, init_main,
}
use operating_systems.Chat.Loop.Keeps.{MainValid, Keeps, and_then-Keeps, connect-Keeps}
use operating_systems.Chat.Loop.Commands.{admin_round-Keeps, user_command-Keeps}

user_text-Keeps :
    (os : Os) (i : ℕ) (u : User) (text : Option Bytes) (m : Main)
    → MainValid m
    → Keeps (user_text os i u text m)
unfolding user_text
user_text-Keeps os i u none m valid = tt
user_text-Keeps os i u (some text) m valid =
    user_command-Keeps os i u (get_command_type text) text m valid

poll_slot-Keeps :
    (os : Os) (i : ℕ) (u : Option User) (bytes : Option Bytes) (m : Main)
    → MainValid m
    → Keeps (poll_slot os i u bytes m)
unfolding poll_slot poll_user
poll_slot-Keeps os i none bytes m valid = valid
poll_slot-Keeps os i (some u) bytes m valid = elim (SlotStatus-cases u.m_status) [
  | inl e ↦ rw (e, poll_slot) (polled bytes)
  | inr e ↦ rw (e, poll_slot) valid
]
  where
    polled : (b : Option Bytes) → Keeps (poll_user os i u b m)
    polled none = valid
    polled (some b) =
        user_text-Keeps os i u (c_string (overwrite b m.buf)) (record m { buf = overwrite b m.buf })
          valid

poll_from-Keeps :
    (os : Os) (from_user : ℕ → Option Bytes) (n i : ℕ) (m : Main)
    → MainValid m
    → Keeps (poll_from os from_user n i m)
unfolding poll_from
poll_from-Keeps os from_user zero i m valid = valid
poll_from-Keeps os from_user (suc n) i m valid =
    and_then-Keeps (poll_slot os i (get_elem? m.server.users i) (from_user i) m)
      (poll_from os from_user n (i + 1))
      (poll_slot-Keeps os i (get_elem? m.server.users i) (from_user i) m valid)
      (λ m' valid'. poll_from-Keeps os from_user n (i + 1) m' valid')

round-Keeps : (os : Os) (inputs : Inputs) (m : Main) → MainValid m → Keeps (round os inputs m)
unfolding round round_as
round-Keeps os inputs m valid =
    round_as_Keeps m.childpid (and_then (connect inputs.connection m) (served)) (
      and_then-Keeps (connect inputs.connection m) served (connect-Keeps inputs.connection m valid)
        served_Keeps)
  where
    served : Main → Outcome
    served m' = and_then (admin_round os inputs.admin m') (poll_from os inputs.from_user 10 0)

    served_Keeps : (m' : Main) → MainValid m' → Keeps (served m')
    served_Keeps m' valid' =
        and_then-Keeps (admin_round os inputs.admin m') (poll_from os inputs.from_user 10 0)
          (admin_round-Keeps os inputs.admin m' valid') (poll_from-Keeps os inputs.from_user 10 0)

    round_as_Keeps : (z : ℤ) (o : Outcome) → Keeps o → Keeps (round_as z o m)
    round_as_Keeps (pos zero) o h = tt
    round_as_Keeps (pos (suc k)) o h = h
    round_as_Keeps (negsuc k) o h = valid

-- With a well-formed list, any rounds leave one.
rounds-Keeps :
    (os : Os) (inputs : List Inputs) (m : Main) → MainValid m → Keeps (rounds os inputs m)
unfolding rounds
rounds-Keeps os [] m valid = valid
rounds-Keeps os (i ∷ rest) m valid =
    onward (round os i m) (round-Keeps os i m valid) (λ m' valid'. rounds-Keeps os rest m' valid')
  where
    onward :
        (o : Outcome)
        → Keeps o
        → ((m' : Main) → MainValid m' → Keeps (rounds os rest m'))
        → Keeps (elim o [
          | next m' ↦ rounds os rest m'
          | again m' ↦ rounds os rest m'
          | exited m' ↦ exited m'
          | child ↦ child
          | crashed ↦ crashed
        ])
    onward (next m') h k = k m' h
    onward (again m') h k = k m' h
    onward (exited m') h k = h
    onward child h k = tt
    onward crashed h k = tt

-- From the start of `main`, and whatever connects, is typed and is sent, in any number of rounds and
-- with any failures of the system: unless it crashes, the server process goes on or ends with a list
-- of 10 slots in which every id fits its array and no two full slots have the same id, unless it is the empty
-- one, which a kick leaves in a full slot when its first `close` fails.
pub rounds-IsValid :
    (os : Os) (inputs : List Inputs) (buf user_id : Bytes)
    → Keeps (rounds os inputs (init_main buf user_id))
rounds-IsValid os inputs buf user_id =
    rounds-Keeps os inputs (init_main buf user_id) init_user_list-IsValid
