-- ===== src/Chat/Loop.antt =====
-- The loop of `main` of `Project 2 - Server/server.c` in the server process: a connection, a command
-- of the administrator, and the messages of the users.
pub mod Keeps
pub mod Commands
pub mod Valid
pub mod Admission
pub mod Buffer
pub mod Polite
pub mod Answers
pub mod Survives
pub mod UserCommands
pub mod Orderly
use operating_systems.Common.{
  ℕ, zero, suc, ◌+◌, ◌-◌, ◌≡◌, Bool, true, false, Option, none, some, List, [], ◌∷◌, ◌++◌, ltb,
  ◌==◌, if◌then◌else◌, get_elem?, take, drop, length, replicate,
}
use operating_systems.CText.{Bytes, codes, until_nul, has_char}
use operating_systems.Numbers.{ℤ, pos, negsuc, format_int}
use operating_systems.Chat.Users.{
  User, slot_full, slot_empty, init_user_list, find_empty_slot, add_user, find_user_index,
}
use operating_systems.Chat.Command.{
  Command, list, kick, p2p, seg, exit, broadcast, get_command_type, Extracted, extracted, missing,
  overrun, extract_name,
}
use operating_systems.Chat.Server.{
  Call, write, close, print, Os, Server, called, kick_user, cleanup_users, broadcast_msg,
  list_users, send_p2p_msg,
}
use operating_systems.Chat.Connect.{
  overwrite, c_string, Main, Pipe, Connection, Inputs, Outcome, and_then, prompt, cleared, prompted,
  parent_closes, parent_connected, forked_as, connected, admit, connect, next, again, exited, child,
  crashed,
}

-- The last byte of a text that is not empty.
unfoldable pub last_byte : ℕ → Bytes → ℕ
last_byte c [] = c
last_byte c (x ∷ s) = last_byte x s

-- \kick with what `extract_name` found.
unfoldable pub admin_kick : Os → Extracted → Main → Outcome
unfolding find_user_index kick_user
admin_kick os overrun m = crashed
admin_kick os missing m = next (prompted m.server m)
admin_kick os (extracted name) m = elim (find_user_index m.server.users name) [
  | none ↦ next (record (prompted m.server m) { user_id = overwrite (name ++ 0 ∷ []) m.user_id })
  | some idx ↦ next (record (prompted (kick_user os idx m.server) m) {
    user_id = overwrite (name ++ 0 ∷ []) m.user_id;
  })
]

-- The `switch` over the commands of the administrator.
unfoldable pub admin_command : Os → Option Command → Bytes → Main → Outcome
unfolding list_users admin_kick extract_name cleanup_users broadcast_msg
admin_command os none text m = crashed
admin_command os (some list) text m = elim (list_users none m.server) [
  | none ↦ crashed
  | some s ↦ next (prompted s m)
]
admin_command os (some kick) text m = admin_kick os (extract_name text) m
admin_command os (some exit) text m = exited (record m { server = cleanup_users os m.server })
admin_command os (some p2p) text m =
    next (prompted (broadcast_msg os (codes "admin-notice: " ++ text) none m.server) m)
admin_command os (some seg) text m =
    next (prompted (broadcast_msg os (codes "admin-notice: " ++ text) none m.server) m)
admin_command os (some broadcast) text m =
    next (prompted (broadcast_msg os (codes "admin-notice: " ++ text) none m.server) m)

-- The text of the administrator's buffer: an empty one makes `buf[-1]`, a newline at the end is cut
-- off, and a newline alone goes on with the next round.
unfoldable pub admin_text : Os → Bytes → Main → Outcome
unfolding last_byte get_command_type admin_command
admin_text os [] m = crashed
admin_text os (c ∷ text) m =
    if last_byte c text == 10
    then if length text == 0
      then again (record m { server = called (print prompt) m.server })
      else admin_command os (get_command_type (take (length text) (c ∷ text)))
          (take (length text) (c ∷ text)) m
    else admin_command os (get_command_type (c ∷ text)) (c ∷ text) m

unfoldable pub admin_round : Os → Option Bytes → Main → Outcome
unfolding c_string admin_text
admin_round os none m = next m
admin_round os (some bytes) m = elim (c_string (overwrite bytes m.buf)) [
  | none ↦ crashed
  | some text ↦ admin_text os text (record m { buf = overwrite bytes m.buf })
]

-- \exit of the user in slot `i`, and any other text, which goes to the others through an array of
-- 288 bytes.
unfoldable pub user_exit : Os → ℕ → User → Main → Main
unfolding kick_user
user_exit os i u m =
    prompted
      (kick_user os i (
        called
          (write (pos 1) (codes "\nThe user: " ++ u.m_user_id ++ codes " seems to be terminated\n"))
          m.server))
      m

unfoldable pub user_broadcast : Os → ℕ → User → Bytes → Main → Outcome
unfolding broadcast_msg
user_broadcast os i u text m =
    let message = u.m_user_id ++ codes ": " ++ text in
    if ltb (length message) 288
    then next (record m { server = broadcast_msg os message (some i) m.server; buf = cleared })
    else crashed

-- The `switch` over the commands of the user in slot `i`.
unfoldable pub user_command : Os → ℕ → User → Option Command → Bytes → Main → Outcome
unfolding list_users send_p2p_msg user_exit user_broadcast
user_command os i u none text m = crashed
user_command os i u (some list) text m =
    elim (list_users (some i)
      (called (print prompt) (called (write (pos 1) (codes "\nlist\n")) m.server))) [
        | none ↦ crashed
        | some s ↦ next (record m { server = s; buf = cleared })
      ]
user_command os i u (some p2p) text m =
    elim (send_p2p_msg i u text (called (write (pos 1) (codes "\np2p\n")) m.server)) [
      | none ↦ crashed
      | some s ↦ next (prompted s m)
    ]
user_command os i u (some exit) text m = next (user_exit os i u m)
user_command os i u (some kick) text m = user_broadcast os i u text m
user_command os i u (some seg) text m = user_broadcast os i u text m
user_command os i u (some broadcast) text m = user_broadcast os i u text m

unfoldable pub user_text : Os → ℕ → User → Option Bytes → Main → Outcome
unfolding get_command_type user_command
user_text os i u none m = crashed
user_text os i u (some text) m = user_command os i u (get_command_type text) text m

-- One user in turn: `none` is a slot with nothing to read, or an empty one.
unfoldable pub poll_user : Os → ℕ → User → Option Bytes → Main → Outcome
unfolding c_string user_text
poll_user os i u none m = next m
poll_user os i u (some bytes) m =
    user_text os i u (c_string (overwrite bytes m.buf)) (record m { buf = overwrite bytes m.buf })

unfoldable pub poll_slot : Os → ℕ → Option User → Option Bytes → Main → Outcome
unfolding poll_user
poll_slot os i none bytes m = next m
poll_slot os i (some u) bytes m = elim u.m_status [
  | slot_full ↦ poll_user os i u bytes m
  | slot_empty ↦ next m
]

-- The loop over `n` slots from `i` on.
unfoldable pub poll_from : Os → (ℕ → Option Bytes) → ℕ → ℕ → Main → Outcome
unfolding poll_slot
poll_from os from_user zero i m = next m
poll_from os from_user (suc n) i m =
    and_then (poll_slot os i (get_elem? m.server.users i) (from_user i) m)
      (poll_from os from_user n (i + 1))

-- The tests of `childpid`: with -1 nothing is done.
unfoldable pub round_as : ℤ → Outcome → Main → Outcome
round_as (pos zero) served m = child
round_as (pos (suc pid)) served m = served
round_as (negsuc k) served m = next m

-- A round of the server process.
unfoldable pub round : Os → Inputs → Main → Outcome
unfolding connect admin_round poll_from round_as
round os inputs m =
    round_as m.childpid
      (and_then (connect inputs.connection m)
        (λ m'. and_then (admin_round os inputs.admin m') (poll_from os inputs.from_user 10 0)))
      m

-- The rounds of the loop; `next` and `again` both go on.
unfoldable pub rounds : Os → List Inputs → Main → Outcome
unfolding round
rounds os [] m = next m
rounds os (inputs ∷ rest) m = elim (round os inputs m) [
  | next m' ↦ rounds os rest m'
  | again m' ↦ rounds os rest m'
  | exited m' ↦ exited m'
  | child ↦ child
  | crashed ↦ crashed
]

-- `main` before the loop, with whatever the two buffers hold.
abbrev pub init_main : Bytes → Bytes → Main
init_main buf user_id = record {
  server = record { users = init_user_list; calls = print prompt ∷ [] };
  buf = buf;
  user_id = user_id;
  childpid = pos 1;
}
