-- ===== src/Chat/Server.antt =====
-- The functions of `Project 2 - Server/server.c` that call the system: `kill_user`, `cleanup_user`,
-- `kick_user`, `cleanup_users`, `broadcast_msg`, `list_users` and `send_p2p_msg`.
pub mod Valid
pub mod Private
pub mod Broadcast
pub mod Kick
pub mod Shutdown
pub mod Listing
use operating_systems.Common.{
  ℕ, zero, suc, ◌+◌, ◌-◌, ◌≡◌, Bool, true, false, not, ◌&&◌, Option, none, some, List, [], ◌∷◌,
  ◌++◌, ltb, leb, ◌==◌, if◌then◌else◌, get_elem?, take, length,
}
use operating_systems.CText.{Bytes, codes}
use operating_systems.Numbers.{ℤ, pos}
use operating_systems.Chat.Users.{
  User, slot_full, slot_empty, SlotStatus, clean_slot, find_user_index,
}
use operating_systems.Chat.Command.{
  Extracted, extracted, missing, overrun, extract_name, extract_text,
}

-- A call of the system. `print` writes to the terminal; messages on stderr are left out.
pub data Call : Type 0 where
  write : ℤ → Bytes → Call
  close kill waitpid : ℤ → Call
  print : Bytes → Call

-- What the system answers: whether the newest of the calls so far succeeds.
abbrev pub Os : Type 0
Os = List Call → Bool

-- The user list, and the calls so far, newest first.
pub record Server : Type 0 where
  pub users : List User
  pub calls : List Call

abbrev pub called : Call → Server → Server
called c s = record s { calls = c ∷ s.calls }

abbrev pub is_full : SlotStatus → Bool
is_full slot_full = true
is_full slot_empty = false

unfoldable pub kill_user : User → Server → Server
kill_user u s = called (waitpid u.m_pid) (called (kill u.m_pid) s)

-- The calls of `cleanup_user` on the entry `u`, and its effect on the list.
unfoldable pub cleanup_entry : Os → ℕ → User → Server → Server
unfolding clean_slot
cleanup_entry os idx u s =
    let first = close u.m_fd_to_user ∷ s.calls in
    let second = close u.m_fd_to_server ∷ first in
    if os first
    then record { users = clean_slot true (os second) idx s.users; calls = second }
    else record { users = clean_slot false false idx s.users; calls = first }

unfoldable pub cleanup_user : Os → ℕ → Server → Server
unfolding cleanup_entry
cleanup_user os idx s = elim (get_elem? s.users idx) [
  | none ↦ s
  | some u ↦ cleanup_entry os idx u s
]

unfoldable pub kick_user : Os → ℕ → Server → Server
unfolding kill_user cleanup_user
kick_user os idx s = elim (get_elem? s.users idx) [
  | none ↦ s
  | some u ↦ cleanup_user os idx (kill_user u s)
]

-- A round of the loop of `cleanup_users`, and the loop over `n` slots from `i` on.
unfoldable pub cleanup_slot : Os → ℕ → Server → Server
unfolding kick_user
cleanup_slot os i s = elim (get_elem? s.users i) [
  | none ↦ s
  | some u ↦ if is_full u.m_status then kick_user os i s else s
]

unfoldable pub cleanup_from : Os → ℕ → ℕ → Server → Server
unfolding cleanup_slot
cleanup_from os zero i s = s
cleanup_from os (suc n) i s = cleanup_from os n (i + 1) (cleanup_slot os i s)

unfoldable pub cleanup_users : Os → Server → Server
unfolding cleanup_from
cleanup_users os s = cleanup_from os 10 0 s

-- `user_list[i].m_user_id != sender`: the sender is the id of a slot, or NULL.
unfoldable pub is_other : ℕ → Option ℕ → Bool
is_other i none = true
is_other i (some j) = if i == j then false else true

-- The loop of `broadcast_msg` from slot `i` on, with the calls so far; `false` is -1.
unfoldable pub broadcast_from : Os → List User → ℕ → Bytes → Option ℕ → List Call → List Call × Bool
unfolding is_other
broadcast_from os [] i buf sender calls = (calls, true)
broadcast_from os (u ∷ us) i buf sender calls =
    let sent = write u.m_fd_to_user buf ∷ calls in
    let after_sent = broadcast_from os us (i + 1) buf sender sent in
    let skipped = broadcast_from os us (i + 1) buf sender calls in
    if is_full u.m_status && is_other i sender
    then if os sent then after_sent else (sent, false)
    else skipped

unfoldable pub broadcast_msg : Os → Bytes → Option ℕ → Server → Server
unfolding broadcast_from
broadcast_msg os buf sender s = record s {
  calls = (broadcast_from os s.users 0 buf sender s.calls).0;
}

-- The loop of `list_users`: the text written into the 256 bytes of `buf`; `none` is a write past them.
unfoldable pub list_from : List User → Bytes → Option Bytes
list_from [] text = some text
list_from (u ∷ us) text =
    let longer = text ++ u.m_user_id ++ 10 ∷ [] in
    let with_user = list_from us longer in
    let without = list_from us text in
    if is_full u.m_status then if leb (length longer) 256 then with_user else none else without

abbrev pub list_header : Bytes
list_header = codes "---connected user list---\n"

-- The text in `buf`: the last newline is cut off; with no user nothing follows the header.
unfoldable pub list_text : List User → Option Bytes
unfolding list_from
list_text user_list = elim (list_from user_list list_header) [
  | none ↦ none
  | some text ↦
      if length text == length list_header
      then some (codes "<no users>\n")
      else some (take (length text - 1) text)
]

-- `list_users`: `none` for the index is -1, the server's own terminal.
unfoldable pub list_users : Option ℕ → Server → Option Server
unfolding list_text
list_users idx s = elim (list_text s.users) [
  | none ↦ none
  | some text ↦ elim idx [
    | none ↦ some (called (print (codes "\n")) (called (print text) s))
    | some i ↦ elim (get_elem? s.users i) [
      | none ↦ none
      | some u ↦ some (called (write u.m_fd_to_user (text ++ 0 ∷ [])) s)
    ]
  ]
]

-- The answers of `send_p2p_msg` to its sender, with the bytes that its `write` takes.
abbrev pub name_not_given : Bytes
name_not_given = codes "User name not given"

abbrev pub not_found : Bytes
not_found = codes "User not found, use \\list" ++ 0 ∷ []

abbrev pub to_yourself : Bytes
to_yourself = codes "Cannot send \\p2p to yourself"

abbrev pub no_message : Bytes
no_message = codes "Message not given"

-- The message proper, through the 256 bytes of `inbuf`.
unfoldable pub relay_p2p : Bytes → User → User → Server → Option Server
relay_p2p message sender receiver s =
    let inbuf = sender.m_user_id ++ 58 ∷ message in
    if ltb (length inbuf) 256 then some (called (write receiver.m_fd_to_user inbuf) s) else none

-- `send_p2p_msg` of the user `sender` in slot `idx`; `none` is a write past an array.
unfoldable pub send_p2p_msg : ℕ → User → Bytes → Server → Option Server
unfolding extract_name extract_text find_user_index relay_p2p
send_p2p_msg idx sender buf s = elim (extract_name buf) [
  | overrun ↦ none
  | missing ↦ some (called (write sender.m_fd_to_user name_not_given) s)
  | extracted receiver ↦ elim (find_user_index s.users receiver) [
    | none ↦ some (called (write sender.m_fd_to_user not_found) s)
    | some index ↦
        if index == idx
        then some (called (write sender.m_fd_to_user to_yourself) s)
        else elim (extract_text buf) [
          | overrun ↦ none
          | missing ↦ some (called (write sender.m_fd_to_user no_message) s)
          | extracted message ↦ elim (get_elem? s.users index) [
            | none ↦ none
            | some u ↦ relay_p2p message sender u s
          ]
        ]
  ]
]
