-- ===== src/Chat/Tests/Server.antt =====
-- Kicks, broadcasts and private messages in a room with two users.
use operating_systems.Common.{
  ◌⊎◌, ℕ, suc, length, ◌<◌, ◌≡◌, refl, true, false, some, List, [], ◌∷◌, ◌++◌, get_elem?, replicate,
  take, arith,
}
use operating_systems.CText.{codes, tokens, is_space}
use operating_systems.Numbers.{pos, negsuc}
use operating_systems.Chat.Users.{User, empty_slot, slot_full, slot_empty}
use operating_systems.Chat.Command.{
  find_command_type, get_command_type, extracted, extract_name, extract_text,
}
use operating_systems.Chat.Command.Format.{extract-command_text}
use operating_systems.Chat.Server.{
  Call, kill, Os, Server, kick_user, cleanup_users, broadcast_from, send_p2p_msg, list_text,
}
use operating_systems.Chat.Server.Private.{AnswerOf, send_p2p_private}
use operating_systems.Chat.Server.Broadcast.{receivers, sent_to, AllSucceed, broadcast_from_sends}
use operating_systems.Chat.Server.Kick.{left_open, kick_user_unclosed}
use operating_systems.Chat.Server.Listing.{list_text_lines}
use operating_systems.Chat.Server.Shutdown.{Called, cleanup_users_all}
use operating_systems.Chat.Tests.{user, joined}

abbrev all_ok : Os
all_ok calls = true

abbrev all_fail : Os
all_fail calls = false

abbrev open_room : Server
open_room = record { users = joined; calls = [] }

abbrev ten_users : Server
ten_users = record { users = user (pos 9) (codes "bob") ∷ replicate 9 empty_slot; calls = [] }

extract-command_text_example :
    (get_command_type (codes "\\p2p bob hi  all") ≡ some (find_command_type (codes "\\p2p")))
    × (extract_name (codes "\\p2p bob hi  all") ≡ extracted (codes "bob"))
    × (extract_text (codes "\\p2p bob hi  all") ≡ extracted (codes "hi  all"))
unfolding tokens is_space
extract-command_text_example =
    extract-command_text (codes "\\p2p") (codes "bob") (codes "hi  all") (codes "hi")
      (codes "all" ∷ []) (λ e. cc, (refl, (refl, (refl, (refl, tt)))))
      (λ e. cc, (refl, (refl, (refl, tt)))) (omega arith) refl (omega arith)

send_p2p_private_example :
    AnswerOf 1
      (user (pos 8) (codes "ann"))
      (codes "\\p2p bob hi")
      open_room
      (send_p2p_msg 1 (user (pos 8) (codes "ann")) (codes "\\p2p bob hi") open_room)
send_p2p_private_example =
    send_p2p_private 1 (user (pos 8) (codes "ann")) (codes "\\p2p bob hi") open_room

broadcast_from_sends_example :
    ((broadcast_from all_ok joined 0 (codes "hi") (some 1) []
        ≡ (sent_to (codes "hi") (receivers joined 0 (some 1)) [], true))
      × AllSucceed all_ok (codes "hi") (receivers joined 0 (some 1)) [])
    ⊎ ((k : ℕ) × (k < length (receivers joined 0 (some 1)))
        × (broadcast_from all_ok joined 0 (codes "hi") (some 1) []
            ≡ (sent_to (codes "hi") (take (suc k) (receivers joined 0 (some 1))) [], false))
        × AllSucceed all_ok (codes "hi") (take k (receivers joined 0 (some 1))) []
        × (all_ok (sent_to (codes "hi") (take (suc k) (receivers joined 0 (some 1))) []) ≡ false))
broadcast_from_sends_example = broadcast_from_sends all_ok joined 0 (codes "hi") (some 1) []

kick_user_unclosed_example :
    (get_elem? (kick_user all_fail 0 open_room).users 0
      ≡ some (left_open (user (pos 9) (codes "bob"))))
    × ((r : List Call) × ((kick_user all_fail 0 (kick_user all_fail 0 open_room)).calls
          ≡ r ++ kill (negsuc 0) ∷ (kick_user all_fail 0 open_room).calls))
kick_user_unclosed_example =
    kick_user_unclosed all_fail 0 (user (pos 9) (codes "bob")) open_room refl refl

cleanup_users_all_example :
    ((j : ℕ) (w : User)
      → get_elem? (cleanup_users all_ok ten_users).users j ≡ some w
      → w.m_status ≡ slot_empty)
    × ((j : ℕ) (u : User)
        → get_elem? ten_users.users j ≡ some u
        → u.m_status ≡ slot_full
        → Called (kill u.m_pid) (cleanup_users all_ok ten_users).calls)
cleanup_users_all_example = cleanup_users_all all_ok ten_users (λ calls. refl) refl

list_text_lines_example : list_text joined ≡ some (codes "---connected user list---\nbob\nann")
list_text_lines_example = list_text_lines joined (λ e. cc) (omega arith)
