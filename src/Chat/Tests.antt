-- ===== src/Chat/Tests.antt =====
-- A user joins the chat.
mod Server
mod Orderly
mod Rounds
mod Sockets
use operating_systems.Common.{true, ◌≡◌, ◌≢◌, refl, some, List, [], ◌∷◌, set}
use operating_systems.CText.{Bytes, codes, str_eq}
use operating_systems.Numbers.{ℤ, pos, negsuc}
use operating_systems.Chat.Users.{
  User, slot_full, slot_empty, find_empty_slot, add_user, find_user_index, clean_slot,
}
use operating_systems.Chat.Users.Lookup.{find_user_index-add_user}

abbrev pub user : ℤ → Bytes → User
user pid name = record {
  m_pid = pid;
  m_user_id = name;
  m_fd_to_user = pos 4;
  m_fd_to_server = pos 5;
  m_status = slot_full;
}

abbrev pub nobody : User
nobody = record {
  m_pid = negsuc 0;
  m_user_id = [];
  m_fd_to_user = negsuc 0;
  m_fd_to_server = negsuc 0;
  m_status = slot_empty;
}

-- The first user has left.
abbrev pub room : List User
room = nobody ∷ user (pos 8) (codes "ann") ∷ nobody ∷ []

abbrev pub joined : List User
joined = set room 0 (user (pos 9) (codes "bob"))

left : clean_slot true true 0 joined ≡ room
unfolding clean_slot
left = refl

find_user_index-add_user_example :
    (find_user_index joined (codes "bob") ≡ some 0)
    × ((other : Bytes)
        → other ≢ codes "bob"
        → find_user_index joined other ≡ find_user_index room other)
unfolding find_empty_slot add_user find_user_index str_eq
find_user_index-add_user_example =
    find_user_index-add_user room joined 0 (pos 9) (codes "bob") (pos 4) (pos 5) refl refl refl
