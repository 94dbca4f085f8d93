-- ===== src/Chat/Users.antt =====
-- The user list of `Project 2 - Server/server.c` over the array of `comm.h`: `init_user_list`,
-- `find_empty_slot`, `add_user`, `find_user_index`, and a slot as `cleanup_user` leaves it.
pub mod Lookup
pub mod Valid
use operating_systems.Common.{
  ℕ, zero, suc, ◌+◌, ◌≡◌, Bool, true, false, Option, none, some, List, [], ◌∷◌, ltb, if◌then◌else◌,
  get_elem?, set, length, replicate,
}
use operating_systems.CText.{Bytes, str_eq}
use operating_systems.Numbers.{ℤ, negsuc}

pub data SlotStatus : Type 0 where
  slot_full slot_empty : SlotStatus

-- `USER`; the id is the text in the array of 32 bytes.
pub record User : Type 0 where
  pub m_pid : ℤ
  pub m_user_id : Bytes
  pub m_fd_to_user : ℤ
  pub m_fd_to_server : ℤ
  pub m_status : SlotStatus

-- A slot after `init_user_list`.
abbrev pub empty_slot : User
empty_slot = record {
  m_pid = negsuc 0;
  m_user_id = [];
  m_fd_to_user = negsuc 0;
  m_fd_to_server = negsuc 0;
  m_status = slot_empty;
}

-- `init_user_list` on the MAX_USER slots.
abbrev pub init_user_list : List User
init_user_list = replicate 10 empty_slot

-- The loop of `find_empty_slot` at index `i`.
unfoldable pub empty_from : List User → ℕ → Option ℕ
empty_from [] i = none
empty_from (u ∷ us) i =
    let rest = empty_from us (i + 1) in elim u.m_status [ slot_empty ↦ some i | slot_full ↦ rest ]

-- `none` is -1.
unfoldable pub find_empty_slot : List User → Option ℕ
unfolding empty_from
find_empty_slot user_list = empty_from user_list 0

-- `none` is a `strcpy` past the 32 bytes of the id.
unfoldable pub add_user : ℕ → List User → ℤ → Bytes → ℤ → ℤ → Option (List User)
add_user idx user_list pid user_id pipe_to_child pipe_to_parent =
    if ltb (length user_id) 32
    then some (
        set user_list idx (record {
          m_pid = pid;
          m_user_id = user_id;
          m_fd_to_user = pipe_to_child;
          m_fd_to_server = pipe_to_parent;
          m_status = slot_full;
        }))
    else none

-- The entry after `clean_slot`, with whether each `close` succeeds: a failure returns at once.
unfoldable pub cleaned : Bool → Bool → User → User
cleaned false close_server u = record u { m_pid = negsuc 0; m_user_id = [] }
cleaned true false u = record u { m_pid = negsuc 0; m_user_id = []; m_fd_to_user = negsuc 0 }
cleaned true true u = record {
  m_pid = negsuc 0;
  m_user_id = [];
  m_fd_to_user = negsuc 0;
  m_fd_to_server = negsuc 0;
  m_status = slot_empty;
}

unfoldable pub clean_slot : Bool → Bool → ℕ → List User → List User
unfolding cleaned
clean_slot close_user close_server idx user_list = elim (get_elem? user_list idx) [
  | none ↦ user_list
  | some u ↦ set user_list idx (cleaned close_user close_server u)
]

-- The loop of `find_user_index` at index `i`.
unfoldable pub user_from : List User → Bytes → ℕ → Option ℕ
user_from [] user_id i = none
user_from (u ∷ us) user_id i =
    let rest = user_from us user_id (i + 1) in
    elim u.m_status [
      | slot_empty ↦ rest
      | slot_full ↦ if str_eq u.m_user_id user_id then some i else rest
    ]

unfoldable pub find_user_index : List User → Bytes → Option ℕ
unfolding user_from
find_user_index user_list user_id = user_from user_list user_id 0
