-- ===== src/Chat/Loop/Commands.antt =====
-- The commands of the administrator and of the users in `main` of `Project 2 - Server/server.c`
-- keep the user list well formed.
use operating_systems.Common.{
  ℕ, ◌≡◌, refl, ◌∙◌, sym, subst, Option, none, some, [], ◌∷◌, ◌++◌, ltb, ◌==◌, length, take,
  Bool-cases, Option-cases, inl, inr,
}
use operating_systems.CText.{Bytes, codes}
use operating_systems.Numbers.{pos}
use operating_systems.Chat.Users.{User, find_user_index}
use operating_systems.Chat.Users.Valid.{IsValid}
use operating_systems.Chat.Command.{
  Command, list, kick, p2p, seg, exit, broadcast, Extracted, extracted, missing, overrun,
  get_command_type, extract_name,
}
use operating_systems.Chat.Server.{Call, write, Os, Server, called, list_users, send_p2p_msg}
use operating_systems.Chat.Server.Valid.{
  Leaves, kick_user-IsValid, cleanup_users-IsValid, list_users-Leaves, send_p2p_msg-Leaves,
}
use operating_systems.Chat.Connect.{Main, next, crashed, prompted, cleared, overwrite, c_string}
use operating_systems.Chat.Loop.{
  last_byte, admin_kick, admin_command, admin_text, admin_round, user_exit, user_broadcast,
  user_command,
}
use operating_systems.Chat.Loop.Keeps.{MainValid, Keeps}

admin_kick-Keeps : (os : Os) (x : Extracted) (m : Main) → MainValid m → Keeps (admin_kick os x m)
unfolding admin_kick
admin_kick-Keeps os overrun m valid = tt
admin_kick-Keeps os missing m valid = valid
admin_kick-Keeps os (extracted name) m valid =
    elim (Option-cases (find_user_index m.server.users name)) [
      | inl e ↦ rw (e, admin_kick) valid
      | inr (idx, e) ↦ rw (e, admin_kick) (kick_user-IsValid os idx m.server valid)
    ]

-- A result of `list_users` or `send_p2p_msg`, and what follows it.
after_Leaves :
    (s : Server) (r : Option Server) (f : Server → Main)
    → Leaves s r
    → IsValid s.users
    → ((t : Server) → (f t).server.users ≡ t.users)
    → Keeps (elim r [ none ↦ crashed | some t ↦ next (f t) ])
after_Leaves s none f h valid same = tt
after_Leaves s (some t) f h valid same = subst IsValid (sym (same t ∙ h)) valid

admin_command-Keeps :
    (os : Os) (type : Option Command) (text : Bytes) (m : Main)
    → MainValid m
    → Keeps (admin_command os type text m)
unfolding admin_command
admin_command-Keeps os none text m valid = tt
admin_command-Keeps os (some list) text m valid =
    after_Leaves m.server (list_users none m.server) (λ s. prompted s m)
      (list_users-Leaves none m.server) valid (λ t. refl)
admin_command-Keeps os (some kick) text m valid = admin_kick-Keeps os (extract_name text) m valid
admin_command-Keeps os (some exit) text m valid = cleanup_users-IsValid os m.server valid
admin_command-Keeps os (some p2p) text m valid = valid
admin_command-Keeps os (some seg) text m valid = valid
admin_command-Keeps os (some broadcast) text m valid = valid

pub admin_text-Keeps :
    (os : Os) (text : Bytes) (m : Main) → MainValid m → Keeps (admin_text os text m)
unfolding admin_text
admin_text-Keeps os [] m valid = tt
admin_text-Keeps os (c ∷ text) m valid = elim (Bool-cases (last_byte c text == 10)) [
  | inl e ↦ elim (Bool-cases (length text == 0)) [
    | inl f ↦ rw (e, f, admin_text) valid
    | inr f ↦
        rw (e, f, admin_text)
          (admin_command-Keeps os (get_command_type (take (length text) (c ∷ text)))
            (take (length text) (c ∷ text)) m valid)
  ]
  | inr e ↦
      rw (e, admin_text) (admin_command-Keeps os (get_command_type (c ∷ text)) (c ∷ text) m valid)
]

pub admin_round-Keeps :
    (os : Os) (bytes : Option Bytes) (m : Main) → MainValid m → Keeps (admin_round os bytes m)
unfolding admin_round
admin_round-Keeps os none m valid = valid
admin_round-Keeps os (some bytes) m valid = elim (Option-cases (c_string (overwrite bytes m.buf))) [
  | inl e ↦ rw (e, admin_round) tt
  | inr (text, e) ↦
      rw (e, admin_round)
        (admin_text-Keeps os text (record m { buf = overwrite bytes m.buf }) valid)
]

user_broadcast-Keeps :
    (os : Os) (i : ℕ) (u : User) (text : Bytes) (m : Main)
    → MainValid m
    → Keeps (user_broadcast os i u text m)
unfolding user_broadcast
user_broadcast-Keeps os i u text m valid =
    elim (Bool-cases (ltb (length (u.m_user_id ++ codes ": " ++ text)) 288)) [
      | inl e ↦ rw (e, user_broadcast) valid
      | inr e ↦ rw (e, user_broadcast) tt
    ]

pub user_command-Keeps :
    (os : Os) (i : ℕ) (u : User) (type : Option Command) (text : Bytes) (m : Main)
    → MainValid m
    → Keeps (user_command os i u type text m)
unfolding user_command user_exit
user_command-Keeps os i u none text m valid = tt
user_command-Keeps os i u (some list) text m valid =
    after_Leaves (listing) (list_users (some i) listing)
      (λ s. record m { server = s; buf = cleared }) (list_users-Leaves (some i) listing) valid
      (λ t. refl)
  where
    listing : Server
    listing =
        called (Call.print (codes "admin >> ")) (called (write (pos 1) (codes "\nlist\n")) m.server)
user_command-Keeps os i u (some p2p) text m valid =
    after_Leaves relaying (send_p2p_msg i u text relaying) (λ s. prompted s m)
      (send_p2p_msg-Leaves i u text relaying) valid (λ t. refl)
  where
    relaying : Server
    relaying = called (write (pos 1) (codes "\np2p\n")) m.server
user_command-Keeps os i u (some exit) text m valid =
    kick_user-IsValid os i
      (called
        (write (pos 1) (codes "\nThe user: " ++ u.m_user_id ++ codes " seems to be terminated\n"))
        m.server)
      valid
user_command-Keeps os i u (some kick) text m valid = user_broadcast-Keeps os i u text m valid
user_command-Keeps os i u (some seg) text m valid = user_broadcast-Keeps os i u text m valid
user_command-Keeps os i u (some broadcast) text m valid = user_broadcast-Keeps os i u text m valid
