-- ===== src/Chat/Loop/UserCommands.antt =====
-- The commands of the users in `main` of `Project 2 - Server/server.c` overflow no array on polite
-- messages.
use operating_systems.Common.{
  ℕ, ◌≤◌, ◌≡◌, refl, sym, subst, true, some, ◌++◌, ltb, get_elem?, length, length-append, arith,
  All-get_elem?, inl,
}
use operating_systems.CText.{Bytes, codes}
use operating_systems.Numbers.{pos}
use operating_systems.Chat.Users.{User}
use operating_systems.Chat.Command.{Command, list, kick, p2p, seg, exit, broadcast}
use operating_systems.Chat.Server.{Os, called, write, print}
use operating_systems.Chat.Connect.{Main}
use operating_systems.Chat.Loop.{user_exit, user_broadcast, user_command}
use operating_systems.Chat.Loop.Polite.{HasShortIds, IsPolite, kick_user-HasShortIds}
use operating_systems.Chat.Loop.Answers.{list_users_slot, send_p2p_msg-Answers}
use operating_systems.Chat.Loop.Survives.{Survives, prompted-Survives}

user_broadcast-Survives :
    (os : Os) (i : ℕ) (u : User) (t : Bytes) (m : Main)
    → HasShortIds m.server.users
    → length u.m_user_id ≤ 22
    → IsPolite t
    → Survives (user_broadcast os i u t m)
unfolding user_broadcast
user_broadcast-Survives os i u t m h short p =
    rw (fits, user_broadcast) (record { ids = h; buffer = inl refl })
  where
    fits : ltb (length (u.m_user_id ++ codes ": " ++ t)) 288 ≡ true
    fits = ground (
      arith,
      length-append u.m_user_id (codes ": " ++ t),
      length-append (u.m_user_id ++ codes ": ") t,
      length-append u.m_user_id (codes ": "),
      short,
      p.fits,
    )

pub user_command-Survives :
    (os : Os) (i : ℕ) (u : User) (c : Command) (t : Bytes) (m : Main)
    → HasShortIds m.server.users
    → get_elem? m.server.users i ≡ some u
    → IsPolite t
    → Survives (user_command os i u (some c) t m)
unfolding user_command user_exit
user_command-Survives os i u list t m h at p =
    let s0 =
      called (print (codes "admin >> ")) (called (write (pos 1) (codes "\nlist\n")) m.server) in
    let (s, e, same) = list_users_slot s0 i u h at in
    rw (e, user_command) (record { ids = subst HasShortIds (sym same) h; buffer = inl refl })
user_command-Survives os i u p2p t m h at p =
    let s0 = called (write (pos 1) (codes "\np2p\n")) m.server in
    let (s, e, same) =
      send_p2p_msg-Answers i u t s0
        (All-get_elem? (λ v. length v.m_user_id ≤ 22) m.server.users i u h.short at) p in
    rw (e, user_command) (prompted-Survives s0 s m h same)
user_command-Survives os i u exit t m h at p = record {
  ids = kick_user-HasShortIds os i _ h;
  buffer = inl refl;
}
user_command-Survives os i u kick t m h at p =
    user_broadcast-Survives os i u t m h
      (All-get_elem? (λ v. length v.m_user_id ≤ 22) m.server.users i u h.short at) p
user_command-Survives os i u seg t m h at p =
    user_broadcast-Survives os i u t m h
      (All-get_elem? (λ v. length v.m_user_id ≤ 22) m.server.users i u h.short at) p
user_command-Survives os i u broadcast t m h at p =
    user_broadcast-Survives os i u t m h
      (All-get_elem? (λ v. length v.m_user_id ≤ 22) m.server.users i u h.short at) p
