-- ===== src/Chat/Tests/Rounds.antt =====
-- Users connect, write to each other and leave.
use operating_systems.Common.{
  ◌≡◌, refl, true, none, some, List, [], ◌∷◌, ◌++◌, set, replicate, arith,
}
use operating_systems.CText.{Bytes, codes, tokens, is_space, str_eq}
use operating_systems.Numbers.{ℤ, pos}
use operating_systems.Chat.Users.{find_empty_slot, empty_slot, find_user_index}
use operating_systems.Chat.Server.{write, close, Os}
use operating_systems.Chat.Server.Kick.{first_close}
use operating_systems.Chat.Connect.{Main, Connection, Inputs, next, cleared, prompted, connect}
use operating_systems.Chat.Loop.{poll_user, rounds, init_main}
use operating_systems.Chat.Loop.Keeps.{Keeps}
use operating_systems.Chat.Loop.Valid.{rounds-IsValid}
use operating_systems.Chat.Loop.Admission.{Joins, connect-Joins}
use operating_systems.Chat.Client.{Client, Turn, client_input, client_output, relay_up, relay_down}
use operating_systems.Chat.Client.Lines.{line_sent, line_shown}
use operating_systems.Chat.Delivery.{p2p_delivered, terminated, hang_up}
use operating_systems.Chat.Tests.{user, joined}

abbrev pub all_ok : Os
all_ok calls = true

abbrev pub arrival : ℤ → Connection
arrival pid = record {
  id_bytes = codes "ann" ++ 0 ∷ [];
  child_reading = record { read_end = pos 3; write_end = pos 4 };
  child_writing = record { read_end = pos 5; write_end = pos 6 };
  forked = pid;
  server_reading = record { read_end = pos 7; write_end = pos 8 };
  server_writing = record { read_end = pos 9; write_end = pos 10 };
}

-- ann connects, writes to all, and leaves.
abbrev pub stay : List Inputs
stay =
    record { connection = some (arrival (pos 20)); admin = none; from_user = λ i. none }
    ∷ record { connection = none; admin = none; from_user = λ i. some (codes "hi") }
    ∷ record {
      connection = none;
      admin = some (codes "\\list\n");
      from_user = λ i. some (codes "\\exit");
    }
    ∷ []

rounds-IsValid_example : Keeps (rounds all_ok stay (init_main cleared (replicate 32 0)))
rounds-IsValid_example = rounds-IsValid all_ok stay cleared (replicate 32 0)

abbrev before_all : Main
before_all = init_main cleared (replicate 32 0)

abbrev client : Bytes → Client
client name = record {
  name = name;
  from_server = pos 3;
  to_server = pos 4;
  buf = cleared;
  calls = [];
}

abbrev open_room : Main
open_room = record {
  server = record { users = joined; calls = [] };
  buf = cleared;
  user_id = replicate 32 0;
  childpid = pos 9;
}

p2p_delivered_example :
    (client_input (some (codes "\\p2p bob hi\n")) (client (codes "ann"))
      ≡ Turn.next (line_sent (codes "\\p2p bob hi") (client (codes "ann"))))
    × (relay_up (pos 5) (some (codes "\\p2p bob hi")) []
        ≡ write (pos 5) (codes "\\p2p bob hi") ∷ [])
    × (poll_user all_ok 1 (user (pos 8) (codes "ann")) (some (codes "\\p2p bob hi")) open_room
        ≡ next (
            prompted
              (record {
                users = joined;
                calls = write (pos 4) (codes "ann:hi") ∷ write (pos 1) (codes "\np2p\n") ∷ [];
              })
              open_room))
    × (relay_down (pos 6) (some (codes "ann:hi")) [] ≡ write (pos 6) (codes "ann:hi") ∷ [])
    × (client_output (some (codes "ann:hi")) (client (codes "bob"))
        ≡ Turn.next (line_shown (codes "ann:hi") (client (codes "bob"))))
unfolding tokens is_space find_user_index str_eq
p2p_delivered_example =
    p2p_delivered all_ok 1 0 (user (pos 8) (codes "ann")) (user (pos 9) (codes "bob")) (codes "hi")
      (codes "hi") [] (client (codes "ann")) (client (codes "bob")) open_room (pos 5) (pos 6) [] []
      (λ e. cc, (refl, (refl, (refl, tt)))) (omega arith) refl (omega arith)
      (refl, (refl, (refl, (refl, (refl, (refl, (refl, (refl, (refl, (refl, (refl, tt)))))))))))
      (omega arith) (omega arith) refl (omega arith) refl refl refl

hang_up_example :
    (relay_up (pos 5) (some []) [] ≡ write (pos 5) (codes "\\exit") ∷ [])
    × (poll_user all_ok 0 (user (pos 9) (codes "bob")) (some (codes "\\exit")) open_room
        ≡ next (
            prompted
              (record {
                users = set joined 0 empty_slot;
                calls =
                    close (pos 5)
                    ∷ first_close
                        (user (pos 9) (codes "bob"))
                        (terminated (user (pos 9) (codes "bob")) []);
              })
              open_room))
hang_up_example =
    hang_up all_ok 0 (user (pos 9) (codes "bob")) open_room (pos 5) [] refl refl refl refl

connect-Joins_example :
    Joins
      (arrival (pos 20))
      (codes "ann")
      0
      before_all.server.users
      (connect (some (arrival (pos 20))) before_all)
unfolding find_empty_slot find_user_index
connect-Joins_example =
    connect-Joins before_all (arrival (pos 20)) (codes "ann") [] 0 19 refl
      (refl, (refl, (refl, tt))) (omega arith) refl refl refl
