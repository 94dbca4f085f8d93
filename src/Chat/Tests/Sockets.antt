-- ===== src/Chat/Tests/Sockets.antt =====
-- A client connects, and the server has no more descriptors for its pipes.
use operating_systems.Common.{◌≡◌, true, false, refl, [], ◌∷◌}
use operating_systems.CText.{codes}
use operating_systems.Numbers.{pos, negsuc}
use operating_systems.Chat.Sockets.{pipe, accept, Kernel, connect_to_server, get_connection}
use operating_systems.Chat.Sockets.Errors.{Stops, connections_stop}

abbrev without_pipes : Kernel
without_pipes = record {
  result = λ calls. elim calls [ [] ↦ pos 0 | a ∷ rest ↦ elim a [ pipe ↦ negsuc 0 | _ ↦ pos 3 ] ];
  no_entry = λ calls. true;
}

refused : get_connection without_pipes (pos 5) ≡ (pipe ∷ accept (pos 5) ∷ [], false)
unfolding get_connection
refused = refl

connections_stop_example :
    Stops without_pipes (pos 3) (connect_to_server without_pipes (codes "ann"))
    × Stops without_pipes (pos 3) (get_connection without_pipes (pos 5))
connections_stop_example = connections_stop without_pipes (codes "ann") (pos 5)
