-- ===== src/Chat/Client/Start.antt =====
-- `main` of `Project 2 - Server/client.c` up to its loop; the prompt and the usage message are left
-- out.
use operating_systems.Common.{Bool, true, false, List, [], ◌∷◌}
use operating_systems.CText.{Bytes}
use operating_systems.Numbers.{pos}
use operating_systems.Chat.Connect.{Pipe}
use operating_systems.Chat.Sockets.{Action, close, set_nonblocking, Kernel, connect_to_server}

-- The wrong number of arguments, an `exit(-1)`, or the loop, after these calls, newest first.
pub data ClientStart : Type 0 where
  shown_usage : ClientStart
  gone talking : List Action → ClientStart

-- The ends of the two pipes that the client does not use are closed, and what it reads from does not
-- block.
unfoldable pub after_connect : Pipe → Pipe → List Action → Bool → ClientStart
after_connect reading writing calls false = gone calls
after_connect reading writing calls true = talking (
    set_nonblocking (pos 0)
    ∷ set_nonblocking writing.write_end
    ∷ set_nonblocking reading.read_end
    ∷ close writing.read_end
    ∷ close reading.write_end
    ∷ calls)

-- `argv` has the name of the program first; the pipes are what `connect_to_server` received.
unfoldable pub client_start : Kernel → Pipe → Pipe → List Bytes → ClientStart
unfolding connect_to_server after_connect
client_start os reading writing (program ∷ user_id ∷ []) =
    let (calls, ok) = connect_to_server os user_id in after_connect reading writing calls ok
client_start os reading writing argv = shown_usage
