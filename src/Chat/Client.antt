-- ===== src/Chat/Client.antt =====
-- The two processes between a user and the server: the loop of `Project 2 - Server/client.c`, and
-- the child of `Project 2 - Server/server.c` that relays between the client and the server.
pub mod Lines
pub mod Start
use operating_systems.Common.{
  ℕ, zero, suc, ◌+◌, ◌-◌, ◌≡◌, Bool, true, false, Option, none, some, List, [], ◌∷◌, ◌++◌, ◌==◌,
  if◌then◌else◌, take, length,
}
use operating_systems.CText.{Bytes, codes}
use operating_systems.Numbers.{ℤ, pos}
use operating_systems.Chat.Command.{
  Command, list, kick, p2p, seg, exit, broadcast, get_command_type,
}
use operating_systems.Chat.Server.{Call, write, close, print}
use operating_systems.Chat.Connect.{overwrite, c_string, cleared}
use operating_systems.Chat.Loop.{last_byte}

-- A round of the relay: what it reads from the client and from the server. An end of file from the
-- client becomes \exit.
unfoldable pub relay_up : ℤ → Option Bytes → List Call → List Call
relay_up to_server none calls = calls
relay_up to_server (some []) calls = write to_server (codes "\\exit") ∷ calls
relay_up to_server (some (c ∷ bytes)) calls = write to_server (c ∷ bytes) ∷ calls

unfoldable pub relay_down : ℤ → Option Bytes → List Call → List Call
relay_down to_user none calls = calls
relay_down to_user (some bytes) calls = write to_user bytes ∷ calls

unfoldable pub relay_round : ℤ → ℤ → Option Bytes → Option Bytes → List Call → List Call
unfolding relay_up relay_down
relay_round to_server to_user from_user from_server calls =
    relay_down to_user from_server (relay_up to_server from_user calls)

-- The variables of the client: its name, the pipe ends, the buffer, and the calls so far.
pub record Client : Type 0 where
  pub name : Bytes
  pub from_server : ℤ
  pub to_server : ℤ
  pub buf : Bytes
  pub calls : List Call

-- `next` goes on with the round, `again` is `continue`, `done` is `return`.
pub data Turn : Type 0 where
  next again done : Client → Turn
  crashed : Turn

abbrev pub shell_prompt : Bytes → Bytes
shell_prompt name = name ++ codes " >> "

unfoldable pub closed : Client → Client
closed c = record c { calls = close c.to_server ∷ close c.from_server ∷ c.calls }

-- The `switch`, on the bytes that are sent.
unfoldable pub client_command : Option Command → Bytes → Client → Turn
unfolding closed
client_command none bytes c = crashed
client_command (some exit) bytes c =
    done (closed (record c { calls = write c.to_server bytes ∷ c.calls }))
client_command (some seg) bytes c = crashed
client_command (some list) bytes c = next (record c {
  calls = print (shell_prompt c.name) ∷ write c.to_server bytes ∷ c.calls;
  buf = cleared;
})
client_command (some kick) bytes c = next (record c {
  calls = print (shell_prompt c.name) ∷ write c.to_server bytes ∷ c.calls;
  buf = cleared;
})
client_command (some p2p) bytes c = next (record c {
  calls = print (shell_prompt c.name) ∷ write c.to_server bytes ∷ c.calls;
  buf = cleared;
})
client_command (some broadcast) bytes c = next (record c {
  calls = print (shell_prompt c.name) ∷ write c.to_server bytes ∷ c.calls;
  buf = cleared;
})

-- After a read of 0 bytes `nbytes - 1` is -1, and the `write` reads past the buffer.
unfoldable pub client_send : ℕ → Option Command → Bytes → Client → Turn
unfolding client_command
client_send zero type buf c = crashed
client_send (suc n) type buf c = client_command type (take n buf) c

-- The text of the buffer after a read of `nbytes`: the newline at its end is overwritten by a NUL.
unfoldable pub client_text : ℕ → Bytes → Client → Turn
unfolding last_byte get_command_type client_send
client_text nbytes [] c = crashed
client_text nbytes (x ∷ text) c =
    if last_byte x text == 10
    then if length text == 0
      then again (record c { calls = print (shell_prompt c.name) ∷ c.calls })
      else client_send nbytes (get_command_type (take (length text) (x ∷ text)))
          (overwrite (take (length text) (x ∷ text) ++ 0 ∷ []) c.buf) c
    else client_send nbytes (get_command_type (x ∷ text)) c.buf c

-- A line from the terminal: `none` is -1.
unfoldable pub client_input : Option Bytes → Client → Turn
unfolding c_string client_text
client_input none c = next c
client_input (some bytes) c = elim (c_string (overwrite bytes c.buf)) [
  | none ↦ crashed
  | some text ↦ client_text (length bytes) text (record c { buf = overwrite bytes c.buf })
]

-- What the server sent: an end of file ends the client.
unfoldable pub client_output : Option Bytes → Client → Turn
unfolding closed
client_output none c = next c
client_output (some []) c = done (
    closed (record c { calls = write (pos 1) (codes "The server process seems dead\n") ∷ c.calls }))
client_output (some (x ∷ bytes)) c = next (record c {
  calls =
      print (shell_prompt c.name)
      ∷ write (pos 1) (codes "\n")
      ∷ write (pos 1) (x ∷ bytes)
      ∷ write (pos 1) (codes "\n")
      ∷ c.calls;
  buf = cleared;
})

unfoldable pub client_round : Option Bytes → Option Bytes → Client → Turn
unfolding client_input client_output
client_round typed sent c = elim (client_input typed c) [
  | next c' ↦ client_output sent c'
  | again c' ↦ again c'
  | done c' ↦ done c'
  | crashed ↦ crashed
]
