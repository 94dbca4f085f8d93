-- ===== src/Chat/Connect.antt =====
-- The variables of `main` of `Project 2 - Server/server.c`, and what it does with a new connection.
-- What the system returns in a round is an argument of it. Buffers are modelled with what lies behind
-- the NUL.
use operating_systems.Common.{
  ℕ, zero, suc, Option, none, some, List, ◌∷◌, ◌++◌, if◌then◌else◌, drop, length, replicate,
}
use operating_systems.CText.{Bytes, codes, until_nul, has_char}
use operating_systems.Numbers.{ℤ, pos, negsuc, format_int}
use operating_systems.Chat.Users.{find_empty_slot, add_user, find_user_index}
use operating_systems.Chat.Server.{Call, write, close, print, Server, called}

-- Bytes written to the start of a buffer.
abbrev pub overwrite : Bytes → Bytes → Bytes
overwrite bytes buf = bytes ++ drop (length bytes) buf

-- The text that C reads of a buffer; `none` is a read past its end.
unfoldable pub c_string : Bytes → Option Bytes
unfolding until_nul has_char
c_string buf = if has_char 0 buf then some (until_nul buf) else none

-- The variables of `main`.
pub record Main : Type 0 where
  pub server : Server
  pub buf : Bytes
  pub user_id : Bytes
  pub childpid : ℤ

pub record Pipe : Type 0 where
  pub read_end : ℤ
  pub write_end : ℤ

-- A connection: what `get_connection` read as the id, the pipes between the child and the user, the
-- result of `fork`, and the pipes between the server and the child.
pub record Connection : Type 0 where
  pub id_bytes : Bytes
  pub child_reading : Pipe
  pub child_writing : Pipe
  pub forked : ℤ
  pub server_reading : Pipe
  pub server_writing : Pipe

-- What the calls of a round return. `none` is -1.
pub record Inputs : Type 0 where
  pub connection : Option Connection
  pub admin : Option Bytes
  pub from_user : ℕ → Option Bytes

-- `next` goes on with the round, `again` is `continue`, `child` is the new process that `fork` made.
pub data Outcome : Type 0 where
  next again exited : Main → Outcome
  child crashed : Outcome

abbrev pub and_then : Outcome → (Main → Outcome) → Outcome
and_then (next m) f = f m
and_then (again m) f = again m
and_then (exited m) f = exited m
and_then child f = child
and_then crashed f = crashed

abbrev pub prompt : Bytes
prompt = codes "admin >> "

abbrev pub cleared : Bytes
cleared = replicate 256 0

-- The calls that end a branch: `memset` of `buf` and the prompt.
abbrev pub prompted : Server → Main → Main
prompted s m = record m { server = called (print prompt) s; buf = cleared }

-- The ends that the parent does not use.
abbrev pub parent_closes : Connection → List Call → List Call
parent_closes c calls =
    close c.child_writing.write_end
    ∷ close c.child_reading.read_end
    ∷ close c.server_writing.read_end
    ∷ close c.server_reading.write_end
    ∷ calls

-- The branch of the parent after `fork`.
unfoldable pub parent_connected : Main → Bytes → Connection → ℕ → Outcome
unfolding add_user
parent_connected m id c idx =
    elim (add_user idx m.server.users c.forked id c.server_writing.write_end
      c.server_reading.read_end) [
        | none ↦ crashed
        | some added ↦ next (record {
          server = called (print prompt) (
              called
                (write (pos 1) (
                  codes "\nA new user: "
                  ++ id
                  ++ codes " connected. slot:"
                  ++ format_int idx
                  ++ codes "\n"))
                (record { users = added; calls = parent_closes c m.server.calls }));
          buf = cleared;
          user_id = m.user_id;
          childpid = c.forked;
        })
      ]

-- The new process has 0; a `fork` that fails has -1, and the parent goes on all the same.
unfoldable pub forked_as : ℤ → Outcome → Outcome
forked_as (pos zero) parent = child
forked_as (pos (suc pid)) parent = parent
forked_as (negsuc k) parent = parent

unfoldable pub connected : Main → Bytes → Connection → ℕ → Outcome
unfolding parent_connected forked_as
connected m id c idx = forked_as c.forked (parent_connected m id c idx)

-- A connection with the id of the buffer.
unfoldable pub admit : Main → Connection → Outcome
unfolding c_string find_empty_slot find_user_index connected
admit m c = elim (find_empty_slot m.server.users) [
  | none ↦ next (record m { server = called (print prompt) m.server })
  | some idx ↦ elim (c_string m.user_id) [
    | none ↦ crashed
    | some id ↦ elim (find_user_index m.server.users id) [
      | some other ↦ next (record m { server = called (print prompt) m.server })
      | none ↦ connected m id c idx
    ]
  ]
]

unfoldable pub connect : Option Connection → Main → Outcome
unfolding admit
connect none m = next m
connect (some c) m =
    admit
      (record m {
        server =
            called (close c.child_writing.read_end)
              (called (close c.child_reading.write_end) m.server);
        user_id = overwrite c.id_bytes m.user_id;
      })
      c
