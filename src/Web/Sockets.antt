-- ===== src/Web/Sockets.antt =====
-- `init` and `accept_connection` of `Project 3 - Multithreaded Web Server/util.c`, and `main` of
-- `server.c` up to the start of the threads: the calls of the system in their order.
pub mod Start
use operating_systems.Common.{
  ℕ, zero, suc, ◌%◌, ◌^◌, Bool, true, false, List, [], ◌∷◌, if◌then◌else◌,
}
use operating_systems.CText.{Bytes}
use operating_systems.Numbers.{ℤ, pos, negsuc}
use operating_systems.Web.Config.{
  Config, Startup, usage, bad_port, bad_dispatchers, bad_workers, bad_queue, bad_cache, bad_path,
  started, startup,
}

pub data SocketCall : Type 0 where
  socket lock unlock : SocketCall
  setsockopt accept : ℤ → SocketCall
  bind : ℤ → ℕ → SocketCall
  listen : ℤ → ℕ → SocketCall

-- The result of the newest of the calls so far.
pub record CallResults : Type 0 where
  pub result : List SocketCall → ℤ

abbrev pub is_negative : ℤ → Bool
is_negative (pos n) = false
is_negative (negsuc n) = true

-- `x == -1`
abbrev pub is_error : ℤ → Bool
is_error (pos n) = false
is_error (negsuc zero) = true
is_error (negsuc (suc n)) = false

-- `init` sets `master_fd`, or ends the process with `exit(1)`. The calls stand newest first.
pub data Setup : Type 0 where
  ready : ℤ → List SocketCall → Setup
  exited : List SocketCall → Setup

-- A call with the test of its result.
unfoldable pub checked_call :
    CallResults → SocketCall → (List SocketCall → Setup) → List SocketCall → Setup
checked_call os a go_on calls =
    if is_error (os.result (a ∷ calls)) then exited (a ∷ calls) else go_on (a ∷ calls)

-- `htons` keeps 16 bits of the port.
unfoldable pub init : CallResults → ℕ → Setup
unfolding checked_call
init os port =
    let sd = os.result (socket ∷ []) in
    if is_negative sd
    then exited (socket ∷ [])
    else checked_call os (setsockopt sd)
        (checked_call os (bind sd (port % 2 ^ 16))
          (checked_call os (listen sd 20) (λ calls. ready sd calls)))
        (socket ∷ [])

-- `accept_connection`, with its result. That the mutex cannot be locked is only printed.
unfoldable pub accept_connection : CallResults → ℤ → List SocketCall × ℤ
accept_connection os master_fd =
    (unlock ∷ accept master_fd ∷ lock ∷ [], os.result (accept master_fd ∷ lock ∷ []))

-- How `main` comes to the start of the threads: the arguments are wrong, `init` ends the process, or
-- the server listens.
pub data Opening : Type 0 where
  stopped : Startup → Opening
  failed : List SocketCall → Opening
  listening : Config → ℤ → List SocketCall → Opening

unfoldable pub opened : Config → Setup → Opening
opened c (ready fd calls) = listening c fd calls
opened c (exited calls) = failed calls

unfoldable pub open_startup : CallResults → Startup → Opening
unfolding init opened
open_startup os (started c) = opened c (init os c.port)
open_startup os other = stopped other

-- `main` up to `initRequestQueue`.
unfoldable pub open_server : (Bytes → Bool) → CallResults → List Bytes → Opening
unfolding open_startup
open_server chdir_ok os argv = open_startup os (startup chdir_ok argv)
