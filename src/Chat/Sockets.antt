-- ===== src/Chat/Sockets.antt =====
-- `connect_to_server`, `setup_connection`, `get_connection`, `send_fd` and `recv_fd` of
-- `Project 2 - Server/comm.c`: the calls of the system in their order, and the result. The one
-- connection point is PIERRE_DEREK_JACK, so the path of the socket fits every array.
pub mod Errors
use operating_systems.Common.{
  ℕ, zero, suc, ◌≡◌, Bool, true, false, not, ◌&&◌, ◌||◌, List, [], ◌∷◌, if◌then◌else◌, take,
}
use operating_systems.CText.{Bytes, codes}
use operating_systems.Numbers.{ℤ, pos, negsuc}

pub data Action : Type 0 where
  socket pipe : Action
  connect_to unlink : Bytes → Action
  bind : ℤ → Bytes → Action
  listen accept set_nonblocking recvmsg sendmsg read_id close : ℤ → Action
  write_id : ℤ → Bytes → Action

-- The result of the newest of the calls so far, -1 for a failure, and whether `errno` is ENOENT then.
pub record Kernel : Type 0 where
  pub result : List Action → ℤ
  pub no_entry : List Action → Bool

-- The calls, newest first, and whether the function returns 0; otherwise it returns -1.
abbrev pub Reply : Type 0
Reply = List Action × Bool

abbrev pub socket_path : Bytes
socket_path = codes "/tmp/PIERRE_DEREK_JACK.socket"

abbrev pub is_failure : ℤ → Bool
is_failure (pos n) = false
is_failure (negsuc n) = true

-- A call with the test of its result.
unfoldable pub attempt : Kernel → Action → (List Action → Reply) → List Action → Reply
attempt os a go_on calls =
    if is_failure (os.result (a ∷ calls)) then (a ∷ calls, false) else go_on (a ∷ calls)

unfoldable pub recv_fd : Kernel → ℤ → (List Action → Reply) → List Action → Reply
unfolding attempt
recv_fd os fd go_on = attempt os (recvmsg fd) go_on

-- A failure is only printed.
unfoldable pub send_fd : Kernel → ℤ → (List Action → Reply) → List Action → Reply
send_fd os fd go_on calls = go_on (sendmsg fd ∷ calls)

-- `user_id` is the argument of the client with what lies behind it, of which 32 bytes are written.
unfoldable pub connect_to_server : Kernel → Bytes → Reply
unfolding attempt recv_fd
connect_to_server os user_id =
    let fd = os.result (socket ∷ []) in
    attempt os socket
      (attempt os (connect_to socket_path) (
        attempt os (write_id fd (take 32 user_id))
          (recv_fd os fd (recv_fd os fd (λ calls. (close fd ∷ calls, true))))))
      []

-- A failed `unlink` is no error if there was no file.
unfoldable pub unlinked : Kernel → (List Action → Reply) → List Action → Reply
unlinked os go_on calls =
    if is_failure (os.result (unlink socket_path ∷ calls))
      && not (os.no_entry (unlink socket_path ∷ calls))
    then (unlink socket_path ∷ calls, false)
    else go_on (unlink socket_path ∷ calls)

-- At its end the function has no `return`; `main` does not look at the result.
unfoldable pub setup_connection : Kernel → Reply
unfolding attempt unlinked
setup_connection os =
    let fd = os.result (socket ∷ []) in
    attempt os socket
      (unlinked os (
        attempt os (bind fd socket_path)
          (attempt os (listen fd) (λ calls. (set_nonblocking fd ∷ calls, true)))))
      []

-- A connection on the socket `g_sfd`: two pipes are made and sent, and the id is read.
unfoldable pub get_connection : Kernel → ℤ → Reply
unfolding attempt send_fd
get_connection os g_sfd =
    let cfd = os.result (accept g_sfd ∷ []) in
    attempt os (accept g_sfd)
      (attempt os pipe (
        attempt os pipe (
          send_fd os cfd
            (send_fd os cfd (attempt os (read_id cfd) (λ calls. (close cfd ∷ calls, true)))))))
      []
