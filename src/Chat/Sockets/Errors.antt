-- ===== src/Chat/Sockets/Errors.antt =====
-- What the results of `connect_to_server` and `get_connection` of `Project 2 - Server/comm.c` say of
-- their calls.
use operating_systems.Common.{
  ◌≡◌, refl, Bool, true, false, List, [], ◌∷◌, take, Bool-cases, inl, inr,
}
use operating_systems.CText.{Bytes}
use operating_systems.Numbers.{ℤ}
use operating_systems.Chat.Sockets.{
  Action, socket, pipe, connect_to, accept, recvmsg, sendmsg, read_id, close, write_id, Kernel,
  Reply, socket_path, is_failure, attempt, recv_fd, send_fd, connect_to_server, get_connection,
}

-- The results that are tested, and the calls that give a descriptor back.
abbrev pub checked : Action → Bool
checked (sendmsg fd) = false
checked _ = true

abbrev pub is_close : Action → Bool
is_close (close fd) = true
is_close _ = false

-- Every tested call succeeded, and nothing was closed.
abbrev pub AllWell : Kernel → List Action → Type 0
AllWell os [] = Unit
AllWell os (a ∷ calls) =
    (checked a ≡ true → is_failure (os.result (a ∷ calls)) ≡ false)
    × (is_close a ≡ false)
    × AllWell os calls

-- 0 after calls that all succeeded, and the `close` of `fd`; -1 after the first that failed.
pub data Stops (os : Kernel) (fd : ℤ) : Reply → Type 0 where
  good : (calls : List Action) → AllWell os calls → Stops os fd (close fd ∷ calls, true)
  bad :
      (a : Action) (calls : List Action)
      → AllWell os calls
      → is_failure (os.result (a ∷ calls)) ≡ true
      → is_close a ≡ false
      → Stops os fd (a ∷ calls, false)

module _ (os : Kernel) (fd : ℤ) where
  -- What follows stops well if everything before has succeeded.
  abbrev pub Continues : (List Action → Reply) → Type 0
  Continues go_on = (calls : List Action) → AllWell os calls → Stops os fd (go_on calls)

  attempt-Continues :
      {go_on : List Action → Reply} (a : Action)
      → is_close a ≡ false
      → Continues go_on
      → Continues (attempt os a go_on)
  unfolding attempt
  attempt-Continues a opens rest calls well =
      elim (Bool-cases (is_failure (os.result (a ∷ calls)))) [
        | inl e ↦ rw (e, attempt) (bad a calls well e opens)
        | inr e ↦ rw (e, attempt) (rest (a ∷ calls) (λ h. e, opens, well))
      ]

  send_fd-Continues :
      {go_on : List Action → Reply} (to : ℤ) → Continues go_on → Continues (send_fd os to go_on)
  unfolding send_fd
  send_fd-Continues to rest calls well = rest (sendmsg to ∷ calls) (λ h. absurd (cc), refl, well)

  recv_fd-Continues :
      {go_on : List Action → Reply} (to : ℤ) → Continues go_on → Continues (recv_fd os to go_on)
  unfolding recv_fd
  recv_fd-Continues to rest = attempt-Continues (recvmsg to) refl rest

connect_to_server-Stops :
    (os : Kernel) (user_id : Bytes)
    → Stops os (os.result (socket ∷ [])) (connect_to_server os user_id)
unfolding connect_to_server
connect_to_server-Stops os user_id =
    let fd = os.result (socket ∷ []) in
    attempt-Continues os fd socket refl
      (attempt-Continues os fd (connect_to socket_path) refl (
        attempt-Continues os fd (write_id fd (take 32 user_id)) refl (
          recv_fd-Continues os fd fd (recv_fd-Continues os fd fd (λ calls well. good calls well)))))
      [] tt

get_connection-Stops :
    (os : Kernel) (g_sfd : ℤ) → Stops os (os.result (accept g_sfd ∷ [])) (get_connection os g_sfd)
unfolding get_connection
get_connection-Stops os g_sfd =
    let cfd = os.result (accept g_sfd ∷ []) in
    attempt-Continues os cfd (accept g_sfd) refl
      (attempt-Continues os cfd pipe refl (
        attempt-Continues os cfd pipe refl (
          send_fd-Continues os cfd cfd (
            send_fd-Continues os cfd cfd
              (attempt-Continues os cfd (read_id cfd) refl (λ calls well. good calls well))))))
      [] tt

-- `connect_to_server` and `get_connection` return 0 only after every call whose result they test has
-- succeeded, and then they have closed their socket; they return -1 right after the first such call
-- that failed, and then they have closed nothing.
pub connections_stop :
    (os : Kernel) (user_id : Bytes) (g_sfd : ℤ)
    → Stops os (os.result (socket ∷ [])) (connect_to_server os user_id)
      × Stops os (os.result (accept g_sfd ∷ [])) (get_connection os g_sfd)
connections_stop os user_id g_sfd =
    (connect_to_server-Stops os user_id, get_connection-Stops os g_sfd)
