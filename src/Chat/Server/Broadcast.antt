-- ===== src/Chat/Server/Broadcast.antt =====
-- Whom `broadcast_msg` of `Project 2 - Server/server.c` reaches.
use operating_systems.Common.{
  ◌⊎◌, ℕ, suc, ◌+◌, ◌<◌, ◌≡◌, refl, true, false, Option, length, arith, List, [], ◌∷◌,
  if◌then◌else◌, take, Bool-cases, inl, inr,
}
use operating_systems.CText.{Bytes}
use operating_systems.Numbers.{ℤ}
use operating_systems.Chat.Users.{slot_full, slot_empty, User}
use operating_systems.Chat.Users.Lookup.{SlotStatus-cases}
use operating_systems.Chat.Server.{Call, write, Os, is_other, broadcast_from}

-- The pipes to the users in full slots from `i` on, but for the sender's slot.
abbrev pub receivers : List User → ℕ → Option ℕ → List ℤ
receivers [] i sender = []
receivers (u ∷ us) i sender =
    let rest = receivers us (i + 1) sender in
    elim u.m_status [
      | slot_empty ↦ rest
      | slot_full ↦ if is_other i sender then u.m_fd_to_user ∷ rest else rest
    ]

-- The calls after one `write` of the text to each of the pipes.
abbrev pub sent_to : Bytes → List ℤ → List Call → List Call
sent_to buf [] calls = calls
sent_to buf (fd ∷ fds) calls = sent_to buf fds (write fd buf ∷ calls)

-- Each of these calls of `write` succeeds.
abbrev pub AllSucceed : Os → Bytes → List ℤ → List Call → Type 0
AllSucceed os buf [] calls = Unit
AllSucceed os buf (fd ∷ fds) calls =
    (os (write fd buf ∷ calls) ≡ true) × AllSucceed os buf fds (write fd buf ∷ calls)

-- `broadcast_msg` writes the text once to each pipe of the other users, in the order of their slots:
-- either every `write` succeeds, it writes to all of them, and returns 0; or the first `k` succeed and
-- the next one fails, it writes to these `k + 1`, and returns -1.
pub broadcast_from_sends :
    (os : Os) (us : List User) (i : ℕ) (buf : Bytes) (sender : Option ℕ) (calls : List Call)
    → ((broadcast_from os us i buf sender calls ≡ (sent_to buf (receivers us i sender) calls, true))
        × AllSucceed os buf (receivers us i sender) calls)
      ⊎ ((k : ℕ) × (k < length (receivers us i sender))
          × (broadcast_from os us i buf sender calls
              ≡ (sent_to buf (take (suc k) (receivers us i sender)) calls, false))
          × AllSucceed os buf (take k (receivers us i sender)) calls
          × (os (sent_to buf (take (suc k) (receivers us i sender)) calls) ≡ false))
unfolding broadcast_from is_other
broadcast_from_sends os [] i buf sender calls = inl (refl, tt)
broadcast_from_sends os (u ∷ us) i buf sender calls = elim (SlotStatus-cases u.m_status) [
  | inl f ↦ elim (Bool-cases (is_other i sender)) [
    | inl g ↦ elim (Bool-cases (os (write u.m_fd_to_user buf ∷ calls))) [
      | inl h ↦
          elim (broadcast_from_sends os us (i + 1) buf sender (write u.m_fd_to_user buf ∷ calls)) [
            | inl (all, well) ↦
                inl (rw (f, g, h, broadcast_from, receivers) all, rw (f, g, receivers) (h, well))
            | inr (k, lt, some_sent, well, failed) ↦ inr (
              suc k,
              rw (f, g, receivers) (omega (arith, lt)),
              rw (f, g, h, broadcast_from, receivers) some_sent,
              rw (f, g, receivers) (h, well),
              rw (f, g, receivers) failed,
            )
          ]
      | inr h ↦ inr (
        0,
        rw (f, g, receivers) (omega arith),
        rw (f, g, h, broadcast_from, receivers) refl,
        tt,
        rw (f, g, receivers) h,
      )
    ]
    | inr g ↦ elim (broadcast_from_sends os us (i + 1) buf sender calls) [
      | inl (all, well) ↦ inl (rw (f, g, broadcast_from, receivers) all, rw (f, g, receivers) well)
      | inr (k, lt, some_sent, well, failed) ↦ inr (
        k,
        rw (f, g, receivers) lt,
        rw (f, g, broadcast_from, receivers) some_sent,
        rw (f, g, receivers) well,
        rw (f, g, receivers) failed,
      )
    ]
  ]
  | inr f ↦ elim (broadcast_from_sends os us (i + 1) buf sender calls) [
    | inl (all, well) ↦ inl (rw (f, broadcast_from, receivers) all, rw (f, receivers) well)
    | inr (k, lt, some_sent, well, failed) ↦ inr (
      k,
      rw (f, receivers) lt,
      rw (f, broadcast_from, receivers) some_sent,
      rw (f, receivers) well,
      rw (f, receivers) failed,
    )
  ]
]
