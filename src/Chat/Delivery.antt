-- ===== src/Chat/Delivery.antt =====
-- The way of a message through the processes of `Project 2 - Server`: the client of the sender, its
-- relay, the server, the relay of the receiver, and the receiver's client.
use operating_systems.Common.{
  ℕ, ◌<◌, ◌≡◌, ◌≢◌, refl, ◌∙◌, ap, true, false, some, List, [], ◌∷◌, ◌++◌, ltb, ◌==◌, length,
  get_elem?, set, arith,
}
use operating_systems.CText.{Bytes, codes, tokens, is_space, str_eq}
use operating_systems.CText.Words.{IsWord}
use operating_systems.Numbers.{ℤ, pos}
use operating_systems.Chat.Users.{User, empty_slot, find_user_index}
use operating_systems.Chat.Server.Kick.{first_close, kick_user_closed}
use operating_systems.Chat.Command.{
  p2p, exit, parse_line, first_word_type, find_command_type, get_command_type, extracted,
  extract_name, extract_text,
}
use operating_systems.Chat.Command.Format.{command_text, extract-command_text}
use operating_systems.Chat.Server.{Call, write, close, Os, Server, called, relay_p2p, send_p2p_msg}
use operating_systems.Chat.Connect.{Main, next, overwrite, cleared, prompted}
use operating_systems.Chat.Loop.{user_command, user_text, user_exit, poll_user}
use operating_systems.Chat.Loop.Buffer.{NoNul, c_string-cleared}
use operating_systems.Chat.Client.Lines.{
  line_sent, client_input-line, line_shown, client_output-append,
}
use operating_systems.Chat.Client.{relay_up, relay_down, Client, Turn, client_input, client_output}

-- The part of `poll_user` behind the buffer.
poll_user_text :
    (os : Os) (i : ℕ) (u : User) (text : Bytes) (m : Main)
    → NoNul text
    → length text < 256
    → m.buf ≡ cleared
    → poll_user os i u (some text) m
      ≡ user_command os i u (get_command_type text) text (record m { buf = overwrite text m.buf })
unfolding poll_user user_text
poll_user_text os i u text m h short e = rw (e, c_string-cleared text h short) refl

-- The answer of `send_p2p_msg` to a command whose parts are found.
send_p2p_found :
    (idx index : ℕ) (sender receiver : User) (buf name message : Bytes) (s : Server)
    → extract_name buf ≡ extracted name
    → extract_text buf ≡ extracted message
    → find_user_index s.users name ≡ some index
    → index ≢ idx
    → get_elem? s.users index ≡ some receiver
    → length (sender.m_user_id ++ 58 ∷ message) < 256
    → send_p2p_msg idx sender buf s
      ≡ some (called (write receiver.m_fd_to_user (sender.m_user_id ++ 58 ∷ message)) s)
unfolding send_p2p_msg
send_p2p_found idx index sender receiver buf name message s e f g ne slot short =
    rw (e, g, differs, f, slot, send_p2p_msg) (unfold relay_p2p in rw (fits, relay_p2p) refl)
  where
    differs : (index == idx) ≡ false
    differs = ground arith

    fits : ltb (length (sender.m_user_id ++ 58 ∷ message)) 256 ≡ true
    fits = ground arith

user_command-p2p :
    (os : Os) (idx : ℕ) (sender : User) (line buf : Bytes) (m : Main) (s : Server)
    → send_p2p_msg idx sender line (called (write (pos 1) (codes "\np2p\n")) m.server) ≡ some s
    → user_command os idx sender (some p2p) line (record m { buf = buf }) ≡ next (prompted s m)
unfolding user_command
user_command-p2p os idx sender line buf m s e = rw (e, user_command) refl

-- The line of a private message.
abbrev pub p2p_line : Bytes → Bytes → Bytes
p2p_line name message = command_text (codes "\\p2p") name message

p2p-IsWord : IsWord is_space (codes "\\p2p")
unfolding is_space
p2p-IsWord = (λ e. cc, (refl, (refl, (refl, (refl, tt)))))

p2p_type : find_command_type (codes "\\p2p") ≡ p2p
unfolding find_command_type str_eq
p2p_type = refl

-- The user of the client `c` types \p2p, the name of the user in another slot, and a message of one to
-- 13 words, with single spaces between the three, in a line without NUL that fits the buffers, as does
-- the text that is sent; and the client `c` and the server have cleared buffers. Then the client sends
-- the line to its relay, which passes it on; the server writes the sender's id, a colon and the message
-- to the receiver, and nothing else but a line on its terminal and the prompt; the receiver's relay
-- passes that on, and the receiver's client shows it.
pub p2p_delivered :
    (os : Os) (idx index : ℕ) (sender receiver : User) (message word : Bytes) (words : List Bytes)
    (c d : Client) (m : Main) (to_server to_user : ℤ) (up down : List Call)
    → IsWord is_space receiver.m_user_id
    → length receiver.m_user_id < 32
    → tokens is_space message ≡ word ∷ words
    → length words < 13
    → NoNul (p2p_line receiver.m_user_id message)
    → length (p2p_line receiver.m_user_id message) < 255
    → length (sender.m_user_id ++ 58 ∷ message) < 256
    → find_user_index m.server.users receiver.m_user_id ≡ some index
    → index ≢ idx
    → get_elem? m.server.users index ≡ some receiver
    → c.buf ≡ cleared
    → m.buf ≡ cleared
    → let line = p2p_line receiver.m_user_id message in
      let delivered = sender.m_user_id ++ 58 ∷ message in
      (client_input (some (line ++ 10 ∷ [])) c ≡ Turn.next (line_sent line c))
      × (relay_up to_server (some line) up ≡ write to_server line ∷ up)
      × (poll_user os idx sender (some line) m
          ≡ next (
              prompted
                (called
                  (write receiver.m_fd_to_user delivered)
                  (called (write (pos 1) (codes "\np2p\n")) m.server))
                m))
      × (relay_down to_user (some delivered) down ≡ write to_user delivered ∷ down)
      × (client_output (some delivered) d ≡ Turn.next (line_shown delivered d))
unfolding relay_up relay_down
p2p_delivered os idx index sender receiver message word words c d m to_server to_user up down h fits
      e few nonul short long f ne slot cb mb =
    (
      client_input-line 92 (112 ∷ 50 ∷ 112 ∷ 32 ∷ (receiver.m_user_id ++ (32 ∷ message))) c nonul
          short cb type,
      refl,
      served,
      refl,
      client_output-append sender.m_user_id 58 message d,
    )
  where
    line : Bytes
    line = p2p_line receiver.m_user_id message

    parts :
        (get_command_type line ≡ some (find_command_type (codes "\\p2p")))
        × (extract_name line ≡ extracted receiver.m_user_id)
        × (extract_text line ≡ extracted message)
    parts =
        extract-command_text (codes "\\p2p") receiver.m_user_id message word words p2p-IsWord h fits
          e few

    type : get_command_type line ≡ some p2p
    type = parts.0 ∙ ap some p2p_type

    served :
        poll_user os idx sender (some line) m
        ≡ next (
            prompted
              (called
                (write receiver.m_fd_to_user (sender.m_user_id ++ 58 ∷ message))
                (called (write (pos 1) (codes "\np2p\n")) m.server))
              m)
    served =
        poll_user_text os idx sender line m nonul (omega (arith, short)) mb
        ∙ ap (λ t. user_command os idx sender t line (record m { buf = overwrite line m.buf })) type
        ∙ user_command-p2p os idx sender line (overwrite line m.buf) m
            (called (write receiver.m_fd_to_user (sender.m_user_id ++ 58 ∷ message))
              (called (write (pos 1) (codes "\np2p\n")) m.server))
            (send_p2p_found idx index sender receiver line receiver.m_user_id message
              (called (write (pos 1) (codes "\np2p\n")) m.server) parts.1 parts.2 f ne slot long)

-- The calls with the line that \exit of a user prints.
abbrev pub terminated : User → List Call → List Call
terminated u calls =
    write (pos 1) (codes "\nThe user: " ++ u.m_user_id ++ codes " seems to be terminated\n") ∷ calls

exit_type : get_command_type (codes "\\exit") ≡ some exit
unfolding get_command_type parse_line first_word_type find_command_type str_eq tokens is_space
exit_type = refl

-- When the client of the user in slot `i` has closed its pipe, the relay writes \exit, and the
-- server, with a cleared buffer, closes both pipes of the user and leaves the slot as
-- `init_user_list` makes it and the others as they were, if the calls of `close` succeed.
pub hang_up :
    (os : Os) (i : ℕ) (u : User) (m : Main) (to_server : ℤ) (up : List Call)
    → m.buf ≡ cleared
    → get_elem? m.server.users i ≡ some u
    → let before = terminated u m.server.calls in
      os (first_close u before) ≡ true
      → os (close u.m_fd_to_server ∷ first_close u before) ≡ true
      → (relay_up to_server (some []) up ≡ write to_server (codes "\\exit") ∷ up)
        × (poll_user os i u (some (codes "\\exit")) m
            ≡ next (
                prompted
                  (record {
                    users = set m.server.users i empty_slot;
                    calls = close u.m_fd_to_server ∷ first_close u (terminated u m.server.calls);
                  })
                  m))
unfolding relay_up
hang_up os i u m to_server up e slot ok_user ok_server = (
  refl,
  poll_user_text os i u (codes "\\exit") m (refl, (refl, (refl, (refl, (refl, tt))))) (omega arith)
        e
      ∙ ap
          (λ t.
            user_command os i u t (codes "\\exit")
              (record m { buf = overwrite (codes "\\exit") m.buf }))
          exit_type
      ∙ exited,
)
  where
    exited :
        user_command os i u
          (some exit)
          (codes "\\exit")
          (record m { buf = overwrite (codes "\\exit") m.buf })
        ≡ next (
            prompted
              (record {
                users = set m.server.users i empty_slot;
                calls = close u.m_fd_to_server ∷ first_close u (terminated u m.server.calls);
              })
              m)
    exited =
        unfold user_command user_exit in
        ap (λ s. next (prompted s m))
          (kick_user_closed os i u (record m.server { calls = terminated u m.server.calls }) slot
            ok_user ok_server)
