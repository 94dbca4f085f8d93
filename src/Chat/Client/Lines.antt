-- ===== src/Chat/Client/Lines.antt =====
-- A line through `main` of `Project 2 - Server/client.c`: what the user types, and what the server
-- sends.
use operating_systems.Common.{
  take-length-append, ℕ, suc, ◌<◌, ◌≡◌, refl, ◌∙◌, ap, false, some, [], ◌∷◌, ◌++◌, ◌==◌, length,
  length-append, take, drop, arith, All-append, append_assoc,
}
use operating_systems.CText.{Bytes, codes}
use operating_systems.Numbers.{pos}
use operating_systems.Chat.Command.{p2p, get_command_type}
use operating_systems.Chat.Server.{write, print}
use operating_systems.Chat.Connect.{overwrite, c_string, cleared}
use operating_systems.Chat.Loop.Buffer.{NoNul, c_string-cleared, last_byte-append}
use operating_systems.Chat.Client.{
  Client, Turn, client_command, client_send, client_text, client_input, client_output, shell_prompt,
}

length-newline : (s : Bytes) → length (s ++ 10 ∷ []) ≡ suc (length s)
length-newline s = length-append s (10 ∷ []) ∙ omega arith

-- The newline at the end of a line is not sent.
client_text-line :
    (n x : ℕ) (s : Bytes) (c : Client)
    → client_text n (x ∷ (s ++ 10 ∷ [])) c
      ≡ client_send n (get_command_type (x ∷ s)) (overwrite ((x ∷ s) ++ 0 ∷ []) c.buf) c
unfolding client_text
client_text-line n x s c =
    rw (last_byte-append x 10 s, nonzero, client_text)
      (ap (λ t. client_send n (get_command_type t) (overwrite (t ++ 0 ∷ []) c.buf) c) cut)
  where
    nonzero : (length (s ++ 10 ∷ []) == 0) ≡ false
    nonzero = ground (arith, length-newline s)

    cut : take (length (s ++ 10 ∷ [])) (x ∷ (s ++ 10 ∷ [])) ≡ x ∷ s
    cut =
        ap (λ k. take k (x ∷ (s ++ 10 ∷ []))) (length-newline s)
        ∙ ap (◌∷◌ x) (take-length-append s (10 ∷ []))

-- What a line that is neither \\exit nor \\seg makes of the client.
abbrev pub line_sent : Bytes → Client → Client
line_sent line c = record c {
  calls = print (shell_prompt c.name) ∷ write c.to_server line ∷ c.calls;
  buf = cleared;
}

client_send-p2p :
    (line rest : Bytes) (c : Client)
    → client_send (suc (length line)) (some p2p) (line ++ rest) c ≡ Turn.next (line_sent line c)
unfolding client_send client_command
client_send-p2p line rest c =
    ap (λ bytes. client_command (some p2p) bytes c) (take-length-append line rest)

-- A line that the user types is sent without its newline.
pub client_input-line :
    (x : ℕ) (s : Bytes) (c : Client)
    → NoNul (x ∷ s)
    → length (x ∷ s) < 255
    → c.buf ≡ cleared
    → get_command_type (x ∷ s) ≡ some p2p
    → client_input (some ((x ∷ s) ++ 10 ∷ [])) c ≡ Turn.next (line_sent (x ∷ s) c)
unfolding client_input
client_input-line x s c h short e type =
    rw (read, client_input)
      (client_text-line (length (x ∷ (s ++ 10 ∷ []))) x s
          (record c { buf = overwrite (x ∷ (s ++ 10 ∷ [])) c.buf })
        ∙ ap
            (λ t.
              client_send (length (x ∷ (s ++ 10 ∷ []))) t
                (overwrite ((x ∷ s) ++ 0 ∷ []) (overwrite (x ∷ (s ++ 10 ∷ [])) c.buf))
                (record c { buf = overwrite (x ∷ (s ++ 10 ∷ [])) c.buf }))
            type
        ∙ sent (drop (length ((x ∷ s) ++ 0 ∷ [])) (overwrite (x ∷ (s ++ 10 ∷ [])) c.buf)))
  where
    sent :
        (rest : Bytes)
        → client_send
            (length (x ∷ (s ++ 10 ∷ [])))
            (some p2p)
            (((x ∷ s) ++ 0 ∷ []) ++ rest)
            (record c { buf = overwrite (x ∷ (s ++ 10 ∷ [])) c.buf })
          ≡ Turn.next (line_sent (x ∷ s) c)
    sent rest =
        ap
          (λ n.
            client_send (suc n) (some p2p) (((x ∷ s) ++ 0 ∷ []) ++ rest)
              (record c { buf = overwrite (x ∷ (s ++ 10 ∷ [])) c.buf }))
          (length-newline s)
        ∙ ap
            (λ b.
              client_send (suc (suc (length s))) (some p2p) b
                (record c { buf = overwrite (x ∷ (s ++ 10 ∷ [])) c.buf }))
            (append_assoc (x ∷ s) (0 ∷ []) rest)
        ∙ client_send-p2p (x ∷ s) (0 ∷ rest)
            (record c { buf = overwrite (x ∷ (s ++ 10 ∷ [])) c.buf })

    read : c_string (overwrite ((x ∷ s) ++ 10 ∷ []) c.buf) ≡ some ((x ∷ s) ++ 10 ∷ [])
    read =
        ap (λ b. c_string (overwrite ((x ∷ s) ++ 10 ∷ []) b)) e
        ∙ c_string-cleared ((x ∷ s) ++ 10 ∷ [])
            (h.0, All-append (λ c'. (c' == 0) ≡ false) s (10 ∷ []) h.1 (refl, tt))
            (omega (arith, short, length-newline (x ∷ s)))

-- What a text from the server makes of the client.
abbrev pub line_shown : Bytes → Client → Client
line_shown bytes c = record c {
  calls =
      print (shell_prompt c.name)
      ∷ write (pos 1) (codes "\n")
      ∷ write (pos 1) bytes
      ∷ write (pos 1) (codes "\n")
      ∷ c.calls;
  buf = cleared;
}

pub client_output-append :
    (s : Bytes) (x : ℕ) (t : Bytes) (c : Client)
    → client_output (some (s ++ x ∷ t)) c ≡ Turn.next (line_shown (s ++ x ∷ t) c)
unfolding client_output
client_output-append [] x t c = refl
client_output-append (y ∷ s) x t c = refl
