-- ===== src/Chat/Loop/Survives.antt =====
-- Rounds of `main` of `Project 2 - Server/server.c` on inputs that overflow no array.
use operating_systems.Common.{
  ℕ, suc, ◌≤◌, ◌<◌, ◌≡◌, ◌≢◌, refl, ◌∙◌, sym, ap, subst, false, Option, none, some, [], ◌∷◌, ◌++◌,
  ◌==◌, length, length-append, take, take-length-append, replicate, arith, All-append, Option-cases,
  inl, inr, ◌⊎◌,
}
use operating_systems.CText.{Bytes, tokens, is_space}
use operating_systems.Chat.Users.{find_user_index}
use operating_systems.Chat.Command.{
  Command, list, kick, p2p, seg, exit, broadcast, Extracted, extracted, missing, overrun,
  get_command_type,
}
use operating_systems.Chat.Server.{Os, Server}
use operating_systems.Chat.Connect.{
  overwrite, c_string, Main, Connection, Inputs, Outcome, and_then, prompted, cleared, next, again,
  exited, child, crashed,
}
use operating_systems.Chat.Loop.{last_byte, admin_kick, admin_command, admin_text, admin_round}
use operating_systems.Chat.Loop.Buffer.{NoNul, c_string-cleared, last_byte-append}
use operating_systems.Chat.Loop.Polite.{
  HasShortIds, IsPolite, Stays, get_command_type-IsPolite, extract_name-Stays,
  kick_user-HasShortIds,
}
use operating_systems.Chat.Loop.Answers.{list_users_all}

-- The buffer is cleared, or holds the newline of an empty line.
abbrev pub Cleared : Bytes → Type 0
Cleared buf = (buf ≡ cleared) ⊎ (buf ≡ 10 ∷ replicate 255 0)

-- What a round leaves.
pub record IsSteady (m : Main) : Type 0 where
  pub ids : HasShortIds m.server.users
  pub buffer : Cleared m.buf

-- The server does not crash.
abbrev pub Survives : Outcome → Type 0
Survives (next m) = IsSteady m
Survives (again m) = IsSteady m
Survives (exited m) = Unit
Survives child = Unit
Survives crashed = ⊥

-- The administrator types nothing, an empty line, or a polite one.
pub data IsTyped : Option Bytes → Type 0 where
  nothing : IsTyped none
  newline : IsTyped (some (10 ∷ []))
  line : (t : Bytes) → IsPolite t → IsTyped (some (t ++ 10 ∷ []))

-- A user sends nothing (the `read` fails), or a polite message; the end of the file, a `read` of no
-- bytes, is neither here nor above, since the server crashes on it.
pub data IsSent : Option Bytes → Type 0 where
  silent : IsSent none
  message : (t : Bytes) → IsPolite t → IsSent (some t)

-- Whoever connects has an id of at most 22 bytes.
pub data HasShortId : Option Connection → Type 0 where
  no_one : HasShortId none
  connects :
      (c : Connection) (id rest : Bytes)
      → c.id_bytes ≡ id ++ 0 ∷ rest
      → NoNul id
      → length id ≤ 22
      → HasShortId (some c)

pub record IsOrderly (inputs : Inputs) : Type 0 where
  pub connection_short : HasShortId inputs.connection
  pub admin_typed : IsTyped inputs.admin
  pub users_sent : (i : ℕ) → IsSent (inputs.from_user i)

pub and_then-Survives :
    (o : Outcome) (f : Main → Outcome)
    → Survives o
    → ((m : Main) → IsSteady m → Survives (f m))
    → Survives (and_then o f)
and_then-Survives (next m) f h k = k m h
and_then-Survives (again m) f h k = h
and_then-Survives (exited m) f h k = h
and_then-Survives child f h k = tt
and_then-Survives crashed f h k = h

-- What is read into such a buffer is the text.
pub c_string-read :
    (t buf : Bytes)
    → Cleared buf
    → NoNul t
    → t ≢ []
    → length t < 256
    → c_string (overwrite t buf) ≡ some t
c_string-read [] buf h nul ne short = absurd (ne refl)
c_string-read (x ∷ t) buf (inl e) nul ne short =
    ap (λ b. c_string (overwrite (x ∷ t) b)) e ∙ c_string-cleared (x ∷ t) nul short
c_string-read (x ∷ t) buf (inr e) nul ne short =
    ap (λ b. c_string (overwrite (x ∷ t) b)) e ∙ c_string-cleared (x ∷ t) nul short

pub prompted-Survives :
    (s s' : Server) (m : Main) → HasShortIds s.users → s'.users ≡ s.users → IsSteady (prompted s' m)
prompted-Survives s s' m h e = record { ids = subst HasShortIds (sym e) h; buffer = inl refl }

admin_kick-Survives :
    (os : Os) (x : Extracted) (m : Main)
    → HasShortIds m.server.users
    → Stays (λ s. Unit) x
    → Survives (admin_kick os x m)
unfolding admin_kick
admin_kick-Survives os overrun m h k = k
admin_kick-Survives os missing m h k = record { ids = h; buffer = inl refl }
admin_kick-Survives os (extracted name) m h k =
    elim (Option-cases (find_user_index m.server.users name)) [
      | inl e ↦ rw (e, admin_kick) (record { ids = h; buffer = inl refl })
      | inr (i, e) ↦
          rw (e, admin_kick)
            (record { ids = kick_user-HasShortIds os i m.server h; buffer = inl refl })
    ]

admin_command-Survives :
    (os : Os) (c : Command) (t : Bytes) (m : Main)
    → HasShortIds m.server.users
    → IsPolite t
    → Survives (admin_command os (some c) t m)
unfolding admin_command
admin_command-Survives os list t m h p =
    let (s, e, same) = list_users_all m.server h in
    rw (e, admin_command) (prompted-Survives m.server s m h same)
admin_command-Survives os kick t m h p = admin_kick-Survives os _ m h (extract_name-Stays t p)
admin_command-Survives os exit t m h p = tt
admin_command-Survives os p2p t m h p = record { ids = h; buffer = inl refl }
admin_command-Survives os seg t m h p = record { ids = h; buffer = inl refl }
admin_command-Survives os broadcast t m h p = record { ids = h; buffer = inl refl }

pub nonempty : (t : Bytes) → IsPolite t → t ≢ []
unfolding tokens
nonempty t p e = p.some_word (ap (tokens is_space) e)

-- A line that ends in a newline, without it.
admin_text-line :
    (os : Os) (x : ℕ) (s : Bytes) (m : Main)
    → admin_text os (x ∷ (s ++ 10 ∷ [])) m ≡ admin_command os (get_command_type (x ∷ s)) (x ∷ s) m
unfolding admin_text
admin_text-line os x s m =
    rw (last_byte-append x 10 s, nonzero, admin_text)
      (ap (λ t. admin_command os (get_command_type t) t m) cut)
  where
    longer : length (s ++ 10 ∷ []) ≡ suc (length s)
    longer = length-append s (10 ∷ []) ∙ omega arith

    nonzero : (length (s ++ 10 ∷ []) == 0) ≡ false
    nonzero = ground (arith, longer)

    cut : take (length (s ++ 10 ∷ [])) (x ∷ (s ++ 10 ∷ [])) ≡ x ∷ s
    cut = ap (λ k. take k (x ∷ (s ++ 10 ∷ []))) longer ∙ ap (◌∷◌ x) (take-length-append s (10 ∷ []))

admin_line-Survives :
    (os : Os) (t : Bytes) (m : Main)
    → HasShortIds m.server.users
    → IsPolite t
    → Survives (admin_text os (t ++ 10 ∷ []) m)
admin_line-Survives os [] m h p = absurd (nonempty [] p refl)
admin_line-Survives os (x ∷ s) m h p =
    let (c, e) = get_command_type-IsPolite (x ∷ s) p in
    subst Survives (sym (admin_text-line os x s m ∙ ap (λ o. admin_command os o (x ∷ s) m) e))
      (admin_command-Survives os c (x ∷ s) m h p)

newline_kept : (buf : Bytes) → Cleared buf → overwrite (10 ∷ []) buf ≡ 10 ∷ replicate 255 0
newline_kept buf (inl e) = ap (overwrite (10 ∷ [])) e
newline_kept buf (inr e) = ap (overwrite (10 ∷ [])) e

pub admin_round-Survives :
    (os : Os) (b : Option Bytes) (m : Main) → IsSteady m → IsTyped b → Survives (admin_round os b m)
unfolding admin_round admin_text last_byte
admin_round-Survives os none m st nothing = st
admin_round-Survives os (some _) m st newline =
    rw (c_string-read (10 ∷ []) m.buf st.buffer (refl, tt) (λ e. cc) (omega arith), admin_round)
      (record { ids = st.ids; buffer = inr (newline_kept m.buf st.buffer) })
admin_round-Survives os (some _) m st (line t p) =
    rw (c_string-read (t ++ 10 ∷ []) m.buf st.buffer no_nul some_byte short, admin_round)
      (admin_line-Survives os t (record m { buf = overwrite (t ++ 10 ∷ []) m.buf }) st.ids p)
  where
    no_nul : NoNul (t ++ 10 ∷ [])
    no_nul = All-append (λ c. (c == 0) ≡ false) t (10 ∷ []) p.no_nul (refl, tt)

    some_byte : t ++ 10 ∷ [] ≢ []
    some_byte e = omega (arith, length-append t (10 ∷ []), ap (λ (x : Bytes). length x) e)

    short : length (t ++ 10 ∷ []) < 256
    short = omega (arith, length-append t (10 ∷ []), p.fits)
