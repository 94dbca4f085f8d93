-- ===== src/Chat/Loop/Polite.antt =====
-- Inputs on which no array of `Project 2 - Server/server.c` and `util.c` overflows.
use operating_systems.Common.{
  ℕ, ◌≤◌, ◌<◌, ◌≡◌, ◌≢◌, refl, ◌∙◌, Bool, true, false, some, List, [], ◌∷◌, ltb, get_elem?, set,
  length, length-set, arith, All, All-set, Bool-cases, Option-cases, inl, inr,
}
use operating_systems.CText.{Bytes, tokens, is_space, after}
use operating_systems.CText.Words.{length-after}
use operating_systems.Chat.Users.{User, cleaned, clean_slot}
use operating_systems.Chat.Command.{
  Command, parse_line, first_word_type, find_command_type, get_command_type, Extracted, extracted,
  missing, overrun, name_of, extract_name, text_of, extract_text,
}
use operating_systems.Chat.Server.{
  Call, Os, Server, kill_user, cleanup_entry, cleanup_user, kick_user,
}
use operating_systems.Chat.Loop.Buffer.{NoNul}

-- Ten slots, and ids of at most 22 bytes: so many that ten of them fit the list of the users.
pub record HasShortIds (us : List User) : Type 0 where
  pub ten : length us ≡ 10
  pub short : All (λ u. length u.m_user_id ≤ 22) us

-- The second word fits the array of an id.
abbrev SecondFits : List Bytes → Type 0
SecondFits [] = Unit
SecondFits (command ∷ []) = Unit
SecondFits (command ∷ name ∷ rest) = length name < 32

-- A message: one to 15 words, of which the second fits an id, in at most 232 bytes.
pub record IsPolite (t : Bytes) : Type 0 where
  pub no_nul : NoNul t
  pub fits : length t ≤ 232
  pub some_word : tokens is_space t ≢ []
  pub few_words : length (tokens is_space t) < 16
  pub second_fits : SecondFits (tokens is_space t)

parsed :
    (t : Bytes) (n : ℕ) → length (tokens is_space t) < n → parse_line n t ≡ some (tokens is_space t)
unfolding parse_line
parsed t n h = rw (fits, parse_line) refl
  where
    fits : ltb (length (tokens is_space t)) n ≡ true
    fits = ground (arith, h)

first_word : (ws : List Bytes) → ws ≢ [] → (c : Command) × (first_word_type (some ws) ≡ some c)
unfolding first_word_type
first_word [] h = absurd (h refl)
first_word (w ∷ ws) h = (find_command_type w, refl)

-- A message has a command.
pub get_command_type-IsPolite :
    (t : Bytes) → IsPolite t → (c : Command) × (get_command_type t ≡ some c)
unfolding get_command_type
get_command_type-IsPolite t h =
    rw (parsed t 128 (omega (arith, h.few_words))) (first_word (tokens is_space t) h.some_word)

-- Every result but an overrun.
abbrev pub Stays : (Bytes → Type 0) → Extracted → Type 0
Stays P (extracted s) = P s
Stays P missing = Unit
Stays P overrun = ⊥

name_of-Stays : (ws : List Bytes) → SecondFits ws → Stays (λ s. Unit) (name_of (some ws))
unfolding name_of
name_of-Stays [] h = tt
name_of-Stays (c ∷ []) h = tt
name_of-Stays (c ∷ name ∷ rest) h = ground (arith, h)

pub extract_name-Stays : (t : Bytes) → IsPolite t → Stays (λ s. Unit) (extract_name t)
unfolding extract_name
extract_name-Stays t h =
    rw (parsed t 16 h.few_words) (name_of-Stays (tokens is_space t) h.second_fits)

text_of-Stays :
    (t : Bytes) (ws : List Bytes) → Stays (λ s. length s ≤ length t) (text_of t (some ws))
unfolding text_of
text_of-Stays t [] = tt
text_of-Stays t (c ∷ []) = tt
text_of-Stays t (c ∷ name ∷ []) = tt
text_of-Stays t (c ∷ name ∷ w ∷ rest) =
    omega (arith, length-after is_space (after is_space t), length-after is_space t)

pub extract_text-Stays :
    (t : Bytes) → IsPolite t → Stays (λ s. length s ≤ length t) (extract_text t)
unfolding extract_text
extract_text-Stays t h = rw (parsed t 16 h.few_words) (text_of-Stays t (tokens is_space t))

-- A slot that `cleanup_user` leaves has no id.
cleaned-short : (a b : Bool) (u : User) → length (cleaned a b u).m_user_id ≤ 22
unfolding cleaned
cleaned-short false b u = omega arith
cleaned-short true false u = omega arith
cleaned-short true true u = omega arith

pub set-HasShortIds :
    (us : List User) (i : ℕ) (u : User)
    → HasShortIds us
    → length u.m_user_id ≤ 22
    → HasShortIds (set us i u)
set-HasShortIds us i u h short = record {
  ten = length-set us i u ∙ h.ten;
  short = All-set (λ u. length u.m_user_id ≤ 22) us i u h.short short;
}

clean_slot-HasShortIds :
    (a b : Bool) (i : ℕ) (us : List User) → HasShortIds us → HasShortIds (clean_slot a b i us)
unfolding clean_slot
clean_slot-HasShortIds a b i us h = elim (Option-cases (get_elem? us i)) [
  | inl e ↦ rw (e, clean_slot) h
  | inr (u, e) ↦ rw (e, clean_slot) (set-HasShortIds us i (cleaned a b u) h (cleaned-short a b u))
]

cleanup_entry-HasShortIds :
    (os : Os) (i : ℕ) (u : User) (s : Server)
    → HasShortIds s.users
    → HasShortIds (cleanup_entry os i u s).users
unfolding cleanup_entry
cleanup_entry-HasShortIds os i u s h =
    elim (Bool-cases (os (Call.close u.m_fd_to_user ∷ s.calls))) [
      | inl e ↦ rw (e, cleanup_entry) (clean_slot-HasShortIds true _ i s.users h)
      | inr e ↦ rw (e, cleanup_entry) (clean_slot-HasShortIds false false i s.users h)
    ]

cleanup_user-HasShortIds :
    (os : Os) (i : ℕ) (s : Server) → HasShortIds s.users → HasShortIds (cleanup_user os i s).users
unfolding cleanup_user
cleanup_user-HasShortIds os i s h = elim (Option-cases (get_elem? s.users i)) [
  | inl e ↦ rw (e, cleanup_user) h
  | inr (u, e) ↦ rw (e, cleanup_user) (cleanup_entry-HasShortIds os i u s h)
]

pub kick_user-HasShortIds :
    (os : Os) (i : ℕ) (s : Server) → HasShortIds s.users → HasShortIds (kick_user os i s).users
unfolding kick_user kill_user
kick_user-HasShortIds os i s h = elim (Option-cases (get_elem? s.users i)) [
  | inl e ↦ rw (e, kick_user) h
  | inr (u, e) ↦ rw (e, kick_user) (cleanup_user-HasShortIds os i (kill_user u s) h)
]
