-- ===== src/Chat/Server/Listing.antt =====
-- The text of `list_users` of `Project 2 - Server/server.c`.
use operating_systems.Common.{
  ◌-◌, ◌≤◌, ◌<◌, ◌≡◌, ◌≢◌, refl, ◌∙◌, sym, ap, subst, true, false, some, List, [], ◌∷◌, ◌++◌, leb,
  ◌==◌, length, length-append, append_assoc, append-nil, take, take-length-append, arith, inl, inr,
}
use operating_systems.CText.{Bytes, codes}
use operating_systems.Chat.Users.{User, slot_full, slot_empty}
use operating_systems.Chat.Users.Lookup.{SlotStatus-cases}
use operating_systems.Chat.Server.{list_from, list_header, list_text}

-- A line for the id of every full slot.
abbrev pub id_lines : List User → Bytes
id_lines [] = []
id_lines (u ∷ us) =
    let rest = id_lines us in
    elim u.m_status [ slot_empty ↦ rest | slot_full ↦ 10 ∷ (u.m_user_id ++ rest) ]

abbrev pub title : Bytes
title = codes "---connected user list---"

lines_empty :
    (u : User) (us : List User) → u.m_status ≡ slot_empty → id_lines (u ∷ us) ≡ id_lines us
lines_empty u us f = rw f refl

lines_full :
    (u : User) (us : List User)
    → u.m_status ≡ slot_full
    → id_lines (u ∷ us) ≡ 10 ∷ (u.m_user_id ++ id_lines us)
lines_full u us f = rw f refl

from_empty :
    (u : User) (us : List User) (t : Bytes)
    → u.m_status ≡ slot_empty
    → list_from (u ∷ us) t ≡ list_from us t
unfolding list_from
from_empty u us t f = rw (f, list_from) refl

from_full :
    (u : User) (us : List User) (t : Bytes)
    → u.m_status ≡ slot_full
    → length (t ++ u.m_user_id ++ 10 ∷ []) ≤ 256
    → list_from (u ∷ us) t ≡ list_from us (t ++ u.m_user_id ++ 10 ∷ [])
unfolding list_from
from_full u us t f h = rw (f, fits, list_from) refl
  where
    fits : leb (length (t ++ u.m_user_id ++ 10 ∷ [])) 256 ≡ true
    fits = ground arith

from_none : (t : Bytes) → list_from [] t ≡ some t
unfolding list_from
from_none t = refl

-- The loop puts the lines behind the text.
loop_lines :
    (us : List User) (t : Bytes)
    → length (t ++ id_lines us) < 256
    → list_from us (t ++ 10 ∷ []) ≡ some ((t ++ id_lines us) ++ 10 ∷ [])
loop_lines [] t h = from_none (t ++ 10 ∷ []) ∙ ap (λ x. some (x ++ 10 ∷ [])) (sym (append-nil t))
loop_lines (u ∷ us) t h = elim (SlotStatus-cases u.m_status) [
  | inr f ↦
      from_empty u us (t ++ 10 ∷ []) f
      ∙ loop_lines us t (subst (λ x. length (t ++ x) < 256) (lines_empty u us f) h)
      ∙ ap (λ x. some ((t ++ x) ++ 10 ∷ [])) (sym (lines_empty u us f))
  | inl f ↦
      from_full u us (t ++ 10 ∷ []) f (fits f)
      ∙ ap (list_from us) longer
      ∙ loop_lines us (t ++ 10 ∷ u.m_user_id) (subst (λ x. length x < 256) (all f) h)
      ∙ ap (λ x. some (x ++ 10 ∷ [])) (sym (all f))
]
  where
    longer : (t ++ 10 ∷ []) ++ u.m_user_id ++ 10 ∷ [] ≡ (t ++ 10 ∷ u.m_user_id) ++ 10 ∷ []
    longer = ap (λ x. x ++ 10 ∷ []) (append_assoc t (10 ∷ []) u.m_user_id)

    all : u.m_status ≡ slot_full → t ++ id_lines (u ∷ us) ≡ (t ++ 10 ∷ u.m_user_id) ++ id_lines us
    all f =
        ap (λ x. t ++ x) (lines_full u us f) ∙ sym (append_assoc t (10 ∷ u.m_user_id) (id_lines us))

    fits : u.m_status ≡ slot_full → length ((t ++ 10 ∷ []) ++ u.m_user_id ++ 10 ∷ []) ≤ 256
    fits f = omega (
      arith,
      ap (λ (x : Bytes). length x) longer,
      length-append (t ++ 10 ∷ u.m_user_id) (10 ∷ []),
      length-append (t ++ 10 ∷ u.m_user_id) (id_lines us),
      ap (λ (x : Bytes). length x) (all f),
      h,
    )

nonempty_length : (s : Bytes) → s ≢ [] → 0 < length s
nonempty_length [] h = absurd (h refl)
nonempty_length (x ∷ s) h = omega arith

-- `list_users` shows the title and, on a line each, the ids of the full slots in the order of the
-- slots, without a newline at the end, if there is a full slot and the text fits the 256 bytes.
pub list_text_lines :
    (us : List User)
    → id_lines us ≢ []
    → length (title ++ id_lines us) < 256
    → list_text us ≡ some (title ++ id_lines us)
unfolding list_text
list_text_lines us some_full h =
    rw (loop_lines us title h, several, list_text)
      (ap (λ n. some (take n ((title ++ id_lines us) ++ 10 ∷ []))) one_less
        ∙ ap some (take-length-append (title ++ id_lines us) (10 ∷ [])))
  where
    several : (length ((title ++ id_lines us) ++ 10 ∷ []) == length list_header) ≡ false
    several =
        ground
          (arith, length-append (id_lines us) (10 ∷ []), nonempty_length (id_lines us) some_full)

    one_less : length ((title ++ id_lines us) ++ 10 ∷ []) - 1 ≡ length (title ++ id_lines us)
    one_less = omega (arith, length-append (title ++ id_lines us) (10 ∷ []))
