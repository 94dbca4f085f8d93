-- ===== src/Chat/Users/Lookup.antt =====
-- What `find_user_index` of `Project 2 - Server/server.c` finds after a user came or left.
use operating_systems.Common.{
  ◌⊎◌, ℕ, zero, suc, ◌+◌, ◌≤◌, ◌≡◌, ◌≢◌, refl, ◌∙◌, sym, subst, ap, false, none, some, List, [],
  ◌∷◌, if◌then◌else◌, set, arith, Bool-cases, inl, inr,
}
use operating_systems.CText.{Bytes, str_eq, str_eq_refl, str_eq_sound}
use operating_systems.Numbers.{ℤ}
use operating_systems.Chat.Users.{
  SlotStatus, slot_full, slot_empty, User, empty_from, find_empty_slot, add_user, user_from,
  find_user_index,
}

pub SlotStatus-cases : (x : SlotStatus) → (x ≡ slot_full) ⊎ (x ≡ slot_empty)
SlotStatus-cases slot_full = inl refl
SlotStatus-cases slot_empty = inr refl

-- The steps of the two loops.
pub empty_full :
    (x : User) (us : List User) (i : ℕ)
    → x.m_status ≡ slot_full
    → empty_from (x ∷ us) i ≡ empty_from us (i + 1)
unfolding empty_from
empty_full x us i e = rw (e, empty_from) refl

pub empty_empty :
    (x : User) (us : List User) (i : ℕ) → x.m_status ≡ slot_empty → empty_from (x ∷ us) i ≡ some i
unfolding empty_from
empty_empty x us i e = rw (e, empty_from) refl

pub user_empty :
    (x : User) (us : List User) (name : Bytes) (i : ℕ)
    → x.m_status ≡ slot_empty
    → user_from (x ∷ us) name i ≡ user_from us name (i + 1)
unfolding user_from
user_empty x us name i e = rw (e, user_from) refl

pub user_full :
    (x : User) (us : List User) (name : Bytes) (i : ℕ)
    → x.m_status ≡ slot_full
    → user_from (x ∷ us) name i
      ≡ (if str_eq x.m_user_id name then some i else user_from us name (i + 1))
unfolding user_from
user_full x us name i e = rw (e, user_from) refl

later : (i m : ℕ) → some i ≡ some (i + suc m) → {A : Type 0} → A
later i m e = absurd (ne (inj e))
  where
    inj : some i ≡ some (i + suc m) → i ≡ i + suc m
    inj e' = cc

    ne : i ≡ i + suc m → ⊥
    ne e' = omega (arith, e')

shift : (i m : ℕ) → some (i + suc m) ≡ some (i + 1 + m)
shift i m = ap some (omega arith)

pub taken : (i : ℕ) → some i ≡ none → {A : Type 0} → A
taken i e = absurd (cc)

-- The loop finds no index before its own.
empty_from_bound : (us : List User) (i k : ℕ) → empty_from us i ≡ some k → i ≤ k
unfolding empty_from
empty_from_bound [] i k e = absurd (cc)
empty_from_bound (x ∷ us) i k e = elim (SlotStatus-cases x.m_status) [
  | inl f ↦ omega (arith, empty_from_bound us (i + 1) k (sym (empty_full x us i f) ∙ e))
  | inr f ↦ at_most (inj (sym (empty_empty x us i f) ∙ e))
]
  where
    inj : some i ≡ some k → i ≡ k
    inj e' = cc

    at_most : i ≡ k → i ≤ k
    at_most e' = omega (arith, e')

early : (us : List User) (i : ℕ) → empty_from us (i + 1) ≡ some (i + 0) → ⊥
early us i e = omega (arith, empty_from_bound us (i + 1) (i + 0) e)

from_zero : (k : ℕ) → some k ≡ some (0 + k)
from_zero k = ap some (omega arith)

added_from :
    (us : List User) (u : User) (i m : ℕ)
    → u.m_status ≡ slot_full
    → empty_from us i ≡ some (i + m)
    → user_from us u.m_user_id i ≡ none
    → user_from (set us m u) u.m_user_id i ≡ some (i + m)
unfolding empty_from
added_from [] u i m full e free = absurd (cc)
added_from (x ∷ us) u i zero full e free =
    user_full u us u.m_user_id i full ∙ rw (str_eq_refl u.m_user_id) (ap some (omega arith))
added_from (x ∷ us) u i (suc m) full e free = elim (SlotStatus-cases x.m_status) [
  | inl f ↦ elim (Bool-cases (str_eq x.m_user_id u.m_user_id)) [
    | inl b ↦ taken i (sym (user_full x us u.m_user_id i f ∙ rw b refl) ∙ free)
    | inr b ↦
        user_full x (set us m u) u.m_user_id i f
        ∙ rw b (
            added_from us u (i + 1) m full (sym (empty_full x us i f) ∙ e ∙ shift i m)
              (sym (user_full x us u.m_user_id i f ∙ rw b refl) ∙ free)
            ∙ sym (shift i m))
  ]
  | inr f ↦ later i m (sym (empty_empty x us i f) ∙ e)
]

-- An entry that changes from empty to `u` does not change the search for another name.
other_from :
    (us : List User) (u : User) (name : Bytes) (i m : ℕ)
    → u.m_status ≡ slot_full
    → str_eq u.m_user_id name ≡ false
    → empty_from us i ≡ some (i + m)
    → user_from (set us m u) name i ≡ user_from us name i
other_from [] u name i m full ne e = refl
other_from (x ∷ us) u name i zero full ne e = elim (SlotStatus-cases x.m_status) [
  | inl f ↦ absurd (early us i (sym (empty_full x us i f) ∙ e))
  | inr f ↦ user_full u us name i full ∙ rw ne (sym (user_empty x us name i f))
]
other_from (x ∷ us) u name i (suc m) full ne e = elim (SlotStatus-cases x.m_status) [
  | inl f ↦
      user_full x (set us m u) name i f
      ∙ ap (λ r. if str_eq x.m_user_id name then some i else r)
          (other_from us u name (i + 1) m full ne (sym (empty_full x us i f) ∙ e ∙ shift i m))
      ∙ sym (user_full x us name i f)
  | inr f ↦ later i m (sym (empty_empty x us i f) ∙ e)
]

abbrev pub new_user : ℤ → Bytes → ℤ → ℤ → User
new_user pid user_id to_child to_parent = record {
  m_pid = pid;
  m_user_id = user_id;
  m_fd_to_user = to_child;
  m_fd_to_server = to_parent;
  m_status = slot_full;
}

pub add_user-set :
    (user_list added : List User) (idx : ℕ) (pid : ℤ) (user_id : Bytes) (to_child to_parent : ℤ)
    → add_user idx user_list pid user_id to_child to_parent ≡ some added
    → set user_list idx (new_user pid user_id to_child to_parent) ≡ added
unfolding add_user
add_user-set user_list added idx pid user_id to_child to_parent h = ground arith

-- After a user whose id is not in use was added to the slot of `find_empty_slot`, and the id fitted
-- its array, `find_user_index` finds the id in that slot, and every other id where it was before.
pub find_user_index-add_user :
    (user_list added : List User) (idx : ℕ) (pid : ℤ) (user_id : Bytes) (to_child to_parent : ℤ)
    → find_empty_slot user_list ≡ some idx
    → find_user_index user_list user_id ≡ none
    → add_user idx user_list pid user_id to_child to_parent ≡ some added
    → (find_user_index added user_id ≡ some idx)
      × ((other : Bytes)
          → other ≢ user_id
          → find_user_index added other ≡ find_user_index user_list other)
unfolding find_empty_slot find_user_index
find_user_index-add_user user_list added idx pid user_id to_child to_parent e free h =
    subst
      (λ l.
        (user_from l user_id 0 ≡ some idx)
        × ((other : Bytes) → other ≢ user_id → user_from l other 0 ≡ user_from user_list other 0))
      (add_user-set user_list added idx pid user_id to_child to_parent h)
      (
        added_from user_list u 0 idx refl (e ∙ from_zero idx) free ∙ sym (from_zero idx),
        λ other ne. other_from user_list u other 0 idx refl (differs other ne) (e ∙ from_zero idx),
      )
  where
    u : User
    u = new_user pid user_id to_child to_parent

    differs : (other : Bytes) → other ≢ user_id → str_eq user_id other ≡ false
    differs other ne = elim (Bool-cases (str_eq user_id other)) [
      | inl b ↦ absurd (ne (sym (str_eq_sound user_id other b)))
      | inr b ↦ b
    ]
