-- ===== src/Chat/Users/Valid.antt =====
-- The well-formed user lists of `Project 2 - Server/server.c`.
use operating_systems.Common.{
  ℕ, zero, suc, ◌+◌, ◌<◌, ◌≡◌, ◌≢◌, refl, ◌∙◌, sym, ap, subst, Bool, true, false, none, some, List,
  [], ◌∷◌, length, get_elem?, set, length-set, set_cases, get_elem?_lt, length-replicate, arith,
  Bool-cases, Option-cases, inl, inr, All, All-set, All-get_elem?, All-replicate,
}
use operating_systems.CText.{Bytes, str_eq, str_eq_refl}
use operating_systems.Numbers.{ℤ}
use operating_systems.Chat.Users.{
  slot_full, slot_empty, User, empty_slot, init_user_list, add_user, user_from, find_user_index,
  cleaned, clean_slot,
}
use operating_systems.Chat.Users.Lookup.{
  SlotStatus-cases, user_empty, user_full, taken, new_user, add_user-set,
}

-- There are 10 slots, every id fits its array, and no two users have the same id. A slot that
-- `cleanup_user` could not finish is full, with an empty id.
pub record IsValid (us : List User) : Type 0 where
  pub ten : length us ≡ 10
  pub ids_fit : All (λ u. length u.m_user_id < 32) us
  pub distinct :
      (i j : ℕ) (u v : User)
      → get_elem? us i ≡ some u
      → get_elem? us j ≡ some v
      → u.m_status ≡ slot_full
      → v.m_status ≡ slot_full
      → u.m_user_id ≡ v.m_user_id
      → 0 < length u.m_user_id
      → i ≡ j

empty_full_ne : slot_empty ≢ slot_full
empty_full_ne e = absurd (cc)

pub init_user_list-IsValid : IsValid init_user_list
init_user_list-IsValid = record {
  ten = length-replicate 10 empty_slot;
  ids_fit = All-replicate (λ u. length u.m_user_id < 32) 10 empty_slot (omega arith);
  distinct = λ i j u v eu ev fu fv e h. absurd (empty_full_ne (sym (all_empty i u eu) ∙ fu));
}
  where
    all_empty : (i : ℕ) (u : User) → get_elem? init_user_list i ≡ some u → u.m_status ≡ slot_empty
    all_empty i u e =
        All-get_elem? (λ w. w.m_status ≡ slot_empty) init_user_list i u
          (All-replicate (λ w. w.m_status ≡ slot_empty) 10 empty_slot refl) e

-- An entry is replaced by one whose id no user of another slot has.
pub set-IsValid :
    (us : List User) (i : ℕ) (v : User)
    → IsValid us
    → i < length us
    → length v.m_user_id < 32
    → ((j : ℕ) (w : User)
        → get_elem? us j ≡ some w
        → w.m_status ≡ slot_full
        → w.m_user_id ≡ v.m_user_id
        → 0 < length v.m_user_id
        → ⊥)
    → IsValid (set us i v)
set-IsValid us i v valid below fits new = record {
  ten = length-set us i v ∙ valid.ten;
  ids_fit = All-set (λ u. length u.m_user_id < 32) us i v valid.ids_fit fits;
  distinct = λ j k u w eu ew fu fw e h. elim (set_cases us i j v u below eu) [
    | inl (p, q) ↦ elim (set_cases us i k v w below ew) [
      | inl (p', q') ↦ sym p ∙ p'
      | inr (ne, old) ↦ absurd (
          new k w old fw (sym e ∙ ap (λ x. x.m_user_id) q)
            (subst (λ x. 0 < length x.m_user_id) q h))
    ]
    | inr (ne, old) ↦ elim (set_cases us i k v w below ew) [
      | inl (p', q') ↦ absurd (
          new j u old fu (e ∙ ap (λ x. x.m_user_id) q')
            (subst (λ x. 0 < length x) (e ∙ ap (λ x. x.m_user_id) q') h))
      | inr (ne', old') ↦ valid.distinct j k u w old old' fu fw e h
    ]
  ];
}

cleaned_id : (a b : Bool) (u : User) → (cleaned a b u).m_user_id ≡ []
unfolding cleaned
cleaned_id false b u = refl
cleaned_id true false u = refl
cleaned_id true true u = refl

nil_lt : (s : Bytes) → s ≡ [] → 0 < length s → ⊥
nil_lt s e h = omega (arith, ap (λ (x : Bytes). length x) e, h)

pub clean_slot-IsValid :
    (a b : Bool) (idx : ℕ) (us : List User) → IsValid us → IsValid (clean_slot a b idx us)
unfolding clean_slot
clean_slot-IsValid a b idx us valid = elim (Option-cases (get_elem? us idx)) [
  | inl e ↦ rw (e, clean_slot) valid
  | inr (u, e) ↦
      rw (e, clean_slot)
        (set-IsValid us idx (cleaned a b u) valid (get_elem?_lt us idx u e)
          (subst (λ s. length s < 32) (sym (cleaned_id a b u)) (omega arith))
          (λ j w ew fw same h. nil_lt (cleaned a b u).m_user_id (cleaned_id a b u) h))
]

-- No full slot has an id that `find_user_index` does not find.
unfound :
    (us : List User) (id : Bytes) (k j : ℕ) (w : User)
    → user_from us id k ≡ none
    → get_elem? us j ≡ some w
    → w.m_status ≡ slot_full
    → w.m_user_id ≡ id
    → ⊥
unfound [] id k j w free e full same = absurd (cc)
unfound (x ∷ us) id k zero w free e full same =
    taken k
      (sym (user_full x us id k (ap (λ y. y.m_status) (inj e) ∙ full) ∙ rw matches refl) ∙ free)
  where
    inj : some x ≡ some w → x ≡ w
    inj e' = cc

    matches : str_eq x.m_user_id id ≡ true
    matches =
        subst (λ s. str_eq x.m_user_id s ≡ true) (ap (λ y. y.m_user_id) (inj e) ∙ same)
          (str_eq_refl x.m_user_id)
unfound (x ∷ us) id k (suc j) w free e full same = elim (SlotStatus-cases x.m_status) [
  | inl f ↦ elim (Bool-cases (str_eq x.m_user_id id)) [
    | inl b ↦ taken k (sym (user_full x us id k f ∙ rw b refl) ∙ free)
    | inr b ↦ unfound us id (k + 1) j w (sym (user_full x us id k f ∙ rw b refl) ∙ free) e full same
  ]
  | inr f ↦ unfound us id (k + 1) j w (sym (user_empty x us id k f) ∙ free) e full same
]

add_user_fits :
    (us added : List User) (idx : ℕ) (pid : ℤ) (id : Bytes) (to_child to_parent : ℤ)
    → add_user idx us pid id to_child to_parent ≡ some added
    → length id < 32
unfolding add_user
add_user_fits us added idx pid id to_child to_parent e = ground arith

pub add_user-IsValid :
    (us added : List User) (idx : ℕ) (pid : ℤ) (id : Bytes) (to_child to_parent : ℤ)
    → IsValid us
    → idx < length us
    → find_user_index us id ≡ none
    → add_user idx us pid id to_child to_parent ≡ some added
    → IsValid added
unfolding find_user_index
add_user-IsValid us added idx pid id to_child to_parent valid below free e =
    subst IsValid (add_user-set us added idx pid id to_child to_parent e) (
      set-IsValid us idx (new_user pid id to_child to_parent) valid below
        (add_user_fits us added idx pid id to_child to_parent e)
        (λ j w ew fw same h. unfound us id 0 j w free ew fw same))
