-- ===== src/Chat/Server/Kick.antt =====
-- `kick_user` of `Project 2 - Server/server.c`: the slot after the calls of `kill_user` and
-- `cleanup_user`.
use operating_systems.Common.{
  ℕ, zero, suc, ◌≡◌, refl, ◌∙◌, sym, ap, subst, Bool, true, false, some, List, [], ◌∷◌, ◌++◌,
  get_elem?, set, get_elem?_lt, get_elem?-set_self, Bool-cases, inl, inr,
}
use operating_systems.CText.{Bytes}
use operating_systems.Numbers.{ℤ, negsuc}
use operating_systems.Chat.Users.{User, empty_slot, cleaned, clean_slot, add_user}
use operating_systems.Chat.Users.Lookup.{new_user, add_user-set}
use operating_systems.Chat.Server.{
  Call, close, kill, waitpid, Os, Server, kill_user, cleanup_entry, cleanup_user, kick_user,
}

-- The calls up to the first `close` of a kick.
abbrev pub first_close : User → List Call → List Call
first_close u calls = close u.m_fd_to_user ∷ waitpid u.m_pid ∷ kill u.m_pid ∷ calls

kick_found :
    (os : Os) (idx : ℕ) (u : User) (s : Server)
    → get_elem? s.users idx ≡ some u
    → kick_user os idx s ≡ cleanup_entry os idx u (kill_user u s)
kick_found os idx u s e = opened ∙ cleaned_up
  where
    opened : kick_user os idx s ≡ cleanup_user os idx (kill_user u s)
    opened = unfold kick_user in rw (e, kick_user) refl

    cleaned_up : cleanup_user os idx (kill_user u s) ≡ cleanup_entry os idx u (kill_user u s)
    cleaned_up = unfold kill_user cleanup_user in rw (e, cleanup_user) refl

clean_slot_found :
    (a b : Bool) (idx : ℕ) (u : User) (us : List User)
    → get_elem? us idx ≡ some u
    → clean_slot a b idx us ≡ set us idx (cleaned a b u)
unfolding clean_slot
clean_slot_found a b idx u us e = rw (e, clean_slot) refl

entry_closed :
    (os : Os) (idx : ℕ) (u : User) (s : Server)
    → get_elem? s.users idx ≡ some u
    → os (first_close u s.calls) ≡ true
    → os (close u.m_fd_to_server ∷ first_close u s.calls) ≡ true
    → cleanup_entry os idx u (kill_user u s) ≡ record {
      users = set s.users idx empty_slot;
      calls = close u.m_fd_to_server ∷ first_close u s.calls;
    }
unfolding cleanup_entry kill_user cleaned
entry_closed os idx u s e h k =
    rw (h, k, cleanup_entry)
      (ap
        (λ us.
          let r : Server = record {
            users = us;
            calls = close u.m_fd_to_server ∷ first_close u s.calls;
          } in
          r)
        (clean_slot_found true true idx u s.users e))

-- A kick whose calls of `close` succeed kills and awaits the process, closes both pipes, and leaves
-- the slot as `init_user_list` makes it, and the other slots as they were.
pub kick_user_closed :
    (os : Os) (idx : ℕ) (u : User) (s : Server)
    → get_elem? s.users idx ≡ some u
    → os (first_close u s.calls) ≡ true
    → os (close u.m_fd_to_server ∷ first_close u s.calls) ≡ true
    → kick_user os idx s ≡ record {
      users = set s.users idx empty_slot;
      calls = close u.m_fd_to_server ∷ first_close u s.calls;
    }
kick_user_closed os idx u s e h k = kick_found os idx u s e ∙ entry_closed os idx u s e h k

entry_unclosed :
    (os : Os) (idx : ℕ) (u : User) (s : Server)
    → get_elem? s.users idx ≡ some u
    → os (first_close u s.calls) ≡ false
    → cleanup_entry os idx u (kill_user u s) ≡ record {
      users = set s.users idx (record u { m_pid = negsuc 0; m_user_id = [] });
      calls = first_close u s.calls;
    }
unfolding cleanup_entry kill_user cleaned
entry_unclosed os idx u s e h =
    rw (h, cleanup_entry)
      (ap (λ us. let r : Server = record { users = us; calls = first_close u s.calls } in r)
        (clean_slot_found false false idx u s.users e))

-- The slot that a kick leaves when its first `close` fails.
abbrev pub left_open : User → User
left_open u = record u { m_pid = negsuc 0; m_user_id = [] }

entry_calls :
    (os : Os) (idx : ℕ) (u : User) (s : Server)
    → os (first_close u s.calls) ≡ true
    → (cleanup_entry os idx u (kill_user u s)).calls
      ≡ close u.m_fd_to_server ∷ first_close u s.calls
unfolding cleanup_entry kill_user
entry_calls os idx u s h = rw (h, cleanup_entry) refl

kills :
    (os : Os) (idx : ℕ) (u : User) (s : Server)
    → get_elem? s.users idx ≡ some u
    → (r : List Call) × ((kick_user os idx s).calls ≡ r ++ kill u.m_pid ∷ s.calls)
kills os idx u s e = elim (Bool-cases (os (first_close u s.calls))) [
  | inl h ↦ (
    close u.m_fd_to_server ∷ close u.m_fd_to_user ∷ waitpid u.m_pid ∷ [],
    ap (λ t. t.calls) (kick_found os idx u s e) ∙ entry_calls os idx u s h,
  )
  | inr h ↦ (
    close u.m_fd_to_user ∷ waitpid u.m_pid ∷ [],
    ap (λ t. t.calls) (kick_found os idx u s e ∙ entry_unclosed os idx u s e h),
  )
]

-- If the first `close` of a kick fails, the slot keeps its status and its pipes, with the pid -1 and
-- no id, and the next kick of it calls kill(-1).
pub kick_user_unclosed :
    (os : Os) (idx : ℕ) (u : User) (s : Server)
    → get_elem? s.users idx ≡ some u
    → os (first_close u s.calls) ≡ false
    → (get_elem? (kick_user os idx s).users idx ≡ some (left_open u))
      × ((r : List Call) × ((kick_user os idx (kick_user os idx s)).calls
            ≡ r ++ kill (negsuc 0) ∷ (kick_user os idx s).calls))
kick_user_unclosed os idx u s e h = (slot, kills os idx (left_open u) (kick_user os idx s) slot)
  where
    slot : get_elem? (kick_user os idx s).users idx ≡ some (left_open u)
    slot =
        rw (kick_found os idx u s e ∙ entry_unclosed os idx u s e h)
          (get_elem?-set_self s.users idx (left_open u) (get_elem?_lt s.users idx u e))

set-set : (us : List User) (i : ℕ) (u v : User) → set (set us i u) i v ≡ set us i v
set-set [] i u v = refl
set-set (x ∷ us) zero u v = refl
set-set (x ∷ us) (suc i) u v = ap (◌∷◌ x) (set-set us i u v)

set_same : (us : List User) (i : ℕ) (u : User) → get_elem? us i ≡ some u → set us i u ≡ us
set_same [] i u e = refl
set_same (x ∷ us) zero u e = ap (λ y. y ∷ us) (sym (inj e))
  where
    inj : some x ≡ some u → x ≡ u
    inj e' = cc
set_same (x ∷ us) (suc i) u e = ap (◌∷◌ x) (set_same us i u e)

-- A user who was added to a slot as `init_user_list` makes it, and is kicked with calls of `close`
-- that succeed, leaves the list as it was before.
kick_user-add_user :
    (os : Os) (us added : List User) (idx : ℕ) (pid : ℤ) (id : Bytes) (to_child to_parent : ℤ)
    (calls : List Call)
    → get_elem? us idx ≡ some empty_slot
    → add_user idx us pid id to_child to_parent ≡ some added
    → os (first_close (new_user pid id to_child to_parent) calls) ≡ true
    → os (close to_parent ∷ first_close (new_user pid id to_child to_parent) calls) ≡ true
    → (kick_user os idx (record { users = added; calls = calls })).users ≡ us
kick_user-add_user os us added idx pid id to_child to_parent calls e h ok_user ok_server =
    ap (λ t. t.users)
      (kick_user_closed os idx (new_user pid id to_child to_parent)
        (record { users = added; calls = calls }) in_slot ok_user ok_server)
    ∙ sym (ap (λ l. set l idx empty_slot) (add_user-set us added idx pid id to_child to_parent h))
    ∙ set-set us idx (new_user pid id to_child to_parent) empty_slot
    ∙ set_same us idx empty_slot e
  where
    in_slot : get_elem? added idx ≡ some (new_user pid id to_child to_parent)
    in_slot =
        subst (λ l. get_elem? l idx ≡ some (new_user pid id to_child to_parent))
          (add_user-set us added idx pid id to_child to_parent h)
          (get_elem?-set_self us idx (new_user pid id to_child to_parent)
            (get_elem?_lt us idx empty_slot e))
