-- ===== src/Web/Request/Prefixes.antt =====
-- The front of a file name, as `get_request` of `Project 3 - Multithreaded Web Server/util.c` cuts it off.
use operating_systems.Common.{ℕ, zero, suc, ◌≡◌, refl, true, [], ◌∷◌, arith, take, All}
use operating_systems.CText.{Bytes, contains, starts_with}

starts_with-take : (p s : Bytes) (n : ℕ) → starts_with p (take n s) ≡ true → starts_with p s ≡ true
unfolding starts_with
starts_with-take [] s n h = refl
starts_with-take (c ∷ p) s zero h = absurd (cc)
starts_with-take (c ∷ p) [] (suc n) h = h
starts_with-take (c ∷ p) (x ∷ s) (suc n) h = ground (arith, starts_with-take p s n)

-- The front of a text has no part that the text does not have.
pub contains-take : (p s : Bytes) (n : ℕ) → contains p (take n s) ≡ true → contains p s ≡ true
unfolding contains
contains-take p [] zero h = h
contains-take p [] (suc n) h = h
contains-take p (x ∷ s) zero h = ground (arith, starts_with-take p (x ∷ s) 0)
contains-take p (x ∷ s) (suc n) h =
    ground (arith, starts_with-take p (x ∷ s) (suc n), contains-take p s n)

pub All-take {κ} : (P : ℕ → Type κ) (n : ℕ) (s : Bytes) → All P s → All P (take n s)
All-take P zero s h = tt
All-take P (suc n) [] h = tt
All-take P (suc n) (x ∷ s) h = (h.0, All-take P n s h.1)
