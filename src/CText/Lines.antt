-- ===== src/CText/Lines.antt =====
-- A line of a stream, as `fgets` reads it.
use operating_systems.Common.{
  ℕ, zero, suc, ◌-◌, ◌<◌, ◌≡◌, refl, ap, ◌≢◌, some, [], ◌∷◌, ◌++◌, arith, length, All,
}
use operating_systems.CText.{Bytes, fgets, fgets_line, until_nul}

pub fgets_line-append :
    (n : ℕ) (line rest : Bytes)
    → All (λ c. c ≢ 10) line
    → length line < n
    → fgets_line n (line ++ (10 ∷ rest)) ≡ line ++ 10 ∷ []
unfolding fgets_line
fgets_line-append zero line rest h lt = absurd (omega arith)
fgets_line-append (suc n) [] rest h lt = refl
fgets_line-append (suc n) (c ∷ line) rest h lt = ground (arith, fgets_line-append n line rest h.1)

pub fgets-append :
    (n : ℕ) (line rest : Bytes)
    → All (λ c. c ≢ 10) line
    → length line < n - 1
    → fgets n (line ++ (10 ∷ rest)) ≡ some (line ++ 10 ∷ [])
unfolding fgets
fgets-append n [] rest h lt = ap some (fgets_line-append (n - 1) [] rest h lt)
fgets-append n (c ∷ line) rest h lt = ap some (fgets_line-append (n - 1) (c ∷ line) rest h lt)

pub until_nul_none : (s : Bytes) → All (λ c. c ≢ 0) s → until_nul s ≡ s
unfolding until_nul
until_nul_none [] h = refl
until_nul_none (c ∷ s) h = ground (arith, until_nul_none s h.1)
