-- ===== src/Chat/Loop/Buffer.antt =====
-- The message buffers of `Project 2 - Server/server.c` and `client.c` after a `read` into a cleared
-- buffer.
use operating_systems.Common.{
  ℕ, zero, suc, ◌-◌, ◌<◌, ◌≡◌, refl, ◌∙◌, ap, true, false, some, [], ◌∷◌, ◌++◌, ◌==◌, length, drop,
  replicate, arith, All,
}
use operating_systems.CText.{Bytes, until_nul, has_char}
use operating_systems.Chat.Loop.{last_byte}
use operating_systems.Chat.Connect.{overwrite, c_string, cleared}

-- A text in C: no byte is NUL.
abbrev pub NoNul : Bytes → Type 0
NoNul = All (λ c. (c == 0) ≡ false)

until_nul_text : (t rest : Bytes) → NoNul t → until_nul (t ++ 0 ∷ rest) ≡ t
unfolding until_nul
until_nul_text [] rest h = refl
until_nul_text (c ∷ t) rest h = rw (h.0, until_nul) (ap (◌∷◌ c) (until_nul_text t rest h.1))

has_nul : (t rest : Bytes) → has_char 0 (t ++ 0 ∷ rest) ≡ true
unfolding has_char
has_nul [] rest = refl
has_nul (c ∷ t) rest = ground (arith, has_nul t rest)

pub c_string_text : (t rest : Bytes) → NoNul t → c_string (t ++ 0 ∷ rest) ≡ some t
unfolding c_string
c_string_text t rest h = rw (has_nul t rest) (ap some (until_nul_text t rest h))

abbrev nul_then : ℕ → Bytes
nul_then k = 0 ∷ replicate k 0

drop-replicate : (n m : ℕ) → n < m → drop {A = ℕ} n (replicate m 0) ≡ 0 ∷ replicate (m - n - 1) 0
drop-replicate zero zero h = absurd (omega (arith, h))
drop-replicate zero (suc m) h = ap nul_then (omega arith)
drop-replicate (suc n) zero h = absurd (omega (arith, h))
drop-replicate (suc n) (suc m) h =
    drop-replicate n m (omega (arith, h)) ∙ ap nul_then (omega (arith, h))

-- What C reads after a text was put into a cleared buffer.
pub c_string-cleared :
    (t : Bytes) → NoNul t → length t < 256 → c_string (overwrite t cleared) ≡ some t
c_string-cleared t h short =
    ap (λ r. c_string (t ++ r)) (drop-replicate (length t) 256 short)
    ∙ c_string_text t (replicate (256 - length t - 1) 0) h

pub last_byte-append : (c x : ℕ) (s : Bytes) → last_byte c (s ++ x ∷ []) ≡ x
unfolding last_byte
last_byte-append c x [] = refl
last_byte-append c x (y ∷ s) = last_byte-append y x s
