-- ===== src/Numbers.antt =====
-- Signed integers, and the conversions of the C library between numbers and text: `atoi`, and `%d`
-- of `printf`.
use operating_systems.Common.{
  ℕ, zero, suc, ◌+◌, ◌-◌, ◌*◌, ◌/◌, ◌%◌, ◌^◌, ◌≤◌, ◌<◌, ◌≡◌, refl, ◌≢◌, ap, length, ◌∙◌, Bool, true,
  false, ◌&&◌, ◌||◌, [], ◌∷◌, arith, ltb, leb, ◌==◌, if◌then◌else◌, Bool-cases, inl, inr, All,
}
use native.Mathlib.Nat.{mod-eq_of_lt}
use operating_systems.CText.{Bytes, skip}

-- `negsuc n` is -(n + 1).
pub data ℤ : Type 0 where
  pos : ℕ → ℤ
  negsuc : ℕ → ℤ

-- The value of an `int` that the number is assigned to.
unfoldable pub to_int : ℕ → ℤ
to_int n = let w = n % 2 ^ 32 in if ltb w (2 ^ 31) then pos w else negsuc (2 ^ 32 - 1 - w)

abbrev pub is_minus_one : ℤ → Bool
is_minus_one (pos n) = false
is_minus_one (negsuc n) = n == 0

abbrev pub int_eq : ℤ → ℤ → Bool
int_eq (pos a) (pos b) = a == b
int_eq (negsuc a) (negsuc b) = a == b
int_eq (pos a) (negsuc b) = false
int_eq (negsuc a) (pos b) = false

-- `a > b`
abbrev pub int_above : ℤ → ℤ → Bool
int_above (pos a) (pos b) = ltb b a
int_above (pos a) (negsuc b) = true
int_above (negsuc a) (pos b) = false
int_above (negsuc a) (negsuc b) = ltb a b

pub to_int_pos : (n : ℕ) → ltb (n % 2 ^ 32) (2 ^ 31) ≡ true → to_int n ≡ pos (n % 2 ^ 32)
unfolding to_int
to_int_pos n h = rw h refl

pub to_int_small : (n : ℕ) → n < 2 ^ 31 → to_int n ≡ pos n
unfolding to_int
to_int_small n h = ground (arith, mod-eq_of_lt {n = n} {m = 2 ^ 32} (omega arith))

unfoldable pub negate : ℕ → ℤ
negate zero = pos 0
negate (suc n) = negsuc n

-- `x < n` and `n < x` for a literal `n`.
unfoldable pub below : ℤ → ℕ → Bool
below (pos x) n = ltb x n
below (negsuc x) n = true

unfoldable pub above : ℤ → ℕ → Bool
above (pos x) n = ltb n x
above (negsuc x) n = false

-- `isspace` and `isdigit`
unfoldable pub is_blank : ℕ → Bool
is_blank c = c == 32 || leb 9 c && leb c 13

unfoldable pub is_digit : ℕ → Bool
is_digit c = leb 48 c && leb c 57

unfoldable pub digits_value : ℕ → Bytes → ℕ
unfolding is_digit
digits_value acc [] = acc
digits_value acc (c ∷ s) = elim (is_digit c) [
  | true ↦ digits_value (acc * 10 + (c - 48)) s
  | false ↦ acc
]

unfoldable pub signed_value : Bytes → ℤ
unfolding digits_value negate
signed_value [] = pos 0
signed_value (c ∷ s) =
    if c == b'-'
    then negate (digits_value 0 s)
    else if c == b'+'
    then pos (digits_value 0 s)
    else pos (digits_value 0 (c ∷ s))

-- `atoi`, for numbers that an `int` holds.
unfoldable pub atoi : Bytes → ℤ
unfolding signed_value skip is_blank
atoi s = signed_value (skip is_blank s)

-- The decimal digits of `n` in front of `out`; a round for each digit.
unfoldable pub decimal_loop : ℕ → ℕ → Bytes → Bytes
decimal_loop zero n out = out
decimal_loop (suc fuel) n out =
    let longer = decimal_loop fuel (n / 10) ((48 + n % 10) ∷ out) in
    if ltb n 10 then (48 + n % 10) ∷ out else longer

-- A number n has at most n + 1 digits.
unfoldable pub decimal : ℕ → Bytes
unfolding decimal_loop
decimal n = decimal_loop (suc n) n []

-- `%d` of a value that is converted to a 32-bit `int`.
unfoldable pub format_int : ℕ → Bytes
unfolding decimal
format_int n =
    if ltb (n % 2 ^ 32) (2 ^ 31) then decimal (n % 2 ^ 32) else b'-' ∷ decimal (2 ^ 32 - n % 2 ^ 32)

digits_value-decimal_loop :
    (fuel n : ℕ) (out : Bytes)
    → n < fuel
    → digits_value 0 (decimal_loop fuel n out) ≡ digits_value n out
unfolding decimal_loop digits_value
digits_value-decimal_loop zero n out h = elim h [ ]
digits_value-decimal_loop (suc fuel) n out h =
    ground (arith, digits_value-decimal_loop fuel (n / 10) ((48 + n % 10) ∷ out))

decimal_loop-digits :
    (fuel n : ℕ) (out : Bytes)
    → All (λ c. is_digit c ≡ true) out
    → All (λ c. is_digit c ≡ true) (decimal_loop fuel n out)
unfolding decimal_loop
decimal_loop-digits zero n out h = h
decimal_loop-digits (suc fuel) n out h = elim (Bool-cases (ltb n 10)) [
  | inl e ↦ rw (e, decimal_loop) (unfold is_digit in ground arith, h)
  | inr e ↦
      rw (e, decimal_loop)
        (decimal_loop-digits fuel (n / 10) _ (unfold is_digit in ground arith, h))
]

decimal_loop-ne-nil : (fuel n : ℕ) (out : Bytes) → n < fuel → decimal_loop fuel n out ≢ []
unfolding decimal_loop
decimal_loop-ne-nil zero n out h = elim h [ ]
decimal_loop-ne-nil (suc fuel) n out h =
    ground (arith, decimal_loop-ne-nil fuel (n / 10) ((48 + n % 10) ∷ out))

-- Only digits are printed, and at least one.
pub decimal-digits : (n : ℕ) → All (λ c. is_digit c ≡ true) (decimal n) × (decimal n ≢ [])
unfolding decimal
decimal-digits n =
    (decimal_loop-digits (suc n) n [] tt, decimal_loop-ne-nil (suc n) n [] (omega arith))

atoi_digits :
    (s : Bytes) → All (λ c. is_digit c ≡ true) s → s ≢ [] → atoi s ≡ pos (digits_value 0 s)
unfolding atoi
atoi_digits [] h k = absurd (k refl)
atoi_digits (c ∷ s) h k =
    let blank : is_blank c ≡ false = unfold is_blank is_digit in ground (arith, h.0) in
    rw (blank, skip) (unfold is_digit in ground (arith, h.0))

-- The text that `%d` prints of a number reads back, by `atoi`, as that number.
pub atoi-decimal : (n : ℕ) → atoi (decimal n) ≡ pos n
atoi-decimal n =
    atoi_digits (decimal n) (decimal-digits n).0 (decimal-digits n).1
    ∙ ap pos (unfold decimal digits_value in digits_value-decimal_loop (suc n) n [] (omega arith))

-- Powers of ten.
abbrev pub ten_to : ℕ → ℕ
ten_to zero = 1
ten_to (suc k) = 10 * ten_to k

decimal_loop-length :
    (fuel n k : ℕ) (out : Bytes)
    → n < ten_to (suc k)
    → length (decimal_loop fuel n out) ≤ suc k + length out
unfolding decimal_loop
decimal_loop-length zero n k out h = omega arith
decimal_loop-length (suc fuel) n zero out h = ground (arith, h)
decimal_loop-length (suc fuel) n (suc k) out h =
    ground (arith, decimal_loop-length fuel (n / 10) k ((48 + n % 10) ∷ out) (omega (arith, h)))

-- A number below a power of ten has at most as many digits.
pub length-decimal : (n k : ℕ) → n < ten_to (suc k) → length (decimal n) ≤ suc k
unfolding decimal
length-decimal n k h = omega (arith, decimal_loop-length (suc n) n k [] h)

-- `%d` prints at most 11 bytes.
pub length-format_int : (n : ℕ) → length (format_int n) ≤ 11
unfolding format_int
length-format_int n = ground (
  arith,
  length-decimal (n % 2 ^ 32) 9 (omega arith),
  length-decimal (2 ^ 32 - n % 2 ^ 32) 9 (omega arith),
)
