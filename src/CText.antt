-- ===== src/CText.antt =====
-- C strings as byte lists without their terminator, and the functions of <string.h> that the three
-- programs call. `strtok` returns its token with the text that the next call resumes from.
pub mod Words
pub mod Lines
use Prim.Native.Char.{code}
use Prim.Native.String.{String}
use operating_systems.Common.{
  ℕ, zero, suc, ◌+◌, ◌-◌, ◌≤◌, ◌<◌, ◌≡◌, refl, ap, ap₂, ◌≢◌, ◌↔◌, Bool, true, false, ◌&&◌, ◌||◌,
  Option, none, some, List, [], ◌∷◌, ◌++◌, arith, ◌==◌, ==_iff, ==_refl, leb, if◌then◌else◌, length,
}

abbrev pub Bytes : Type 0
Bytes = List ℕ

-- The code points of a literal: its bytes, if it is ASCII.
abbrev pub codes : String → Bytes
codes String.[] = []
codes (String.◌∷◌ c s) = code c ∷ codes s

-- `strcmp(s, t) == 0`
unfoldable pub str_eq : Bytes → Bytes → Bool
str_eq [] [] = true
str_eq [] (d ∷ t) = false
str_eq (c ∷ s) [] = false
str_eq (c ∷ s) (d ∷ t) = c == d && str_eq s t

pub str_eq_sound : (s t : Bytes) → str_eq s t ≡ true → s ≡ t
unfolding str_eq
str_eq_sound [] [] h = refl
str_eq_sound [] (d ∷ t) h = absurd (cc)
str_eq_sound (c ∷ s) [] h = absurd (cc)
str_eq_sound (c ∷ s) (d ∷ t) h = ground (arith, str_eq_sound s t)

pub str_eq_refl : (s : Bytes) → str_eq s s ≡ true
unfolding str_eq
str_eq_refl [] = refl
str_eq_refl (c ∷ s) = rw (==_refl c) (str_eq_refl s)

pub str_eq_iff : (s t : Bytes) → (str_eq s t ≡ true) ↔ (s ≡ t)
str_eq_iff s t = (str_eq_sound s t, λ e. rw (← e) (str_eq_refl s))

pub str_ne : (s t : Bytes) → str_eq s t ≡ false → s ≢ t
str_ne s t h e = cc (h, (str_eq_iff s t).1 e)

-- What a C function reads of a buffer: the bytes before the first NUL.
unfoldable pub until_nul : Bytes → Bytes
until_nul [] = []
until_nul (c ∷ s) = if c == 0 then [] else c ∷ until_nul s

-- `strchr(s, c) != NULL`
unfoldable pub has_char : ℕ → Bytes → Bool
has_char c [] = false
has_char c (x ∷ s) = x == c || has_char c s

-- The text from the last `c` on, or the empty text: `strrchr`, with NULL replaced by "".
unfoldable pub strrchr_or_empty : ℕ → Bytes → Bytes
unfolding has_char
strrchr_or_empty c [] = []
strrchr_or_empty c (x ∷ s) =
    let rest = strrchr_or_empty c s in
    if x == c && (if has_char c s then false else true) then x ∷ s else rest

-- `strncmp(p, s, strlen(p)) == 0`
unfoldable pub starts_with : Bytes → Bytes → Bool
starts_with [] s = true
starts_with (c ∷ p) [] = false
starts_with (c ∷ p) (d ∷ s) = c == d && starts_with p s

-- `strstr(s, p) != NULL`
unfoldable pub contains : Bytes → Bytes → Bool
unfolding starts_with
contains p [] = starts_with p []
contains p (c ∷ s) = starts_with p (c ∷ s) || contains p s

-- Bytes up to and with a newline, `n` of them at most.
unfoldable pub fgets_line : ℕ → Bytes → Bytes
fgets_line zero stream = []
fgets_line (suc n) [] = []
fgets_line (suc n) (c ∷ stream) = c ∷ (if c == 10 then [] else fgets_line n stream)

-- `fgets` into a buffer of `size` bytes, which keeps one of them for the terminator; NULL at the end
-- of the stream.
unfoldable pub fgets : ℕ → Bytes → Option Bytes
fgets size [] = none
fgets size (c ∷ stream) = some (fgets_line (size - 1) (c ∷ stream))

-- `strspn`: the text without its leading delimiters.
unfoldable pub skip : (ℕ → Bool) → Bytes → Bytes
skip d [] = []
skip d (c ∷ s) = elim (d c) [ true ↦ skip d s | false ↦ c ∷ s ]

-- The text up to the first delimiter, and what stands behind that delimiter.
unfoldable pub token : (ℕ → Bool) → Bytes → Bytes
token d [] = []
token d (c ∷ s) = elim (d c) [ true ↦ [] | false ↦ c ∷ token d s ]

unfoldable pub after : (ℕ → Bool) → Bytes → Bytes
after d [] = []
after d (c ∷ s) = elim (d c) [ true ↦ s | false ↦ after d s ]

unfoldable pub first_token : (ℕ → Bool) → Bytes → Option (Bytes × Bytes)
unfolding token after
first_token d [] = none
first_token d (c ∷ s) = some (token d (c ∷ s), after d (c ∷ s))

-- One call of `strtok`: `none` is NULL.
unfoldable pub strtok : (ℕ → Bool) → Bytes → Option (Bytes × Bytes)
unfolding skip first_token
strtok d s = first_token d (skip d s)

-- `while (tok != NULL) { ...; tok = strtok(NULL, delim); }`, a round for each unit of fuel.
unfoldable pub strtok_loop : ℕ → (ℕ → Bool) → Bytes → List Bytes
unfolding strtok
strtok_loop zero d s = []
strtok_loop (suc fuel) d s = elim (strtok d s) [
  | none ↦ []
  | some (t, rest) ↦ t ∷ strtok_loop fuel d rest
]

-- All tokens. A text of n bytes has at most n of them, so n + 1 rounds suffice.
unfoldable pub tokens : (ℕ → Bool) → Bytes → List Bytes
unfolding strtok_loop
tokens d s = strtok_loop (suc (length s)) d s

-- The delimiter strings " " and " \n".
unfoldable pub is_space : ℕ → Bool
is_space c = c == 32

unfoldable pub is_space_or_newline : ℕ → Bool
is_space_or_newline c = c == 32 || c == 10

two_tokens : tokens is_space (codes "  ab  c ") ≡ codes "ab" ∷ codes "c" ∷ []
unfolding tokens is_space
two_tokens = refl

extension : strrchr_or_empty b'.' (codes "/a.b/c.html") ≡ codes ".html"
unfolding strrchr_or_empty
extension = refl
