-- ===== src/Web/Content.antt =====
-- `getContentType` of `Project 3 - Multithreaded Web Server/server.c`.
use operating_systems.Common.{
  ℕ, ◌+◌, ◌≤◌, ◌≡◌, refl, true, false, ◌||◌, [], ◌∷◌, ◌++◌, arith, if◌then◌else◌, length,
}
use operating_systems.CText.{Bytes, codes, str_eq, strrchr_or_empty, has_char}

unfoldable pub get_content_type : Bytes → Bytes
unfolding strrchr_or_empty str_eq
get_content_type request_string =
    let file_extension = strrchr_or_empty b'.' request_string in
    if str_eq file_extension (codes ".html") || str_eq file_extension (codes ".htm")
    then codes "text/html"
    else if str_eq file_extension (codes ".jpg")
    then codes "image/jpeg"
    else if str_eq file_extension (codes ".gif")
    then codes "image/gif"
    else codes "text/plain"

-- The type fits the `char content_type [11]` of `worker`, with its terminator.
get_content_type_fits : (r : Bytes) → length (get_content_type r) + 1 ≤ 11
unfolding get_content_type
get_content_type_fits r = ground arith

has_char-append : (c : ℕ) (base s : Bytes) → has_char c (base ++ (c ∷ s)) ≡ true
unfolding has_char
has_char-append c [] s = ground arith
has_char-append c (x ∷ base) s = ground (arith, has_char-append c base s)

strrchr_or_empty-append :
    (c : ℕ) (base s : Bytes) → has_char c s ≡ false → strrchr_or_empty c (base ++ (c ∷ s)) ≡ c ∷ s
unfolding strrchr_or_empty
strrchr_or_empty-append c [] s h = ground arith
strrchr_or_empty-append c (x ∷ base) s h =
    ground (arith, has_char-append c base s, strrchr_or_empty-append c base s h)

strrchr_or_empty_none : (c : ℕ) (s : Bytes) → has_char c s ≡ false → strrchr_or_empty c s ≡ []
unfolding strrchr_or_empty
strrchr_or_empty_none c [] h = refl
strrchr_or_empty_none c (x ∷ s) h = ground (arith, strrchr_or_empty_none c s)

-- The types by the text behind the last dot.
abbrev pub type_of_extension : Bytes → Bytes
type_of_extension s =
    if str_eq s (codes "html") || str_eq s (codes "htm")
    then codes "text/html"
    else if str_eq s (codes "jpg")
    then codes "image/jpeg"
    else if str_eq s (codes "gif")
    then codes "image/gif"
    else codes "text/plain"

-- The type depends on nothing but the text behind the last dot of the request, whatever stands
-- before that dot; a request with no dot is plain text; and no type overruns the 11 bytes, the
-- terminator included, that `worker` has for it.
pub get_content_type-extension :
    (base s : Bytes)
    → has_char b'.' s ≡ false
    → (get_content_type (base ++ (b'.' ∷ s)) ≡ type_of_extension s)
      × (get_content_type s ≡ codes "text/plain")
      × ((r : Bytes) → length (get_content_type r) + 1 ≤ 11)
unfolding get_content_type
get_content_type-extension base s h = (
  rw (strrchr_or_empty-append b'.' base s h) refl,
  rw (strrchr_or_empty_none b'.' s h) refl,
  get_content_type_fits,
)
