-- ===== src/Web/Request/Safety.antt =====
-- What `get_request` lets through, and what it does not turn away.
use operating_systems.Common.{
  ℕ, zero, suc, ◌+◌, ◌≤◌, ◌<◌, ◌≡◌, refl, sym, ap, ◌∙◌, subst, ◌≢◌, Bool, true, false, ◌||◌, some,
  List, [], ◌∷◌, ◌++◌, arith, if◌then◌else◌, length, take, All, Bool-cases, inl, inr,
  length-take_le, Option-cases, length-append, All-append, All-imp, append_assoc,
}
use operating_systems.CText.{
  Bytes, codes, fgets, str_eq, until_nul, contains, skip, strtok, strtok_loop, is_space_or_newline,
}
use operating_systems.CText.Lines.{fgets-append, until_nul_none}
use operating_systems.CText.Words.{
  IsWord, tokens-words, words_from, words_from-skip, join, words_from-join_end, words_from-All,
}
use operating_systems.Web.Request.{
  make_argv, check_argv, parsed, rejected, check_strings, get_request,
}
use operating_systems.Web.Request.Prefixes.{contains-take, All-take}

module _ (d : ℕ → Bool) where
  -- As many rounds as there are tokens cut all of them.
  strtok_loop-length :
      (fuel : ℕ) (s : Bytes)
      → strtok_loop (length (strtok_loop fuel d s)) d s ≡ strtok_loop fuel d s
  unfolding strtok_loop
  strtok_loop-length zero s = refl
  strtok_loop-length (suc fuel) s = elim (Option-cases (strtok d s)) [
    | inl e ↦ rw (e, strtok_loop) refl
    | inr ((t, rest), e) ↦ ground (arith, strtok_loop-length fuel rest)
  ]

-- The two passes of `makeargv` agree: with memory at hand it returns the words of the text.
pub make_argv-words :
    (s : Bytes) (d : ℕ → Bool) → make_argv true true s d ≡ some (words_from d [] s)
unfolding make_argv
make_argv-words s d = ap some (
    strtok_loop-length d (suc (length (skip d s))) (skip d s)
    ∙ tokens-words d (skip d s)
    ∙ sym (words_from-skip d s))

-- A file name that may be appended to the root of the web tree.
pub record IsSafe (f : Bytes) : Type 0 where
  pub given : f ≢ []
  pub fits : length f ≤ 1023
  pub no_parent : contains (codes "..") f ≡ false
  pub no_double_slash : contains (codes "//") f ≡ false
  pub one_word : All (λ c. is_space_or_newline c ≡ false) f

contains-take-false : (p s : Bytes) (n : ℕ) → contains p s ≡ false → contains p (take n s) ≡ false
contains-take-false p s n h = elim (Bool-cases (contains p (take n s))) [
  | inl e ↦ cc (contains-take p s n e)
  | inr e ↦ e
]

take-ne-nil : (n : ℕ) (s : Bytes) → 0 < n → s ≢ [] → take n s ≢ []
take-ne-nil zero s h k = absurd (omega arith)
take-ne-nil (suc n) [] h k = k
take-ne-nil (suc n) (c ∷ s) h k = λ e. cc

take-IsSafe :
    (path : Bytes)
    → IsWord is_space_or_newline path
    → contains (codes "..") path ≡ false
    → contains (codes "//") path ≡ false
    → IsSafe (take 1023 path)
take-IsSafe path w h k = record {
  given = take-ne-nil 1023 path (omega arith) w.0;
  fits = length-take_le 1023 path;
  no_parent = contains-take-false (codes "..") path 1023 h;
  no_double_slash = contains-take-false (codes "//") path 1023 k;
  one_word = All-take (λ x. is_space_or_newline x ≡ false) 1023 path w.1;
}

passed :
    (get parent double : Bool) (x f : Bytes)
    → (if get then if parent || double then rejected 4 else parsed x else rejected 1) ≡ parsed f
    → (parent ≡ false) × (double ≡ false) × (x ≡ f)
passed false parent double x f h = absurd (cc)
passed true true double x f h = absurd (cc)
passed true false true x f h = absurd (cc)
passed true false false x f h = (refl, refl, cc)

-- What the tests have found of a file name that passes them.
check_strings_passed :
    (command path : Bytes) (strings : List Bytes) (f : Bytes)
    → check_strings (command ∷ path ∷ strings) ≡ parsed f
    → (contains (codes "..") path ≡ false)
      × (contains (codes "//") path ≡ false)
      × (take 1023 path ≡ f)
unfolding check_strings
check_strings_passed command path strings f h =
    passed (str_eq (codes "GET") command) (contains (codes "..") path) (contains (codes "//") path)
      (take 1023 path) f h

check_strings-IsSafe :
    (strings : List Bytes) (f : Bytes)
    → All (IsWord is_space_or_newline) strings
    → check_strings strings ≡ parsed f
    → IsSafe f
unfolding check_strings
check_strings-IsSafe [] f w h = absurd (cc)
check_strings-IsSafe (s ∷ []) f w h = absurd (cc)
check_strings-IsSafe (command ∷ path ∷ strings) f w h =
    let (parent, double, e) = check_strings_passed command path strings f h in
    subst IsSafe e (take-IsSafe path w.1.0 parent double)

get_request-words :
    (stream buf : Bytes)
    → fgets 2048 stream ≡ some buf
    → get_request true true true stream
      ≡ check_strings (words_from is_space_or_newline [] (until_nul buf))
unfolding get_request check_argv
get_request-words stream buf h = rw (h, make_argv-words (until_nul buf) is_space_or_newline) refl

-- Every file name that `get_request` reports, for any bytes a client may send, is not empty, fits
-- the 1024 bytes of the caller's buffer with its terminator, has neither ".." nor "//" in it, and
-- holds no space or newline.
pub get_request-IsSafe :
    (fdopen_ok malloc_t malloc_argv : Bool) (stream f : Bytes)
    → get_request fdopen_ok malloc_t malloc_argv stream ≡ parsed f
    → IsSafe f
unfolding get_request check_argv make_argv
get_request-IsSafe false malloc_t malloc_argv stream f h = absurd (cc)
get_request-IsSafe true false malloc_argv stream f h = absurd (ground arith)
get_request-IsSafe true true false stream f h = absurd (ground arith)
get_request-IsSafe true true true stream f h = elim (Option-cases (fgets 2048 stream)) [
  | inl e ↦ absurd (ground arith)
  | inr (buf, e) ↦
      check_strings-IsSafe (words_from is_space_or_newline [] (until_nul buf)) f
        (words_from-All is_space_or_newline [] (until_nul buf) tt)
        (sym (get_request-words stream buf e) ∙ h)
]

-- The line that a client sends for a path.
abbrev pub request_line : Bytes → Bytes
request_line path = join 32 (codes "GET" ∷ path ∷ codes "HTTP/1.0" ∷ []) ++ 10 ∷ []

length_request_line :
    (path : Bytes)
    → length (join 32 (codes "GET" ∷ path ∷ codes "HTTP/1.0" ∷ [])) ≡ length path + 13
unfolding join
length_request_line path = omega (arith, length-append path (32 ∷ codes "HTTP/1.0"))

take_all : (n : ℕ) (s : Bytes) → length s ≤ n → take n s ≡ s
take_all zero [] h = refl
take_all zero (c ∷ s) h = absurd (omega arith)
take_all (suc n) [] h = refl
take_all (suc n) (c ∷ s) h = ap (◌∷◌ c) (take_all n s (omega arith))

check_strings_path :
    (path : Bytes) (strings : List Bytes)
    → length path ≤ 1023
    → contains (codes "..") path ≡ false
    → contains (codes "//") path ≡ false
    → check_strings (codes "GET" ∷ path ∷ strings) ≡ parsed path
unfolding check_strings str_eq
check_strings_path path strings len h k = rw (h, k) (ap parsed (take_all 1023 path len))

-- The words of the line, and the line itself, with no byte that a test `P` forbids.
All-request_line {κ} :
    (P : ℕ → Type κ) (path : Bytes)
    → All P (codes "GET HTTP/1.0")
    → All P path
    → All P (join 32 (codes "GET" ∷ path ∷ codes "HTTP/1.0" ∷ []))
unfolding join
All-request_line P path (g, (e, (t, (s, http)))) h =
    (g, (e, (t, (s, All-append P path (32 ∷ codes "HTTP/1.0") h (s, http)))))

line_words :
    (path : Bytes)
    → IsWord is_space_or_newline path
    → words_from is_space_or_newline [] (request_line path)
      ≡ codes "GET" ∷ path ∷ codes "HTTP/1.0" ∷ []
unfolding is_space_or_newline
line_words path w =
    words_from-join_end is_space_or_newline 32 10 (codes "GET" ∷ path ∷ codes "HTTP/1.0" ∷ []) refl
      refl
      (
        ((λ e. cc), (refl, (refl, (refl, tt)))),
        (w, (((λ e. cc), (refl, (refl, (refl, (refl, (refl, (refl, (refl, (refl, tt))))))))), tt)),
      )

-- A GET for a path of at most 1023 bytes, one word with no NUL, no ".." and no "//", is accepted
-- with that path, whatever follows the first line.
pub get_request-accepts :
    (path rest : Bytes)
    → IsWord is_space_or_newline path
    → All (λ c. c ≢ 0) path
    → length path ≤ 1023
    → contains (codes "..") path ≡ false
    → contains (codes "//") path ≡ false
    → get_request true true true (request_line path ++ rest) ≡ parsed path
get_request-accepts path rest w nul len h k =
    get_request-words (request_line path ++ rest) (request_line path) (
      ap (fgets 2048) (append_assoc line (10 ∷ []) rest)
      ∙ fgets-append 2048 line rest no_newline (omega (arith, length_request_line path)))
    ∙ ap check_strings (ap (words_from is_space_or_newline []) no_nul ∙ line_words path w)
    ∙ check_strings_path path (codes "HTTP/1.0" ∷ []) len h k
  where
    line : Bytes
    line = join 32 (codes "GET" ∷ path ∷ codes "HTTP/1.0" ∷ [])

    no_newline : All (λ c. c ≢ 10) line
    no_newline =
        All-request_line (λ c. c ≢ 10) path (omega arith)
          (All-imp (λ c. is_space_or_newline c ≡ false) (λ c. c ≢ 10) path
            (λ c e. unfold is_space_or_newline in ground arith) w.1)

    no_nul : until_nul (request_line path) ≡ request_line path
    no_nul = until_nul_none (request_line path) (
        All-append (λ c. c ≢ 0) line (10 ∷ [])
          (All-request_line (λ c. c ≢ 0) path (omega arith) nul) (omega arith))
