-- ===== src/Web/Request.antt =====
-- `makeargv` and `get_request` of `Project 3 - Multithreaded Web Server/util.c`. The connection is
-- the bytes that the client sends; whether `fdopen` and `malloc` succeed is an argument.
pub mod Blocks
pub mod Kept
pub mod Prefixes
pub mod Safety
use operating_systems.Common.{
  ℕ, zero, suc, Bool, true, false, ◌||◌, Option, none, some, List, [], ◌∷◌, ltb, ◌==◌,
  if◌then◌else◌, length, take,
}
use operating_systems.CText.{
  Bytes, fgets, codes, str_eq, until_nul, contains, skip, strtok_loop, tokens, is_space_or_newline,
}

-- `makeargv`: the tokens are counted in one copy of the text and cut from a second one. `none` is
-- the result -1, when one of the two calls of `malloc` fails.
unfoldable pub make_argv : Bool → Bool → Bytes → (ℕ → Bool) → Option (List Bytes)
unfolding tokens
make_argv malloc_t malloc_argv s delimiters =
    let snew = skip delimiters s in
    let numtokens = length (tokens delimiters snew) in
    if malloc_t
    then if malloc_argv then some (strtok_loop numtokens delimiters snew) else none
    else none

-- The result of `get_request`: 0 with the file name, or a negative code. `fclose` of the NULL
-- stream that a failing `fdopen` leaves is undefined: `crashed`.
pub data Parsed : Type 0 where
  parsed : Bytes → Parsed
  rejected : ℕ → Parsed
  crashed : Parsed

-- The tests on the tokens of the first line, and the copy of at most 1023 bytes.
unfoldable pub check_strings : List Bytes → Parsed
check_strings [] = rejected 2
check_strings (s ∷ []) = rejected 2
check_strings (command ∷ path ∷ strings) =
    if str_eq (codes "GET") command
    then if contains (codes "..") path || contains (codes "//") path
      then rejected 4
      else parsed (take 1023 path)
    else rejected 1

unfoldable pub check_argv : Option (List Bytes) → Parsed
check_argv none = rejected 2
check_argv (some strings) = check_strings strings

unfoldable pub get_request : Bool → Bool → Bool → Bytes → Parsed
get_request fdopen_ok malloc_t malloc_argv stream =
    if fdopen_ok
    then elim (fgets 2048 stream) [
      | none ↦ rejected 3
      | some buf ↦ check_argv (make_argv malloc_t malloc_argv (until_nul buf) is_space_or_newline)
    ]
    else crashed
