-- ===== src/Web/Request/Blocks.antt =====
-- The blocks that `makeargv`, `freemakeargv` and `get_request` of
-- `Project 3 - Multithreaded Web Server/util.c` allocate and free.
use operating_systems.Common.{
  ℕ, Bool, true, false, Option, none, some, List, [], ◌∷◌, if◌then◌else◌,
}
use operating_systems.CText.{Bytes, fgets, until_nul, is_space_or_newline}
use operating_systems.Web.Heap.{Heap, malloc, free, ◌>>=◌}
use operating_systems.Web.Request.{make_argv, Parsed, parsed, rejected, crashed, check_strings}

-- What `makeargv` returns: the tokens, the block they stand in, if there are any, and the array.
pub record Argv : Type 0 where
  pub strings : List Bytes
  pub text : Option ℕ
  pub array : ℕ

-- Without tokens the copy of the text is freed.
unfoldable pub fill_argv : ℕ → ℕ → List Bytes → Heap → Option (Option Argv × Heap)
unfolding free
fill_argv t argv [] h = do
  h1 ← free t h
  some (some (record { strings = []; text = none; array = argv }), h1)
fill_argv t argv (s ∷ strings) h =
    some (some (record { strings = s ∷ strings; text = some t; array = argv }), h)

-- `makeargv`, with the results of its two calls of `malloc`.
unfoldable pub make_argv_blocks :
    Bool → Bool → Bytes → (ℕ → Bool) → Heap → Option (Option Argv × Heap)
unfolding malloc free fill_argv make_argv
make_argv_blocks false malloc_argv s delimiters h = some (none, h)
make_argv_blocks true false s delimiters h = do h1 ← free h.next (malloc h).1; some (none, h1)
make_argv_blocks true true s delimiters h =
    let (t, h1) = malloc h in
    let (argv, h2) = malloc h1 in
    elim (make_argv true true s delimiters) [
      | none ↦ some (none, h2)
      | some strings ↦ fill_argv t argv strings h2
    ]

-- `freemakeargv`
unfoldable pub free_make_argv : Argv → Heap → Option Heap
unfolding free
free_make_argv a h = elim a.text [
  | none ↦ free a.array h
  | some t ↦ free t h >>= λ h1. free a.array h1
]

-- The tests on the tokens: the blocks are given back only behind the last one.
unfoldable pub check_blocks : Option Argv → Heap → Option (Parsed × Heap)
unfolding check_strings free_make_argv
check_blocks none h = some (rejected 2, h)
check_blocks (some a) h = elim (check_strings a.strings) [
  | parsed path ↦ free_make_argv a h >>= λ h1. some (parsed path, h1)
  | rejected n ↦ some (rejected n, h)
  | crashed ↦ some (crashed, h)
]

-- `get_request` behind its `fdopen`, without the calls of `fclose`.
unfoldable pub line_blocks : Bool → Bool → Bytes → Heap → Option (Parsed × Heap)
unfolding fgets until_nul is_space_or_newline make_argv_blocks check_blocks
line_blocks malloc_t malloc_argv stream h = elim (fgets 2048 stream) [
  | none ↦ some (rejected 3, h)
  | some buf ↦
      make_argv_blocks malloc_t malloc_argv (until_nul buf) is_space_or_newline h >>= λ (argv, h1).
      check_blocks argv h1
]

-- Every return of an error is behind an `fclose`, which frees the stream; that of 0 is not.
unfoldable pub close_stream : ℕ → Parsed × Heap → Option (Parsed × Heap)
unfolding free
close_stream f (parsed path, h) = some (parsed path, h)
close_stream f (rejected n, h) = do h1 ← free f h; some (rejected n, h1)
close_stream f (crashed, h) = some (crashed, h)

-- `fdopen` allocates the stream, a block here with its buffer; `fclose` of no stream crashes.
unfoldable pub get_request_blocks : Bool → Bool → Bool → Bytes → Heap → Option (Parsed × Heap)
unfolding malloc line_blocks close_stream
get_request_blocks fdopen_ok malloc_t malloc_argv stream h =
    if fdopen_ok
    then line_blocks malloc_t malloc_argv stream (malloc h).1 >>= close_stream h.next
    else some (crashed, h)
