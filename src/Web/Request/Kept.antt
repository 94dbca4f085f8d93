-- ===== src/Web/Request/Kept.antt =====
-- What `get_request` of `Project 3 - Multithreaded Web Server/util.c` leaves allocated.
use operating_systems.Common.{
  ℕ, ◌+◌, ◌≡◌, ◌≢◌, refl, subst, Bool, true, false, Option, none, some, List, [], ◌∷◌, arith,
  Option-cases, inl, inr,
}
use operating_systems.CText.{Bytes, fgets, until_nul, is_space_or_newline}
use operating_systems.Web.Heap.{Heap, malloc, ◌>>=◌, Owns, malloc-Owns, free-Owns, Owns-tail}
use operating_systems.Web.Request.{
  make_argv, Parsed, parsed, rejected, crashed, check_strings, check_argv, get_request,
}
use operating_systems.Web.Request.Blocks.{
  Argv, fill_argv, make_argv_blocks, free_make_argv, check_blocks, line_blocks, close_stream,
  get_request_blocks,
}

-- How many blocks the tests leave: the tokens' two, or the empty array, if they do not accept.
abbrev kept_by : List Bytes → Parsed → ℕ
kept_by strings (parsed path) = 0
kept_by [] (rejected n) = 1
kept_by (s ∷ strings) (rejected n) = 2
kept_by [] crashed = 1
kept_by (s ∷ strings) crashed = 2

abbrev kept_argv : Option (List Bytes) → ℕ
kept_argv none = 0
kept_argv (some strings) = kept_by strings (check_strings strings)

-- The blocks of the tokens that `get_request` does not give back.
abbrev kept_line : Bool → Bool → Option Bytes → ℕ
kept_line malloc_t malloc_argv none = 0
kept_line malloc_t malloc_argv (some buf) =
    kept_argv (make_argv malloc_t malloc_argv (until_nul buf) is_space_or_newline)

-- The stream of an accepted request is never closed.
abbrev kept_stream : Parsed → ℕ
kept_stream (parsed path) = 1
kept_stream (rejected n) = 0
kept_stream crashed = 0

-- The blocks that `get_request` does not give back.
abbrev pub kept : Bool → Bool → Bytes → ℕ
kept malloc_t malloc_argv stream =
    kept_line malloc_t malloc_argv (fgets 2048 stream)
    + kept_stream (get_request true malloc_t malloc_argv stream)

-- A result, and what stays allocated.
abbrev pub Leaves : List ℕ → ℕ → Parsed → Option (Parsed × Heap) → Type 0
Leaves own lost p o = (h : Heap) × (o ≡ some (p, h)) × Owns own lost h

same_lost :
    (own : List ℕ) (lost lost' : ℕ) (h : Heap) → lost ≡ lost' → Owns own lost h → Owns own lost' h
same_lost own lost lost' h e o = subst (λ n. Owns own n h) e o

abbrev blocks_of : Argv → List ℕ → List ℕ
blocks_of a own = elim a.text [ none ↦ a.array ∷ own | some t ↦ t ∷ a.array ∷ own ]

accepted-Owns :
    (own : List ℕ) (lost t argv : ℕ) (s : Bytes) (strings : List Bytes) (h : Heap) (p : Parsed)
    → check_strings (s ∷ strings) ≡ p
    → Owns (argv ∷ t ∷ own) lost h
    → Leaves own
        (lost + kept_by (s ∷ strings) p)
        p
        (check_blocks (some (record { strings = s ∷ strings; text = some t; array = argv })) h)
unfolding check_blocks free_make_argv
accepted-Owns own lost t argv s strings h (parsed path) e o =
    let (h1, eq1, o1) =
      free-Owns (argv ∷ t ∷ own) (argv ∷ own) lost t h o (λ q. omega arith) refl in
    let (h2, eq2, o2) = free-Owns (argv ∷ own) own lost argv h1 o1 (λ q. refl) refl in
    (
      h2,
      rw (e, eq1, eq2, check_blocks, free_make_argv) refl,
      same_lost own lost (lost + 0) h2 (omega arith) o2,
    )
accepted-Owns own lost t argv s strings h (rejected n) e o = (
  h,
  rw (e, check_blocks) refl,
  same_lost own (lost + 1 + 1) (lost + 2) h (omega arith)
      (Owns-tail own t (lost + 1) h (Owns-tail (t ∷ own) argv lost h o)),
)
accepted-Owns own lost t argv s strings h crashed e o = (
  h,
  rw (e, check_blocks) refl,
  same_lost own (lost + 1 + 1) (lost + 2) h (omega arith)
      (Owns-tail own t (lost + 1) h (Owns-tail (t ∷ own) argv lost h o)),
)

filled-Owns :
    (own : List ℕ) (lost t argv : ℕ) (strings : List Bytes) (h : Heap)
    → Owns (argv ∷ t ∷ own) lost h
    → Leaves own
        (lost + kept_by strings (check_strings strings))
        (check_strings strings)
        (fill_argv t argv strings h >>= λ (a, h1). check_blocks a h1)
unfolding fill_argv check_blocks check_strings
filled-Owns own lost t argv [] h o =
    let (h1, eq1, o1) =
      free-Owns (argv ∷ t ∷ own) (argv ∷ own) lost t h o (λ q. omega arith) refl in
    (h1, rw (eq1, fill_argv) refl, Owns-tail own argv lost h1 o1)
filled-Owns own lost t argv (s ∷ strings) h o =
    accepted-Owns own lost t argv s strings h (check_strings (s ∷ strings)) refl o

argv-Owns :
    (own : List ℕ) (lost : ℕ) (malloc_t malloc_argv : Bool) (s : Bytes) (h : Heap)
    → Owns own lost h
    → Leaves own
        (lost + kept_argv (make_argv malloc_t malloc_argv s is_space_or_newline))
        (check_argv (make_argv malloc_t malloc_argv s is_space_or_newline))
        (make_argv_blocks malloc_t malloc_argv s is_space_or_newline h >>= λ (a, h1).
          check_blocks a h1)
unfolding make_argv_blocks make_argv check_blocks check_argv
argv-Owns own lost false malloc_argv s h o =
    (h, refl, same_lost own lost (lost + 0) h (omega arith) o)
argv-Owns own lost true false s h o =
    let (h1, eq1, o1) =
      free-Owns (h.next ∷ own) own lost h.next (malloc h).1 (malloc-Owns own lost h o) (λ q. refl)
        refl in
    (h1, rw (eq1, make_argv_blocks) refl, same_lost own lost (lost + 0) h1 (omega arith) o1)
argv-Owns own lost true true s h o =
    let h1 = (malloc h).1 in
    filled-Owns own lost h.next h1.next _ (malloc h1).1
      (malloc-Owns (h.next ∷ own) lost h1 (malloc-Owns own lost h o))

line_blocks-Owns :
    (own : List ℕ) (lost : ℕ) (malloc_t malloc_argv : Bool) (stream : Bytes) (h : Heap)
    → Owns own lost h
    → Leaves own
        (lost + kept_line malloc_t malloc_argv (fgets 2048 stream))
        (get_request true malloc_t malloc_argv stream)
        (line_blocks malloc_t malloc_argv stream h)
unfolding line_blocks get_request
line_blocks-Owns own lost malloc_t malloc_argv stream h o =
    elim (Option-cases (fgets 2048 stream)) [
      | inl e ↦
          rw (e, line_blocks, get_request)
            (h, refl, same_lost own lost (lost + 0) h (omega arith) o)
      | inr (buf, e) ↦
          rw (e, line_blocks, get_request)
            (argv-Owns own lost malloc_t malloc_argv (until_nul buf) h o)
    ]

check_strings-crashed : (strings : List Bytes) → check_strings strings ≢ crashed
unfolding check_strings
check_strings-crashed [] e = cc
check_strings-crashed (s ∷ []) e = cc
check_strings-crashed (command ∷ path ∷ strings) e = ground (arith, e)

check_argv-crashed : (o : Option (List Bytes)) → check_argv o ≢ crashed
unfolding check_argv
check_argv-crashed none e = cc
check_argv-crashed (some strings) e = check_strings-crashed strings e

-- With an open stream `get_request` does not crash.
pub get_request-crashed :
    (malloc_t malloc_argv : Bool) (stream : Bytes)
    → get_request true malloc_t malloc_argv stream ≢ crashed
unfolding get_request
get_request-crashed malloc_t malloc_argv stream = elim (Option-cases (fgets 2048 stream)) [
  | inl e ↦ rw (e, get_request) (λ e. cc)
  | inr (buf, e) ↦
      rw (e, get_request)
        (check_argv-crashed (make_argv malloc_t malloc_argv (until_nul buf) is_space_or_newline))
]

close_stream-Owns :
    (own : List ℕ) (lost f : ℕ) (p : Parsed) (h : Heap)
    → p ≢ crashed
    → Owns (f ∷ own) lost h
    → Leaves own (lost + kept_stream p) p (close_stream f (p, h))
unfolding close_stream
close_stream-Owns own lost f (parsed path) h ne o = (h, refl, Owns-tail own f lost h o)
close_stream-Owns own lost f (rejected n) h ne o =
    let (h1, eq, o1) = free-Owns (f ∷ own) own lost f h o (λ q. refl) refl in
    (h1, rw (eq, close_stream) refl, same_lost own lost (lost + 0) h1 (omega arith) o1)
close_stream-Owns own lost f crashed h ne o = absurd (ne refl)

-- `get_request` frees only blocks that it has, and leaves those of a refused request's tokens, or the
-- stream of an accepted one.
pub get_request_blocks-Owns :
    (own : List ℕ) (lost : ℕ) (malloc_t malloc_argv : Bool) (stream : Bytes) (h : Heap)
    → Owns own lost h
    → Leaves own
        (lost + kept malloc_t malloc_argv stream)
        (get_request true malloc_t malloc_argv stream)
        (get_request_blocks true malloc_t malloc_argv stream h)
unfolding get_request_blocks
get_request_blocks-Owns own lost malloc_t malloc_argv stream h o =
    let p = get_request true malloc_t malloc_argv stream in
    let l = kept_line malloc_t malloc_argv (fgets 2048 stream) in
    let (h1, eq1, o1) =
      line_blocks-Owns (h.next ∷ own) lost malloc_t malloc_argv stream (malloc h).1
        (malloc-Owns own lost h o) in
    let (h2, eq2, o2) =
      close_stream-Owns own (lost + l) h.next p h1 (get_request-crashed malloc_t malloc_argv stream)
        o1 in
    (
      h2,
      rw (eq1, get_request_blocks) eq2,
      same_lost own (lost + l + kept_stream p) (lost + (l + kept_stream p)) h2 (omega arith) o2,
    )
