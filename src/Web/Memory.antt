-- ===== src/Web/Memory.antt =====
-- What `main` and `worker` of `Project 3 - Multithreaded Web Server/server.c` allocate and free: the
-- blocks of `main`, the contents of the cache, and the buffers of a request.
pub mod Holds
pub mod Content
pub mod Service
pub mod Connections
pub mod Main
pub mod Shutdown
use operating_systems.Common.{
  ℕ, zero, suc, ◌+◌, Bool, Option, none, some, List, [], ◌∷◌, ◌==◌, if◌then◌else◌, get_elem?, set,
  replicate,
}
use operating_systems.Numbers.{pos, negsuc, to_int}
use operating_systems.CText.{Bytes}
use operating_systems.Web.Heap.{Heap, no_blocks, malloc, free, ◌>>=◌}
use operating_systems.Web.Queue.{Request}
use operating_systems.Web.Request.{Parsed, parsed, rejected, crashed}
use operating_systems.Web.Request.Blocks.{get_request_blocks}
use operating_systems.Web.Cache.{Cache, init_cache, cached_reply, evict_index, add_into_cache}
use operating_systems.Web.Worker.{Disk, Load, missing, overrun, unreadable, loaded, load}

-- The cache, the pointer `content` of each of its slots, and the heap.
pub record Memory : Type 0 where
  pub cache : Cache
  pub contents : List (Option ℕ)
  pub heap : Heap

-- The pointer in a slot; `none` if the slot was never written or lies outside the array.
unfoldable pub read_pointer : List (Option ℕ) → ℕ → Option ℕ
read_pointer contents i = elim (get_elem? contents i) [ none ↦ none | some p ↦ p ]

unfoldable pub free_in : ℕ → Memory → Option Memory
unfolding free
free_in p m = elim (free p m.heap) [ none ↦ none | some h ↦ some (record m { heap = h }) ]

-- The memory after a `malloc`, which returns the block `m.heap.next`.
unfoldable pub malloc_in : Memory → Memory
unfolding malloc
malloc_in m = record m { heap = (malloc m.heap).1 }

-- The content of a replaced entry is freed.
unfoldable pub replace_content : Memory → ℕ → ℕ → Cache → Option Memory
unfolding free_in read_pointer
replace_content m p at c = do
  q ← read_pointer m.contents at
  m1 ← free_in q m
  some (record m1 { cache = c; contents = set m1.contents at (some p) })

-- `addIntoCache`: the copy of the content is a new block.
unfoldable pub add_content : Memory → Bytes → Bytes → ℕ → Option Memory
unfolding malloc_in replace_content
add_content m request memory memory_size =
    let p = m.heap.next in
    let m1 = malloc_in m in
    let c = add_into_cache m.cache request memory memory_size in
    if m.cache.num_cache_entries == m.cache.cache_size
    then replace_content m1 p (evict_index m.cache.entries) c
    else some
        (record m1 { cache = c; contents = set m.contents m.cache.next_slot_to_store (some p) })

-- A file that was read is added to the cache, and its buffer and the path are freed.
unfoldable pub keep_load : Memory → ℕ → Bytes → Bytes → ℕ → Option Memory
unfolding malloc_in free_in add_content
keep_load m absolute_path request memory n = do
  m1 ← add_content (malloc_in m) request memory n
  m2 ← free_in m.heap.next m1
  free_in absolute_path m2

-- The miss branch of `worker`, with its `absolute_path`. The buffer of a file that could not be read
-- is not freed; `addIntoCache` crashes on a size that is negative as an `int`.
unfoldable pub serve_load : Memory → ℕ → Bytes → Load → Option Memory
unfolding malloc_in free_in keep_load to_int
serve_load m absolute_path request missing = free_in absolute_path m
serve_load m absolute_path request overrun = none
serve_load m absolute_path request (unreadable text) = free_in absolute_path (malloc_in m)
serve_load m absolute_path request (loaded memory size) = elim (to_int size) [
  | pos n ↦ keep_load m absolute_path request memory n
  | negsuc n ↦ none
]

-- The service of one request by `worker`, with no other worker between its two visits of the cache:
-- a hit takes a block for `buf`, a miss one for `absolute_path`.
unfoldable pub serve_request : Disk → Bytes → Memory → Request → Option Memory
unfolding malloc_in free_in serve_load
serve_request disk working_dir m r =
    let (found, c) = cached_reply m.cache r.request in
    let m1 = malloc_in (record m { cache = c }) in
    elim found [
      | some _ ↦ free_in m.heap.next m1
      | none ↦ serve_load m1 m.heap.next r.request (load disk working_dir r.request)
    ]

-- A connection as it arrives in `dispatch`: whether the calls of `fdopen` and of `malloc` for its request
-- succeed, and what the client sends.
pub record Arrival : Type 0 where
  pub fd : ℕ
  pub fdopen_ok : Bool
  pub malloc_t : Bool
  pub malloc_argv : Bool
  pub stream : Bytes

-- A parsed request is served.
unfoldable pub serve_parsed : Disk → Bytes → Memory → ℕ → Parsed → Option Memory
unfolding serve_request
serve_parsed disk working_dir m fd (parsed path) =
    serve_request disk working_dir m (record { fd = fd; request = path })
serve_parsed disk working_dir m fd (rejected n) = some m
serve_parsed disk working_dir m fd crashed = none

-- `dispatch` and `worker` on one connection.
unfoldable pub serve_connection : Disk → Bytes → Memory → Arrival → Option Memory
unfolding serve_parsed get_request_blocks
serve_connection disk working_dir m c =
    get_request_blocks c.fdopen_ok c.malloc_t c.malloc_argv c.stream m.heap >>= λ (p, h).
    serve_parsed disk working_dir (record m { heap = h }) c.fd p

unfoldable pub serve_connections : Disk → Bytes → Memory → List Arrival → Option Memory
unfolding serve_connection
serve_connections disk working_dir m [] = some m
serve_connections disk working_dir m (c ∷ cs) = do
  m1 ← serve_connection disk working_dir m c
  serve_connections disk working_dir m1 cs
