-- ===== src/Web/Memory/Main.antt =====
-- The blocks of `main` in `Project 3 - Multithreaded Web Server/server.c`, from the start to the
-- shutdown.
use operating_systems.Common.{ℕ, zero, suc, Option, none, some, List, [], ◌∷◌, replicate}
use operating_systems.CText.{Bytes}
use operating_systems.Web.Heap.{Heap, no_blocks, malloc, free, ◌>>=◌}
use operating_systems.Web.Cache.{init_cache}
use operating_systems.Web.Worker.{Disk}
use operating_systems.Web.Memory.{Memory, Arrival, serve_connections}

-- The blocks that `main` holds until the shutdown.
pub record Blocks : Type 0 where
  pub request_queue : ℕ
  pub requests : ℕ
  pub cache : ℕ
  pub entries : ℕ
  pub working_dir : ℕ
  pub dispatcher_threads : ℕ
  pub worker_threads : ℕ
  pub ids_dispatcher : ℕ
  pub ids_workers : ℕ

-- `main` up to the creation of the threads: `initRequestQueue`, `initCache`, and the arrays.
unfoldable pub start_memory : ℕ → Blocks × Memory
unfolding malloc
start_memory cache_entries =
    let (request_queue, h1) = malloc no_blocks in
    let (requests, h2) = malloc h1 in
    let (cache, h3) = malloc h2 in
    let (entries, h4) = malloc h3 in
    let (working_dir, h5) = malloc h4 in
    let (dispatcher_threads, h6) = malloc h5 in
    let (worker_threads, h7) = malloc h6 in
    let (ids_dispatcher, h8) = malloc h7 in
    let (ids_workers, h9) = malloc h8 in
    (
      record {
        request_queue = request_queue;
        requests = requests;
        cache = cache;
        entries = entries;
        working_dir = working_dir;
        dispatcher_threads = dispatcher_threads;
        worker_threads = worker_threads;
        ids_dispatcher = ids_dispatcher;
        ids_workers = ids_workers;
      },
      record {
        cache = init_cache cache_entries;
        contents = replicate cache_entries none;
        heap = h9;
      },
    )

-- `deleteRequestQueue`
unfoldable pub delete_request_queue : Blocks → Heap → Option Heap
unfolding free
delete_request_queue b h = do h1 ← free b.requests h; free b.request_queue h1

-- The loop of `deleteCache`, with the rounds left. A pointer that was never written is no block.
unfoldable pub free_contents : ℕ → List (Option ℕ) → Heap → Option Heap
unfolding free
free_contents zero contents h = some h
free_contents (suc n) [] h = none
free_contents (suc n) (none ∷ contents) h = none
free_contents (suc n) (some p ∷ contents) h = do h1 ← free p h; free_contents n contents h1

-- `deleteCache`
unfoldable pub delete_cache : Blocks → Memory → Heap → Option Heap
unfolding free free_contents
delete_cache b m h = do
  h1 ← free_contents m.cache.num_cache_entries m.contents h
  h2 ← free b.entries h1
  free b.cache h2

-- The end of `main`, after the threads were cancelled.
unfoldable pub clean_up : Blocks → Memory → Option Heap
unfolding free delete_request_queue delete_cache
clean_up b m = do
  h1 ← free b.working_dir m.heap
  h2 ← free b.dispatcher_threads h1
  h3 ← free b.worker_threads h2
  h4 ← free b.ids_dispatcher h3
  h5 ← free b.ids_workers h4
  h6 ← delete_request_queue b h5
  delete_cache b m h6

-- A whole run: the start, the connections that were served, and the shutdown.
unfoldable pub main_memory : Disk → Bytes → ℕ → List Arrival → Option Heap
unfolding start_memory serve_connections clean_up
main_memory disk working_dir cache_entries cs =
    let (b, m) = start_memory cache_entries in
    do m1 ← serve_connections disk working_dir m cs; clean_up b m1
