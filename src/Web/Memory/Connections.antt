-- ===== src/Web/Memory/Connections.antt =====
-- The blocks of the connections that are served, in `dispatch` and `worker` of
-- `Project 3 - Multithreaded Web Server/server.c`.
use operating_systems.Common.{
  ℕ, ◌+◌, ◌≡◌, ◌≢◌, refl, some, List, [], ◌∷◌, ◌++◌, arith, All, Bool, true, false,
}
use operating_systems.CText.{Bytes}
use operating_systems.Web.Request.{Parsed, parsed, rejected, crashed, get_request}
use operating_systems.Web.Request.Kept.{kept, get_request-crashed, get_request_blocks-Owns}
use operating_systems.Web.Cache.{Cache, cached_reply}
use operating_systems.Web.Worker.{Disk, load, serve}
use operating_systems.Web.Memory.{
  Memory, Arrival, serve_parsed, serve_connection, serve_connections,
}
use operating_systems.Web.Memory.Holds.{Holds}
use operating_systems.Web.Memory.Service.{
  IsSound, lost_by_reply, Served, more_lost, serve_request-Holds,
}

abbrev pub lost_by_parsed : Disk → Bytes → Cache → Parsed → ℕ
lost_by_parsed disk working_dir c (parsed path) =
    lost_by_reply (cached_reply c path).0 (load disk working_dir path)
lost_by_parsed disk working_dir c (rejected n) = 0
lost_by_parsed disk working_dir c crashed = 0

abbrev pub cache_after : Disk → Bytes → Cache → ℕ → Parsed → Cache
cache_after disk working_dir c fd (parsed path) =
    (serve disk working_dir 0 0 0 c (record { fd = fd; request = path })).cache
cache_after disk working_dir c fd (rejected n) = c
cache_after disk working_dir c fd crashed = c

abbrev pub request_of : Arrival → Parsed
request_of c = get_request c.fdopen_ok c.malloc_t c.malloc_argv c.stream

-- The tokens of the refused requests, the streams of the accepted ones, and a buffer for each request that misses the cache and names a
-- file that cannot be read.
abbrev pub lost_blocks : Disk → Bytes → Cache → List Arrival → ℕ
lost_blocks disk working_dir cache [] = 0
lost_blocks disk working_dir cache (c ∷ cs) =
    kept c.malloc_t c.malloc_argv c.stream
    + (lost_by_parsed disk working_dir cache (request_of c)
        + lost_blocks disk working_dir (cache_after disk working_dir cache c.fd (request_of c)) cs)

-- The file of an accepted request brings no write past a buffer and no crash.
abbrev pub NoFault : Disk → Bytes → Parsed → Type 0
NoFault disk working_dir (parsed path) = IsSound (load disk working_dir path)
NoFault disk working_dir (rejected n) = Unit
NoFault disk working_dir crashed = Unit

-- `fdopen` succeeds, no error text runs over the buffer for a file, and no file's size is negative as
-- an `int`.
abbrev pub IsServed : Disk → Bytes → Arrival → Type 0
IsServed disk working_dir c = (c.fdopen_ok ≡ true) × NoFault disk working_dir (request_of c)

serve_parsed-Holds :
    (disk : Disk) (working_dir : Bytes) (own : List ℕ) (lost : ℕ) (m : Memory) (fd : ℕ) (p : Parsed)
    → Holds own lost m
    → p ≢ crashed
    → NoFault disk working_dir p
    → Served own
        (lost + lost_by_parsed disk working_dir m.cache p)
        (cache_after disk working_dir m.cache fd p)
        (serve_parsed disk working_dir m fd p)
unfolding serve_parsed
serve_parsed-Holds disk working_dir own lost m fd (parsed path) v k h =
    serve_request-Holds disk working_dir own lost m (record { fd = fd; request = path }) v h
serve_parsed-Holds disk working_dir own lost m fd (rejected n) v k h =
    (m, refl, more_lost own lost (lost + 0) m (omega arith) v, refl)
serve_parsed-Holds disk working_dir own lost m fd crashed v k h = absurd (k refl)

from_parts :
    (disk : Disk) (working_dir : Bytes) (own : List ℕ) (lost : ℕ) (m : Memory) (fd : ℕ)
    (fdopen_ok malloc_t malloc_argv : Bool) (stream : Bytes)
    → Holds own lost m
    → (fdopen_ok ≡ true)
    → NoFault disk working_dir (get_request fdopen_ok malloc_t malloc_argv stream)
    → Served own
        (lost
          + kept malloc_t malloc_argv stream
          + lost_by_parsed disk working_dir m.cache
              (get_request fdopen_ok malloc_t malloc_argv stream))
        (cache_after disk working_dir m.cache fd
          (get_request fdopen_ok malloc_t malloc_argv stream))
        (serve_connection disk working_dir m (record {
          fd = fd;
          fdopen_ok = fdopen_ok;
          malloc_t = malloc_t;
          malloc_argv = malloc_argv;
          stream = stream;
        }))
unfolding serve_connection
from_parts disk working_dir own lost m fd false malloc_t malloc_argv stream v e k = absurd (cc)
from_parts disk working_dir own lost m fd true malloc_t malloc_argv stream v e k =
    let p = get_request true malloc_t malloc_argv stream in
    let l = lost + kept malloc_t malloc_argv stream in
    let (h, eq, o) =
      get_request_blocks-Owns (own ++ v.blocks) lost malloc_t malloc_argv stream m.heap v.owns in
    let v1 : Holds own l (record m { heap = h }) = record {
      list = v.list;
      blocks = v.blocks;
      valid = v.valid;
      same = v.same;
      pointers = v.pointers;
      owns = o;
    } in
    let (m2, eq2, v2, same) =
      serve_parsed-Holds disk working_dir own l (record m { heap = h }) fd p v1
        (get_request-crashed malloc_t malloc_argv stream) k in
    (m2, rw (eq, serve_connection) eq2, v2, same)

serve_connection-Holds :
    (disk : Disk) (working_dir : Bytes) (own : List ℕ) (lost : ℕ) (m : Memory) (c : Arrival)
    → Holds own lost m
    → IsServed disk working_dir c
    → Served own
        (lost
          + kept c.malloc_t c.malloc_argv c.stream
          + lost_by_parsed disk working_dir m.cache (request_of c))
        (cache_after disk working_dir m.cache c.fd (request_of c))
        (serve_connection disk working_dir m c)
serve_connection-Holds disk working_dir own lost m c v k =
    from_parts disk working_dir own lost m c.fd c.fdopen_ok c.malloc_t c.malloc_argv c.stream v k.0
      k.1

-- After any connections, only those blocks are lost.
pub serve_connections-Holds :
    (disk : Disk) (working_dir : Bytes) (own : List ℕ) (lost : ℕ) (m : Memory) (cs : List Arrival)
    → Holds own lost m
    → All (IsServed disk working_dir) cs
    → (m' : Memory) × (serve_connections disk working_dir m cs ≡ some m')
      × Holds own (lost + lost_blocks disk working_dir m.cache cs) m'
unfolding serve_connections
serve_connections-Holds disk working_dir own lost m [] v h =
    (m, refl, more_lost own lost (lost + 0) m (omega arith) v)
serve_connections-Holds disk working_dir own lost m (c ∷ cs) v h =
    let (m1, eq, v1, same) = serve_connection-Holds disk working_dir own lost m c v h.0 in
    let l =
      lost
      + kept c.malloc_t c.malloc_argv c.stream
      + lost_by_parsed disk working_dir m.cache (request_of c) in
    let (m2, eq2, v2) = serve_connections-Holds disk working_dir own l m1 cs v1 h.1 in
    (
      m2,
      rw (eq, serve_connections) eq2,
      more_lost own (l + lost_blocks disk working_dir m1.cache cs) _ m2 (rw same (omega arith)) v2,
    )
