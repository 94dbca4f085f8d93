-- ===== src/Web/Worker.antt =====
-- How `worker` of `Project 3 - Multithreaded Web Server/server.c` serves one request: the lookup in
-- the cache, `readFromDisk`, the addition to the cache, the answer and the line of the log.
pub mod Coherence
pub mod Log
use operating_systems.Common.{
  ℕ, ◌+◌, ◌-◌, ◌%◌, ◌^◌, Bool, true, false, Option, none, some, List, [], ◌∷◌, ◌++◌, ltb,
  if◌then◌else◌, take, replicate, length,
}
use operating_systems.CText.{Bytes, codes}
use operating_systems.Numbers.{pos, negsuc, to_int, decimal, format_int}
use operating_systems.Web.Queue.{Request}
use operating_systems.Web.Cache.{Cache, cached_reply, add_into_cache}
use operating_systems.Web.Content.{get_content_type}

-- The file system: `stat` gives the size of a file, or fails; `open` and `read` give up to that
-- many bytes, or fail.
pub record Disk : Type 0 where
  pub stat_size : Bytes → Option ℕ
  pub read_file : Bytes → ℕ → Option Bytes

-- What the miss branch finds. `overrun`: the error text is longer than the buffer for the file.
pub data Load : Type 0 where
  missing overrun : Load
  unreadable : Bytes → Load
  loaded : Bytes → ℕ → Load

-- `buf` after a `read` of some bytes into a buffer of `size` zeros.
unfoldable pub read_into : ℕ → Bytes → Bytes
read_into size bytes = take size (bytes ++ replicate size 0)

-- The count that `read` gets: the `size_t` of the size as an `int`.
abbrev pub read_count : ℕ → ℕ
read_count size = let w = size % 2 ^ 32 in if ltb w (2 ^ 31) then w else 2 ^ 64 - (2 ^ 32 - w)

-- `readFromDisk` into a buffer of `size + 1` bytes.
unfoldable pub read_from_disk : Disk → Bytes → ℕ → Load
unfolding read_into
read_from_disk disk file_name size = elim (disk.read_file file_name (read_count size)) [
  | some bytes ↦ loaded (read_into size bytes) size
  | none ↦
      if ltb (length (codes "Error reading from disk")) (size + 1)
      then unreadable (codes "Error reading from disk")
      else overrun
]

-- The file for a request below the root of the web tree.
unfoldable pub load : Disk → Bytes → Bytes → Load
unfolding read_from_disk
load disk working_dir request = elim (disk.stat_size (working_dir ++ request)) [
  | none ↦ missing
  | some size ↦ read_from_disk disk (working_dir ++ request) size
]

-- The call that answers the client, `return_result` or `return_error`; `undefined` after an overrun or
-- a crash.
pub data Answer : Type 0 where
  result : (content_type buf : Bytes) → (size : ℕ) → Answer
  error : Bytes → Answer
  undefined : Answer

-- The error text has run over the buffer.
unfoldable pub overruns : Load → Bool
overruns overrun = true
overruns _ = false

-- The size of the file becomes a negative `int`, with which `addIntoCache` crashes.
unfoldable pub crashes : Load → Bool
unfolding to_int
crashes (loaded buf size) = elim (to_int size) [ pos n ↦ false | negsuc n ↦ true ]
crashes _ = false

-- The cache after the miss branch. `addIntoCache` gets the size as an `int`.
unfoldable pub cache_load : Cache → Bytes → Load → Cache
unfolding to_int
cache_load c request (loaded buf size) = elim (to_int size) [
  | pos n ↦ add_into_cache c request buf n
  | negsuc n ↦ c
]
cache_load c request missing = c
cache_load c request overrun = c
cache_load c request (unreadable text) = c

unfoldable pub answer_load : Bytes → Load → Answer
unfolding to_int
answer_load request (loaded buf size) = elim (to_int size) [
  | pos n ↦ result (get_content_type request) buf size
  | negsuc n ↦ undefined
]
answer_load request missing = error (codes "Couldn't retrieve file size, file not found")
answer_load request overrun = undefined
answer_load request (unreadable text) = error text

-- One field of a line of the log.
unfoldable pub log_field : Bytes → Bytes
log_field text = codes "[" ++ (text ++ codes "]")

-- The line of the log: thread, number of the request, descriptor, request, size or error, the time
-- taken (an unsigned long), and HIT or MISS.
unfoldable pub log_message : ℕ → ℕ → Request → Bytes → ℕ → Bool → Bytes
unfolding log_field
log_message id req_num r outcome duration hit =
    log_field (format_int id)
    ++ (log_field (format_int req_num)
        ++ (log_field (format_int r.fd)
            ++ (log_field r.request
                ++ (log_field outcome
                    ++ (log_field (decimal (duration % 2 ^ 64) ++ codes "micros")
                        ++ (log_field (if hit then codes "HIT" else codes "MISS") ++ 10 ∷ []))))))

unfoldable pub log_outcome : Answer → Bytes
log_outcome (result content_type buf size) = decimal size
log_outcome (error text) = text
log_outcome undefined = []

pub record Service : Type 0 where
  pub cache : Cache
  pub answer : Answer
  pub log : Bytes

-- The service of one request with no other worker between its two visits of the cache.
unfoldable pub serve : Disk → Bytes → ℕ → ℕ → ℕ → Cache → Request → Service
serve disk working_dir id req_num duration c r =
    let (found, c') = cached_reply c r.request in
    elim found [
      | some (buf, size) ↦
          let a = result (get_content_type r.request) buf size in
          record {
            cache = c';
            answer = a;
            log = log_message id req_num r (log_outcome a) duration true;
          }
      | none ↦
          let l = load disk working_dir r.request in
          let a = answer_load r.request l in
          record {
            cache = cache_load c' r.request l;
            answer = a;
            log = log_message id req_num r (log_outcome a) duration false;
          }
    ]
