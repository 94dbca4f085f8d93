-- ===== src/Web/Cache.antt =====
-- The cache of `Project 3 - Multithreaded Web Server/server.c`: `cache_entry_t`, `cache_t`,
-- `initCache`, `getCacheIndex` and `addIntoCache`. `malloc` is taken to succeed, as the code does
-- not test it; `free` has no effect that the program can observe.
pub mod Arrays
pub mod Entries
pub mod Lookup
pub mod Eviction
use operating_systems.Common.{
  ℕ, zero, suc, ◌+◌, ◌%◌, ◌^◌, Bool, Option, none, some, List, [], ◌∷◌, ◌==◌, ltb, if◌then◌else◌,
  get_elem?, set, take, replicate,
}
use operating_systems.CText.{Bytes, str_eq}

-- `cache_entry_t`. `len` is an `int`, and never negative: `addIntoCache` crashes before it stores a
-- negative one (see `new_entry`). `freq_used` is the bit pattern of a 32-bit `int`; its overflow wraps.
pub record CacheEntry : Type 0 where
  pub len : ℕ
  pub request : Bytes
  pub content : Bytes
  pub freq_used : ℕ

-- `cache_t`. An entry of the malloc'ed array that was never written is `none`.
pub record Cache : Type 0 where
  pub next_slot_to_store : ℕ
  pub num_cache_entries : ℕ
  pub cache_size : ℕ
  pub entries : List (Option CacheEntry)

-- `x++` on an `int`.
abbrev pub int_inc : ℕ → ℕ
int_inc x = (x + 1) % 2 ^ 32

-- Where a bit pattern stands in the order of the signed integers.
abbrev pub int_rank : ℕ → ℕ
int_rank x = (x + 2 ^ 31) % 2 ^ 32

-- `initCache`
unfoldable pub init_cache : ℕ → Cache
init_cache cache_entries = record {
  next_slot_to_store = 0;
  num_cache_entries = 0;
  cache_size = cache_entries;
  entries = replicate cache_entries none;
}

-- The loop of `getCacheIndex`, with the rounds left and the index `i`. An entry that was never
-- written is passed over; no valid cache has one below `num_cache_entries`.
unfoldable pub find_entry : ℕ → List (Option CacheEntry) → Bytes → ℕ → Option ℕ
find_entry zero es key i = none
find_entry (suc n) [] key i = none
find_entry (suc n) (none ∷ es) key i = find_entry n es key (i + 1)
find_entry (suc n) (some e ∷ es) key i =
    if str_eq e.request key then some i else find_entry n es key (i + 1)

unfoldable pub touch : CacheEntry → CacheEntry
touch e = record e { freq_used = int_inc e.freq_used }

-- `cache->entries[i].freq_used++`
unfoldable pub bump : List (Option CacheEntry) → ℕ → List (Option CacheEntry)
unfolding touch
bump es i = elim (get_elem? es i) [
  | none ↦ es
  | some none ↦ es
  | some (some e) ↦ set es i (some (touch e))
]

-- `getCacheIndex`: the index or -1, and the cache with the hit counted.
unfoldable pub get_cache_index : Cache → Bytes → Option ℕ × Cache
unfolding find_entry bump
get_cache_index c key = elim (find_entry c.num_cache_entries c.entries key 0) [
  | none ↦ (none, c)
  | some i ↦ (some i, record c { entries = bump c.entries i })
]

-- The loop of `addIntoCache` that looks for the entry to replace, at index `i`.
unfoldable pub evict_scan : List (Option CacheEntry) → ℕ → ℕ → ℕ → ℕ
evict_scan [] i lowest evict_index = evict_index
evict_scan (none ∷ es) i lowest evict_index = evict_scan es (i + 1) lowest evict_index
evict_scan (some e ∷ es) i lowest evict_index =
    let lower = ltb (int_rank e.freq_used) (int_rank lowest) in
    evict_scan es (i + 1) (if lower then e.freq_used else lowest) (if lower then i else evict_index)

unfoldable pub evict_index : List (Option CacheEntry) → ℕ
unfolding evict_scan
evict_index [] = 0
evict_index (none ∷ es) = 0
evict_index (some e ∷ es) = evict_scan es 1 e.freq_used 0

-- The entry that `addIntoCache` builds: `memory_size` bytes are copied. `memory_size` is an `int` that
-- is not negative; with a negative one `malloc` gets nearly 2^64 bytes and fails, and `memset` writes
-- to the null pointer that it returns. `cache_load` makes the `int` of the file's size, and has both
-- cases.
unfoldable pub new_entry : Bytes → Bytes → ℕ → CacheEntry
new_entry request memory memory_size = record {
  len = memory_size;
  request = request;
  content = take memory_size memory;
  freq_used = 0;
}

-- `addIntoCache`
unfoldable pub add_into_cache : Cache → Bytes → Bytes → ℕ → Cache
unfolding evict_index new_entry
add_into_cache c request memory memory_size =
    let entry = new_entry request memory memory_size in
    if c.num_cache_entries == c.cache_size
    then record c { entries = set c.entries (evict_index c.entries) (some entry) }
    else record c {
      entries = set c.entries c.next_slot_to_store (some entry);
      num_cache_entries = c.num_cache_entries + 1;
      next_slot_to_store = (c.next_slot_to_store + 1) % c.cache_size;
    }

unfoldable pub send : List (Option CacheEntry) → Option ℕ → Option (Bytes × ℕ)
send es none = none
send es (some i) = elim (get_elem? es i) [
  | none ↦ none
  | some none ↦ none
  | some (some e) ↦ some (take e.len e.content, e.len)
]

-- What `worker` sends for a request that is in the cache: `size` bytes of the entry's content, and
-- `size`. `none` is a miss.
unfoldable pub cached_reply : Cache → Bytes → Option (Bytes × ℕ) × Cache
unfolding send
cached_reply c request = let (index, c') = get_cache_index c request in (send c'.entries index, c')
