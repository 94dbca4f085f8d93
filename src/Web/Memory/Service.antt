-- ===== src/Web/Memory/Service.antt =====
-- The blocks that the service of requests takes and gives back, in `worker` of
-- `Project 3 - Multithreaded Web Server/server.c`.
use operating_systems.Common.{
  ℕ, true, false, ◌+◌, ◌-◌, ◌≡◌, refl, sym, ap, ◌∙◌, subst, Option, none, some, List, ◌∷◌, ◌++◌,
  length, arith, Option-cases, inl, inr,
}
use operating_systems.Numbers.{ℤ, pos, negsuc, to_int}
use operating_systems.CText.{Bytes}
use operating_systems.Web.Queue.{Request}
use operating_systems.Web.Heap.{Owns-tail}
use operating_systems.Web.Cache.{
  add_into_cache, Cache, CacheEntry, find_entry, cached_reply, get_cache_index,
}
use operating_systems.Web.Cache.Entries.{looked_up, get_cache_index-Repr}
use operating_systems.Web.Cache.Arrays.{length-touch_at, find, fill}
use operating_systems.Web.Worker.{
  Disk, Load, missing, overrun, unreadable, loaded, load, cache_load, serve, overruns, crashes,
}
use operating_systems.Web.Memory.{Memory, malloc_in, keep_load, serve_load, serve_request}
use operating_systems.Web.Memory.Holds.{Holds, malloc_in-Holds, free_in-Holds}
use operating_systems.Web.Memory.Content.{add_content-Holds}

-- The buffer of a file that cannot be read is lost.
abbrev pub lost_by : Load → ℕ
lost_by missing = 0
lost_by overrun = 0
lost_by (unreadable text) = 1
lost_by (loaded memory size) = 0

abbrev pub lost_by_reply : Option (Bytes × ℕ) → Load → ℕ
lost_by_reply none l = lost_by l
lost_by_reply (some reply) l = 0

-- What a service leaves: its blocks are freed, but for those that are lost.
abbrev pub Served : List ℕ → ℕ → Cache → Option Memory → Type 0
Served own lost c o = (m : Memory) × (o ≡ some m) × Holds own lost m × (m.cache ≡ c)

pub more_lost :
    (own : List ℕ) (lost lost' : ℕ) (m : Memory)
    → lost ≡ lost'
    → Holds own lost m
    → Holds own lost' m
more_lost own lost lost' m e v = subst (λ n. Holds own n m) e v

-- No write runs past the buffer, and `addIntoCache` does not crash.
abbrev pub IsSound : Load → Type 0
IsSound l = (overruns l ≡ false) × (crashes l ≡ false)

not_negative : (z : ℤ) → elim z [ pos n ↦ false | negsuc n ↦ true ] ≡ false → (n : ℕ) × (z ≡ pos n)
not_negative (pos n) e = (n, refl)
not_negative (negsuc n) e = absurd (cc)

keep_load-Holds :
    (own : List ℕ) (lost path : ℕ) (m : Memory) (request memory : Bytes) (n : ℕ)
    → Holds (path ∷ own) lost m
    → Served own
        (lost + 0)
        (add_into_cache m.cache request memory n)
        (keep_load m path request memory n)
unfolding keep_load malloc_in
keep_load-Holds own lost path m request memory n v =
    let v0 = malloc_in-Holds (path ∷ own) lost m v in
    let (m1, eq1, v1, c1) =
      add_content-Holds (m.heap.next ∷ path ∷ own) lost (malloc_in m) request memory n v0 in
    let (m2, eq2, v2, c2) =
      free_in-Holds (m.heap.next ∷ path ∷ own) (path ∷ own) lost m.heap.next m1 v1 (λ q. refl)
        refl in
    let (m3, eq3, v3, c3) = free_in-Holds (path ∷ own) own lost path m2 v2 (λ q. refl) refl in
    (
      m3,
      rw (eq1, eq2, keep_load) eq3,
      more_lost own lost (lost + 0) m3 (omega arith) v3,
      c3 ∙ c2 ∙ c1,
    )

serve_load-Holds :
    (own : List ℕ) (lost path : ℕ) (m : Memory) (request : Bytes) (l : Load)
    → Holds (path ∷ own) lost m
    → IsSound l
    → Served own (lost + lost_by l) (cache_load m.cache request l) (serve_load m path request l)
unfolding serve_load cache_load malloc_in overruns crashes
serve_load-Holds own lost path m request missing v h =
    let (m1, eq, v1, c) = free_in-Holds (path ∷ own) own lost path m v (λ q. refl) refl in
    (m1, eq, more_lost own lost (lost + 0) m1 (omega arith) v1, c)
serve_load-Holds own lost path m request overrun v h = absurd (cc (h.0))
serve_load-Holds own lost path m request (unreadable text) v h =
    let v0 = malloc_in-Holds (path ∷ own) lost m v in
    let (m1, eq, v1, c) =
      free_in-Holds (m.heap.next ∷ path ∷ own) (m.heap.next ∷ own) lost path (malloc_in m) v0
        (λ q. omega arith) refl in
    (
      m1,
      eq,
      record {
        list = v1.list;
        blocks = v1.blocks;
        valid = v1.valid;
        same = v1.same;
        pointers = v1.pointers;
        owns = Owns-tail (own ++ v1.blocks) m.heap.next lost m1.heap v1.owns;
      },
      c,
    )
serve_load-Holds own lost path m request (loaded memory size) v h =
    let (n, e) = not_negative (to_int size) h.1 in
    rw (e, serve_load, cache_load) (keep_load-Holds own lost path m request memory n v)

length-looked_up : (es : List CacheEntry) (o : Option ℕ) → length (looked_up es o) ≡ length es
length-looked_up es none = refl
length-looked_up es (some i) = length-touch_at es i

get_cache_index-cache_size :
    (c : Cache) (key : Bytes) → (get_cache_index c key).1.cache_size ≡ c.cache_size
unfolding get_cache_index
get_cache_index-cache_size c key =
    elim (Option-cases (find_entry c.num_cache_entries c.entries key 0)) [
      | inl e ↦ rw (e, get_cache_index) refl
      | inr (i, e) ↦ rw (e, get_cache_index) refl
    ]

cached_reply-Holds :
    (own : List ℕ) (lost : ℕ) (m : Memory) (key : Bytes)
    → Holds own lost m
    → Holds own lost (record m { cache = (cached_reply m.cache key).1 })
unfolding cached_reply
cached_reply-Holds own lost m key v = record {
  list = looked_up v.list (find v.list key 0);
  blocks = v.blocks;
  valid = (get_cache_index-Repr v.valid key).1;
  same = v.same ∙ sym (length-looked_up v.list (find v.list key 0));
  pointers =
      v.pointers
      ∙ ap (λ n. fill (n - length v.blocks) v.blocks)
          (sym (get_cache_index-cache_size m.cache key));
  owns = v.owns;
}

pub serve_request-Holds :
    (disk : Disk) (working_dir : Bytes) (own : List ℕ) (lost : ℕ) (m : Memory) (r : Request)
    → Holds own lost m
    → IsSound (load disk working_dir r.request)
    → Served own
        (lost + lost_by_reply (cached_reply m.cache r.request).0 (load disk working_dir r.request))
        (serve disk working_dir 0 0 0 m.cache r).cache
        (serve_request disk working_dir m r)
unfolding serve_request serve
serve_request-Holds disk working_dir own lost m r v h =
    elim (Option-cases (cached_reply m.cache r.request).0) [
      | inl e ↦
          rw (e, serve_request, serve)
            (serve_load-Holds own lost m.heap.next (malloc_in looked) r.request
              (load disk working_dir r.request) taken h)
      | inr (reply, e) ↦
          let (m1, eq, v1, c1) =
            free_in-Holds (m.heap.next ∷ own) own lost m.heap.next (malloc_in looked) taken
              (λ q. refl) refl in
          rw (e, serve_request, serve)
            (m1, eq, more_lost own lost (lost + 0) m1 (omega arith) v1, c1)
    ]
  where
    looked : Memory
    looked = record m { cache = (cached_reply m.cache r.request).1 }

    taken : Holds (m.heap.next ∷ own) lost (malloc_in looked)
    taken = malloc_in-Holds own lost looked (cached_reply-Holds own lost m r.request v)
