-- ===== src/Web/Cache/Entries.antt =====
-- The cache array as the list of its entries: the invariant of `cache_t`, and each operation on
-- the list.
use operating_systems.Common.{
  ℕ, ◌+◌, ◌-◌, ◌%◌, ◌<◌, ◌≡◌, refl, ap, ◌≢◌, true, false, Option, none, some, List, [], ◌∷◌, ◌++◌,
  arith, ◌==◌, if◌then◌else◌, length, length-set, length-append, set, Option-cases, inl, inr,
  ℕ_discrete, mod-suc,
}
use operating_systems.CText.{Bytes}
use operating_systems.Web.Cache.{
  CacheEntry, Cache, init_cache, find_entry, bump, get_cache_index, evict_index, new_entry,
  add_into_cache,
}
use operating_systems.Web.Cache.Arrays.{
  fill, find, touch_at, least, find_entry-fill, find_bound, set-fill, set-fill_room, bump-fill,
  length-touch_at, evict_index-fill, least-lt-length,
}

-- The cache holds `es`, in the order of the array.
pub record Repr (c : Cache) (es : List CacheEntry) : Type 0 where
  pub free : ℕ
  pub sized : 0 < c.cache_size
  pub room : free + length es ≡ c.cache_size
  pub counted : c.num_cache_entries ≡ length es
  pub array : c.entries ≡ fill free es
  pub store_at : c.next_slot_to_store ≡ (if free == 0 then 0 else length es)

-- `initCache` makes the empty cache.
pub init_cache-Repr : (n : ℕ) → 0 < n → Repr (init_cache n) []
unfolding init_cache fill
init_cache-Repr n h = record {
  free = n;
  sized = h;
  room = omega arith;
  counted = refl;
  array = refl;
  store_at = ground arith;
}

-- The list after a lookup with that result.
abbrev pub looked_up : List CacheEntry → Option ℕ → List CacheEntry
looked_up es none = es
looked_up es (some i) = touch_at es i

-- The list after an entry was added.
abbrev pub added : ℕ → List CacheEntry → CacheEntry → List CacheEntry
added size es e = if length es == size then set es (least es) e else es ++ e ∷ []

module _ {c : Cache} {es : List CacheEntry} (v : Repr c es) where
  find_entry-find : (key : Bytes) → find_entry c.num_cache_entries c.entries key 0 ≡ find es key 0
  find_entry-find key = rw (v.counted, v.array) (find_entry-fill v.free es key 0)

  pub get_cache_index_miss :
      (key : Bytes) → find es key 0 ≡ none → get_cache_index c key ≡ (none, c)
  unfolding get_cache_index
  get_cache_index_miss key h = ground (arith, find_entry-find key)

  pub get_cache_index_hit :
      (key : Bytes) (i : ℕ)
      → find es key 0 ≡ some i
      → get_cache_index c key ≡ (some i, record c { entries = bump c.entries i })
  unfolding get_cache_index
  get_cache_index_hit key i h = ground (arith, find_entry-find key)

  bump-Repr :
      (i : ℕ) → i < length es → Repr (record c { entries = bump c.entries i }) (touch_at es i)
  bump-Repr i h = record {
    free = v.free;
    sized = v.sized;
    room = omega (arith, v.room, length-touch_at es i);
    counted = omega (arith, v.counted, length-touch_at es i);
    array = rw v.array (bump-fill v.free es i h);
    store_at = ground (arith, length-touch_at es i);
  }

  -- `getCacheIndex` finds the first entry for the request, and counts the hit.
  pub get_cache_index-Repr :
      (key : Bytes)
      → ((get_cache_index c key).0 ≡ find es key 0)
        × Repr (get_cache_index c key).1 (looked_up es (find es key 0))
  get_cache_index-Repr key = elim (Option-cases (find es key 0)) [
    | inl e ↦ rw (get_cache_index_miss key e, e) (refl, v)
    | inr (i, e) ↦
        rw (get_cache_index_hit key i e, e)
          (refl, bump-Repr i (omega (arith, find_bound es key 0 i e)))
  ]

  add_full :
      (e : CacheEntry)
      → length es ≡ c.cache_size
      → Repr
          (record c { entries = set c.entries (evict_index c.entries) (some e) })
          (set es (least es) e)
  add_full e h = record {
    free = v.free;
    sized = v.sized;
    room = omega (arith, v.room, length-set es (least es) e);
    counted = omega (arith, v.counted, length-set es (least es) e);
    array =
        rw (v.array, evict_index-fill v.free es used)
          (set-fill v.free es (least es) e (least-lt-length es used));
    store_at = ground (arith, length-set es (least es) e, v.store_at);
  }
    where
      used : es ≢ []
      used e = omega (arith, ap length e, v.sized)

  add_free :
      (e : CacheEntry)
      → length es ≢ c.cache_size
      → Repr
          (record c {
            entries = set c.entries c.next_slot_to_store (some e);
            num_cache_entries = c.num_cache_entries + 1;
            next_slot_to_store = (c.next_slot_to_store + 1) % c.cache_size;
          })
          (es ++ e ∷ [])
  add_free e h = record {
    free = v.free - 1;
    sized = v.sized;
    room = omega (arith, v.room, length-append es (e ∷ []));
    counted = omega (arith, v.counted, length-append es (e ∷ []));
    array =
        let at : c.next_slot_to_store ≡ length es = ground arith in
        rw (v.array, at) (set-fill_room v.free (v.free - 1) es e (omega (arith, v.room)));
    store_at = ground (arith, mod-suc c.cache_size c.next_slot_to_store, length-append es (e ∷ []));
  }

  -- `addIntoCache` appends the entry, or replaces the least used one in a full cache.
  pub add_into_cache-Repr :
      (request memory : Bytes) (memory_size : ℕ)
      → Repr
          (add_into_cache c request memory memory_size)
          (added c.cache_size es (new_entry request memory memory_size))
  unfolding add_into_cache
  add_into_cache-Repr request memory memory_size = elim (ℕ_discrete (length es) c.cache_size) [
    | yes p ↦
        let t : (c.num_cache_entries == c.cache_size) ≡ true = ground (arith, v.counted) in
        let t' : (length es == c.cache_size) ≡ true = ground arith in
        rw (t, t', add_into_cache) (add_full _ p)
    | no p ↦
        let t : (c.num_cache_entries == c.cache_size) ≡ false = ground (arith, v.counted) in
        let t' : (length es == c.cache_size) ≡ false = ground arith in
        rw (t, t', add_into_cache) (add_free _ p)
  ]
