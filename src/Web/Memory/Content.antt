-- ===== src/Web/Memory/Content.antt =====
-- The pointers of the cache slots and the heap, over the operations on the cache of
-- `Project 3 - Multithreaded Web Server/server.c`.
use operating_systems.Common.{
  ℕ, zero, suc, ◌+◌, ◌-◌, ◌<◌, ◌≡◌, ◌≢◌, refl, ap, ap₂, ◌∙◌, true, false, some, List, [], ◌∷◌, ◌++◌,
  ◌==◌, get_elem?, set, length, length-append, length-set, arith, ℕ_discrete,
}
use operating_systems.CText.{Bytes}
use operating_systems.Web.Heap.{
  Heap, malloc, free, Owns, times, times-append, times-set, Owns-same, malloc-Owns, free-Owns,
}
use operating_systems.Web.Cache.{CacheEntry, Cache, evict_index, add_into_cache, new_entry}
use operating_systems.Web.Cache.Arrays.{
  fill, least, evict_index-fill, set-fill, set-fill_room, least-lt-length,
}
use operating_systems.Web.Cache.Entries.{added, add_into_cache-Repr}
use operating_systems.Web.Memory.{
  Memory, read_pointer, free_in, malloc_in, replace_content, add_content,
}
use operating_systems.Web.Memory.Holds.{Holds}

-- The block of a slot, and the blocks after it was replaced.
get_elem?-fill :
    (free : ℕ) (ps : List ℕ) (i p : ℕ)
    → i < length ps
    → (old : ℕ) × (get_elem? (fill free ps) i ≡ some (some old))
      × ((q : ℕ) → times q (old ∷ set ps i p) ≡ times q (p ∷ ps))
unfolding fill
get_elem?-fill free [] i p h = absurd (omega arith)
get_elem?-fill free (x ∷ ps) zero p h = (x, refl, λ q. times-set q (x ∷ ps) zero p x refl)
get_elem?-fill free (x ∷ ps) (suc i) p h =
    let (old, eq, same) = get_elem?-fill free ps i p (omega arith) in
    (old, eq, λ q. omega (arith, same q))

add_into_cache-cache_size :
    (c : Cache) (request memory : Bytes) (n : ℕ)
    → (add_into_cache c request memory n).cache_size ≡ c.cache_size
unfolding add_into_cache
add_into_cache-cache_size c request memory n = ground arith

-- A new block for one of `ps`, which is freed.
exchanged :
    (own ps ps' : List ℕ) (lost old : ℕ) (h : Heap)
    → Owns (own ++ ps) lost h
    → ((q : ℕ) → times q (old ∷ ps') ≡ times q (h.next ∷ ps))
    → length ps' ≡ length ps
    → (h' : Heap) × (free old (malloc h).1 ≡ some h') × Owns (own ++ ps') lost h'
unfolding malloc
exchanged own ps ps' lost old h o one n =
    free-Owns (h.next ∷ (own ++ ps)) (own ++ ps') lost old (malloc h).1
      (malloc-Owns (own ++ ps) lost h o)
      (λ q. omega (arith, times-append q own ps, times-append q own ps', one q))
      (omega (arith, length-append own ps, length-append own ps', n))

-- A new block behind those of `ps`.
one_more :
    (own ps : List ℕ) (lost : ℕ) (h : Heap)
    → Owns (own ++ ps) lost h
    → Owns (own ++ (ps ++ h.next ∷ [])) lost (malloc h).1
unfolding malloc
one_more own ps lost h o =
    Owns-same (h.next ∷ (own ++ ps)) (own ++ ps') lost (malloc h).1
      (malloc-Owns (own ++ ps) lost h o)
      (λ q.
        omega
          (arith, times-append q own ps, times-append q own ps', times-append q ps (h.next ∷ [])))
      (omega (arith, length-append own ps, length-append own ps', length-append ps (h.next ∷ [])))
  where
    ps' : List ℕ
    ps' = ps ++ h.next ∷ []

-- What `add_content` leaves.
abbrev Added : List ℕ → ℕ → Memory → Bytes → Bytes → ℕ → Type 0
Added own lost m request memory n =
    (m' : Memory) × (add_content m request memory n ≡ some m')
    × Holds own lost m'
    × (m'.cache ≡ add_into_cache m.cache request memory n)

module _ (own : List ℕ) (lost : ℕ) (m : Memory) (request memory : Bytes) (n : ℕ)
    (v : Holds own lost m) where
  open v use {list, blocks, valid, same, pointers, owns}

  fresh : ℕ
  fresh = m.heap.next

  entry : CacheEntry
  entry = new_entry request memory n

  full_at :
      length list ≡ m.cache.cache_size
      → (evict_index m.cache.entries ≡ least list) × (least list < length blocks)
  full_at full = (
    rw valid.array (evict_index-fill valid.free list used),
    omega (arith, least-lt-length list used, same),
  )
    where
      used : list ≢ []
      used e = omega (arith, ap length e, full, valid.sized)

  replaced : length list ≡ m.cache.cache_size → Added own lost m request memory n
  unfolding add_content replace_content malloc_in malloc free_in read_pointer fresh entry
  replaced full =
      let (at, lt) = full_at full in
      let (old, eq, one) =
        get_elem?-fill (m.cache.cache_size - length blocks) blocks (least list) fresh lt in
      let (h, freed, o) =
        exchanged own blocks (set blocks (least list) fresh) lost old m.heap owns one
          (length-set blocks (least list) fresh) in
      let found : read_pointer m.contents (evict_index m.cache.entries) ≡ some old =
        rw (at, pointers, eq, read_pointer) refl in
      let t : (m.cache.num_cache_entries == m.cache.cache_size) ≡ true =
        ground (arith, valid.counted) in
      (
        record {
          cache = add_into_cache m.cache request memory n;
          contents = set m.contents (evict_index m.cache.entries) (some fresh);
          heap = h;
        },
        rw (t, found, freed, add_content, replace_content, free_in) refl,
        record {
          list = added m.cache.cache_size list entry;
          blocks = set blocks (least list) fresh;
          valid = add_into_cache-Repr valid request memory n;
          same =
              ground
                (arith, length-set list (least list) entry, length-set blocks (least list) fresh);
          pointers =
              rw
                (
                  at,
                  pointers,
                  add_into_cache-cache_size m.cache request memory n,
                  length-set blocks (least list) fresh,
                )
                (set-fill (m.cache.cache_size - length blocks) blocks (least list) fresh lt);
          owns = o;
        },
        refl,
      )

  appended : length list ≢ m.cache.cache_size → Added own lost m request memory n
  unfolding add_content malloc_in malloc fresh entry
  appended room =
      let t : (m.cache.num_cache_entries == m.cache.cache_size) ≡ false =
        ground (arith, valid.counted) in
      let at : m.cache.next_slot_to_store ≡ length blocks =
        ground (arith, valid.store_at, valid.room, same) in
      let slots : set m.contents m.cache.next_slot_to_store (some fresh)
          ≡ fill (m.cache.cache_size - (length blocks + 1)) (blocks ++ fresh ∷ []) =
        ap₂ (λ xs i. set xs i (some fresh)) pointers at
        ∙ set-fill_room (m.cache.cache_size - length blocks)
            (m.cache.cache_size - (length blocks + 1)) blocks fresh
            (omega (arith, valid.room, same, room)) in
      (
        record {
          cache = add_into_cache m.cache request memory n;
          contents = set m.contents m.cache.next_slot_to_store (some fresh);
          heap = (malloc m.heap).1;
        },
        rw (t, add_content) refl,
        record {
          list = added m.cache.cache_size list entry;
          blocks = blocks ++ fresh ∷ [];
          valid = add_into_cache-Repr valid request memory n;
          same = ground (arith, length-append list (entry ∷ []), length-append blocks (fresh ∷ []));
          pointers =
              slots
              ∙ ap (λ k. fill k (blocks ++ fresh ∷ []))
                  (omega (
                    arith,
                    add_into_cache-cache_size m.cache request memory n,
                    length-append blocks (fresh ∷ []),
                  ));
          owns = one_more own blocks lost m.heap owns;
        },
        refl,
      )

  -- An entry is added to the cache with a block of its own.
  pub add_content-Holds : Added own lost m request memory n
  add_content-Holds = elim (ℕ_discrete (length list) m.cache.cache_size) [
    | yes p ↦ replaced p
    | no p ↦ appended p
  ]
