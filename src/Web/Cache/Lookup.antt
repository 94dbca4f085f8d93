-- ===== src/Web/Cache/Lookup.antt =====
-- What a request finds in the cache after an entry was added, and that no request is stored twice
-- as long as only missing requests are added.
use operating_systems.Common.{
  ℕ, zero, suc, ◌+◌, ◌<◌, ◌≡◌, refl, sym, ap, ◌∙◌, ◌≢◌, true, false, Option, none, some, List, [],
  ◌∷◌, ◌++◌, arith, ◌==◌, ◌⊎◌, length, set, take, take-take, Bool-cases, Option-cases, inl, inr,
  if◌then◌else◌, ℕ_discrete,
}
use operating_systems.CText.{Bytes, str_eq, str_eq_refl, str_eq_iff, str_eq_sound}
use operating_systems.Web.Cache.{
  CacheEntry, Cache, add_into_cache, new_entry, touch, get_cache_index, cached_reply, send,
}
use operating_systems.Web.Cache.Eviction.{Least, add_into_cache_full}
use operating_systems.Web.Cache.Arrays.{find, touch_at, fill, least, least-lt-length, find_bound}
use operating_systems.Web.Cache.Entries.{
  Repr, added, looked_up, add_into_cache-Repr, get_cache_index-Repr, get_cache_index_miss,
}

-- The content and length that the first entry for the request holds.
unfoldable pub reply_of : List CacheEntry → Bytes → Option (Bytes × ℕ)
reply_of [] key = none
reply_of (e ∷ es) key =
    if str_eq e.request key then some (take e.len e.content, e.len) else reply_of es key

find-none :
    (es : List CacheEntry) (key : Bytes) (i : ℕ) → find es key i ≡ none → reply_of es key ≡ none
unfolding find reply_of
find-none [] key i h = refl
find-none (e ∷ es) key i h = ground (arith, find-none es key (i + 1))

send-touch_at :
    (free : ℕ) (es : List CacheEntry) (key : Bytes) (i j k : ℕ)
    → k ≡ i + j
    → find es key i ≡ some k
    → send (fill free (touch_at es j)) (some j) ≡ reply_of es key
unfolding find reply_of send touch_at fill touch
send-touch_at free [] key i j k e h = absurd (cc)
send-touch_at free (x ∷ es) key i zero k e h = ground (arith, find_bound es key (i + 1) k)
send-touch_at free (x ∷ es) key i (suc j) k e h =
    ground (arith, send-touch_at free es key (i + 1) j k)

-- The reply from the cache is the one that the first entry for the request holds.
pub cached_reply-reply_of :
    (c : Cache) (es : List CacheEntry) (key : Bytes)
    → Repr c es
    → (cached_reply c key).0 ≡ reply_of es key
unfolding cached_reply
cached_reply-reply_of c es key v = elim (Option-cases (find es key 0)) [
  | inl e ↦ rw (get_cache_index_miss v key e, send) (sym (find-none es key 0 e))
  | inr (i, e) ↦
      let r : Repr (get_cache_index c key).1 (looked_up es (some i)) =
        rw e at ((get_cache_index-Repr v key).1) in
      rw (r.array, (get_cache_index-Repr v key).0, e)
        (send-touch_at r.free es key 0 i i (omega arith) e)
]

reply_of-append :
    (es : List CacheEntry) (e : CacheEntry) (key : Bytes)
    → reply_of es key ≡ none
    → reply_of (es ++ e ∷ []) key ≡ reply_of (e ∷ []) key
unfolding reply_of
reply_of-append [] e key h = refl
reply_of-append (x ∷ es) e key h = ground (arith, reply_of-append es e key)

reply_of-set :
    (es : List CacheEntry) (i : ℕ) (e : CacheEntry) (key : Bytes)
    → reply_of es key ≡ none
    → i < length es
    → reply_of (set es i e) key ≡ reply_of (e ∷ []) key
unfolding reply_of
reply_of-set [] i e key h lt = absurd (omega arith)
reply_of-set (x ∷ es) zero e key h lt = ground arith
reply_of-set (x ∷ es) (suc i) e key h lt = ground (arith, reply_of-set es i e key)

added_reply :
    (es : List CacheEntry) (size : ℕ) (key memory : Bytes) (n : ℕ)
    → reply_of es key ≡ none
    → 0 < size
    → reply_of (added size es (new_entry key memory n)) key ≡ some (take n memory, n)
added_reply es size key memory n h pos = elim (ℕ_discrete (length es) size) [
  | yes p ↦
      let t : (length es == size) ≡ true = ground arith in
      let used : es ≢ [] = λ e. omega (arith, ap length e) in
      rw t (
        reply_of-set es (least es) (new_entry key memory n) key h (least-lt-length es used) ∙ alone)
  | no p ↦
      let t : (length es == size) ≡ false = ground arith in
      rw t (reply_of-append es (new_entry key memory n) key h ∙ alone)
]
  where
    alone : reply_of (new_entry key memory n ∷ []) key ≡ some (take n memory, n)
    alone = unfold reply_of new_entry in rw (str_eq_refl key, take-take n memory)

-- In a valid cache that has no entry for the request, `addIntoCache` makes the next lookup of that
-- request a hit that sends the `memory_size` bytes which were added, whether or not it was full.
pub cached_reply-add_into_cache :
    (c : Cache) (es : List CacheEntry) (request memory : Bytes) (memory_size : ℕ)
    → Repr c es
    → (get_cache_index c request).0 ≡ none
    → (cached_reply (add_into_cache c request memory memory_size) request).0
      ≡ some (take memory_size memory, memory_size)
cached_reply-add_into_cache c es request memory memory_size v miss =
    cached_reply-reply_of _ _ request (add_into_cache-Repr v request memory memory_size)
    ∙ added_reply es c.cache_size request memory memory_size
        (find-none es request 0 (sym (get_cache_index-Repr v request).0 ∙ miss)) v.sized

-- One entry replaced: a request of neither entry finds what it found before.
reply_of-replace :
    (before rest : List CacheEntry) (e e' : CacheEntry) (key : Bytes)
    → e.request ≢ key
    → e'.request ≢ key
    → reply_of (before ++ (e' ∷ rest)) key ≡ reply_of (before ++ (e ∷ rest)) key
unfolding reply_of
reply_of-replace [] rest e e' key h h' =
    ground (arith, str_eq_sound e.request key, str_eq_sound e'.request key)
reply_of-replace (x ∷ before) rest e e' key h h' =
    ground (arith, reply_of-replace before rest e e' key h h')

reply_of-append_other :
    (es : List CacheEntry) (e : CacheEntry) (key : Bytes)
    → e.request ≢ key
    → reply_of (es ++ e ∷ []) key ≡ reply_of es key
unfolding reply_of
reply_of-append_other [] e key h = ground (arith, str_eq_sound e.request key)
reply_of-append_other (x ∷ es) e key h = ground (arith, reply_of-append_other es e key h)

-- `addIntoCache` in a valid cache changes the reply for another request only if the cache was full
-- and its least used entry was for that request.
pub cached_reply-add_into_cache_other :
    (c : Cache) (es : List CacheEntry) (request memory : Bytes) (memory_size : ℕ) (other : Bytes)
    → Repr c es
    → request ≢ other
    → ((cached_reply (add_into_cache c request memory memory_size) other).0
        ≡ (cached_reply c other).0)
      ⊎ ((length es ≡ c.cache_size) × (l : Least es) × (l.entry.request ≡ other))
cached_reply-add_into_cache_other c es request memory memory_size other v ne =
    elim (ℕ_discrete (length es) c.cache_size) [
      | yes p ↦
          let (l, r) = add_into_cache_full c es request memory memory_size v p in
          elim (Bool-cases (str_eq l.entry.request other)) [
            | inl e ↦ inr (p, l, str_eq_sound l.entry.request other e)
            | inr e ↦ inl (
                cached_reply-reply_of _ _ other r
                ∙ reply_of-replace l.before l.rest l.entry (new_entry request memory memory_size)
                    other (λ same. differ l.entry.request e same) fresh
                ∙ ap (λ xs. reply_of xs other) (sym l.parts)
                ∙ sym (cached_reply-reply_of c es other v))
          ]
      | no p ↦
          let t : (length es == c.cache_size) ≡ false = ground arith in
          let r : Repr (add_into_cache c request memory memory_size)
              (es ++ new_entry request memory memory_size ∷ []) =
            rw t at (add_into_cache-Repr v request memory memory_size) in
          inl (
            cached_reply-reply_of _ _ other r
            ∙ reply_of-append_other es (new_entry request memory memory_size) other fresh
            ∙ sym (cached_reply-reply_of c es other v))
    ]
  where
    fresh : (new_entry request memory memory_size).request ≢ other
    fresh = unfold new_entry in ne

    differ : (key : Bytes) → str_eq key other ≡ false → key ≢ other
    differ key e same = cc ((str_eq_iff key other).1 same)
