-- ===== src/Web/Cache/Eviction.antt =====
-- The replacement policy: the least frequently used entry goes, the first one of several.
use operating_systems.Common.{
  ℕ, ◌+◌, ◌≤◌, ◌<◌, ◌≡◌, refl, ap, subst, ◌≢◌, true, List, [], ◌∷◌, ◌++◌, arith, ltb, ◌==◌, ◌⊎◌,
  length, set, Bool-cases, inl, inr, All,
}
use operating_systems.CText.{Bytes}
use operating_systems.Web.Cache.{CacheEntry, Cache, add_into_cache, new_entry, int_rank}
use operating_systems.Web.Cache.Arrays.{least_scan, least}
use operating_systems.Web.Cache.Entries.{Repr, added, add_into_cache-Repr}

-- An entry that no other is below, with only higher ones before it.
pub record Least (es : List CacheEntry) : Type 0 where
  pub before : List CacheEntry
  pub entry : CacheEntry
  pub rest : List CacheEntry
  pub parts : es ≡ before ++ (entry ∷ rest)
  pub earlier : All (λ e. int_rank entry.freq_used < int_rank e.freq_used) before
  pub later : All (λ e. int_rank entry.freq_used ≤ int_rank e.freq_used) rest

-- The scan of `es`, which stands at index `i`: either nothing there is lower than `low`, or the
-- result is the first lowest entry there.
abbrev Scanned : List CacheEntry → ℕ → ℕ → ℕ → ℕ → Type 0
Scanned es i low at k =
    ((k ≡ at) × All (λ e. int_rank low ≤ int_rank e.freq_used) es)
    ⊎ ((l : Least es) × (k ≡ i + length l.before) × (int_rank l.entry.freq_used < int_rank low))

abbrev later_least :
    (x : CacheEntry) (es : List CacheEntry) (l : Least es)
    → int_rank l.entry.freq_used < int_rank x.freq_used
    → Least (x ∷ es)
later_least x es l h = record {
  before = x ∷ l.before;
  entry = l.entry;
  rest = l.rest;
  parts = ap (◌∷◌ x) l.parts;
  earlier = (h, l.earlier);
  later = l.later;
}

module _ (x : CacheEntry) (es : List CacheEntry) (i low at k : ℕ) where
  Scanned-lower :
      int_rank x.freq_used < int_rank low
      → Scanned es (i + 1) x.freq_used i k
      → Scanned (x ∷ es) i low at k
  Scanned-lower h (inl (e, all)) = inr (
    record { before = []; entry = x; rest = es; parts = refl; earlier = tt; later = all },
    omega arith,
    h,
  )
  Scanned-lower h (inr (l, e, lt)) = inr (later_least x es l lt, omega arith, omega arith)

  Scanned-higher :
      int_rank low ≤ int_rank x.freq_used
      → Scanned es (i + 1) low at k
      → Scanned (x ∷ es) i low at k
  Scanned-higher h (inl (e, all)) = inl (e, (h, all))
  Scanned-higher h (inr (l, e, lt)) = inr (later_least x es l (omega arith), omega arith, lt)

least_scan-Scanned :
    (es : List CacheEntry) (i low at : ℕ) → Scanned es i low at (least_scan es i low at)
unfolding least_scan
least_scan-Scanned [] i low at = inl (refl, tt)
least_scan-Scanned (x ∷ es) i low at =
    elim (Bool-cases (ltb (int_rank x.freq_used) (int_rank low))) [
      | inl e ↦
          rw (e, least_scan)
            (Scanned-lower x es i low at _ (ground arith)
              (least_scan-Scanned es (i + 1) x.freq_used i))
      | inr e ↦
          rw (e, least_scan)
            (Scanned-higher x es i low at _ (ground arith) (least_scan-Scanned es (i + 1) low at))
    ]

least-Least : (es : List CacheEntry) → es ≢ [] → (l : Least es) × (least es ≡ length l.before)
unfolding least
least-Least [] h = absurd (h refl)
least-Least (x ∷ es) h = first_least (least_scan-Scanned es 1 x.freq_used 0)
  where
    first_least :
        Scanned es 1 x.freq_used 0 (least_scan es 1 x.freq_used 0)
        → (l : Least (x ∷ es)) × (least_scan es 1 x.freq_used 0 ≡ length l.before)
    first_least (inl (e, all)) =
        (record { before = []; entry = x; rest = es; parts = refl; earlier = tt; later = all }, e)
    first_least (inr (l, e, lt)) = (later_least x es l lt, omega arith)

set-append :
    (before rest : List CacheEntry) (e e' : CacheEntry)
    → set (before ++ (e ∷ rest)) (length before) e' ≡ before ++ (e' ∷ rest)
set-append [] rest e e' = refl
set-append (x ∷ before) rest e e' = ap (◌∷◌ x) (set-append before rest e e')

-- `addIntoCache` on a full cache: the entries are those before, one least used entry and those
-- behind; every entry before it has a higher count and none behind it a lower one; the new entry
-- takes its place and all others stay.
pub add_into_cache_full :
    (c : Cache) (es : List CacheEntry) (request memory : Bytes) (memory_size : ℕ)
    → Repr c es
    → length es ≡ c.cache_size
    → (l : Least es) × Repr
        (add_into_cache c request memory memory_size)
        (l.before ++ (new_entry request memory memory_size ∷ l.rest))
add_into_cache_full c es request memory memory_size v full =
    let (l, at) = least-Least es used in
    (
      l,
      subst (Repr (add_into_cache c request memory memory_size)) (replaced l at)
          (add_into_cache-Repr v request memory memory_size),
    )
  where
    used : es ≢ []
    used e = omega (arith, ap length e, v.sized)

    replaced :
        (l : Least es)
        → least es ≡ length l.before
        → added c.cache_size es (new_entry request memory memory_size)
          ≡ l.before ++ (new_entry request memory memory_size ∷ l.rest)
    replaced l at =
        let t : (length es == c.cache_size) ≡ true = ground arith in
        rw (t, at, l.parts) (set-append l.before l.rest l.entry _)
