-- ===== src/Web/Cache/Arrays.antt =====
-- The array of `cache_t` of `Project 3 - Multithreaded Web Server/server.c` as a list of entries, and
-- the loops over it.
use operating_systems.Common.{
  ℕ, zero, suc, ◌+◌, ◌≤◌, ◌<◌, ◌≡◌, refl, ap, ◌≢◌, Option, none, some, List, [], ◌∷◌, ◌++◌, arith,
  ltb, if◌then◌else◌, length, length-replicate, set, replicate,
}
use operating_systems.CText.{Bytes, str_eq}
use operating_systems.Web.Cache.{
  CacheEntry, find_entry, touch, bump, evict_scan, evict_index, int_rank,
}

-- The array with `es` in its first places and `free` places that were never written.
unfoldable pub fill {ℓ} : {A : Type ℓ} → ℕ → List A → List (Option A)
fill free [] = replicate free none
fill free (e ∷ es) = some e ∷ fill free es

-- The first entry for the request, with the index of the first entry of the list.
unfoldable pub find : List CacheEntry → Bytes → ℕ → Option ℕ
find [] key i = none
find (e ∷ es) key i = if str_eq e.request key then some i else find es key (i + 1)

unfoldable pub touch_at : List CacheEntry → ℕ → List CacheEntry
touch_at [] i = []
touch_at (e ∷ es) zero = touch e ∷ es
touch_at (e ∷ es) (suc i) = e ∷ touch_at es i

unfoldable pub least_scan : List CacheEntry → ℕ → ℕ → ℕ → ℕ
least_scan [] i lowest at = at
least_scan (e ∷ es) i lowest at =
    let lower = ltb (int_rank e.freq_used) (int_rank lowest) in
    least_scan es (i + 1) (if lower then e.freq_used else lowest) (if lower then i else at)

unfoldable pub least : List CacheEntry → ℕ
unfolding least_scan
least [] = 0
least (e ∷ es) = least_scan es 1 e.freq_used 0

module _ {ℓ} {A : Type ℓ} where
  pub length-fill : (free : ℕ) (es : List A) → length (fill free es) ≡ free + length es
  unfolding fill
  length-fill free [] = omega (arith, length-replicate {A = Option A} free none)
  length-fill free (e ∷ es) = omega (arith, length-fill free es)

  pub set-fill :
      (free : ℕ) (es : List A) (i : ℕ) (e : A)
      → i < length es
      → set (fill free es) i (some e) ≡ fill free (set es i e)
  unfolding fill
  set-fill free [] i e h = absurd (omega arith)
  set-fill free (x ∷ es) zero e h = refl
  set-fill free (x ∷ es) (suc i) e h = ap (◌∷◌ (some x)) (set-fill free es i e (omega arith))

  set-fill_end :
      (free : ℕ) (es : List A) (e : A)
      → set (fill (suc free) es) (length es) (some e) ≡ fill free (es ++ e ∷ [])
  unfolding fill
  set-fill_end free [] e = refl
  set-fill_end free (x ∷ es) e = ap (◌∷◌ (some x)) (set-fill_end free es e)

  pub set-fill_room :
      (free less : ℕ) (es : List A) (e : A)
      → free ≡ suc less
      → set (fill free es) (length es) (some e) ≡ fill less (es ++ e ∷ [])
  set-fill_room free less es e h = rw h (set-fill_end less es e)

pub find_entry-fill :
    (free : ℕ) (es : List CacheEntry) (key : Bytes) (i : ℕ)
    → find_entry (length es) (fill free es) key i ≡ find es key i
unfolding find_entry fill find
find_entry-fill free [] key i = refl
find_entry-fill free (e ∷ es) key i = ground (arith, find_entry-fill free es key (i + 1))

-- A hit lies in the list.
pub find_bound :
    (es : List CacheEntry) (key : Bytes) (i j : ℕ)
    → find es key i ≡ some j
    → (i ≤ j) × (j < i + length es)
unfolding find
find_bound [] key i j h = absurd (cc)
find_bound (e ∷ es) key i j h = ground (arith, find_bound es key (i + 1) j)

pub bump-fill :
    (free : ℕ) (es : List CacheEntry) (i : ℕ)
    → i < length es
    → bump (fill free es) i ≡ fill free (touch_at es i)
unfolding fill bump touch_at
bump-fill free [] i h = absurd (omega arith)
bump-fill free (x ∷ es) zero h = refl
bump-fill free (x ∷ es) (suc i) h = ground (arith, bump-fill free es i)

pub length-touch_at : (es : List CacheEntry) (i : ℕ) → length (touch_at es i) ≡ length es
unfolding touch_at
length-touch_at [] i = refl
length-touch_at (e ∷ es) zero = refl
length-touch_at (e ∷ es) (suc i) = ap suc (length-touch_at es i)

pub evict_scan-fill :
    (free : ℕ) (es : List CacheEntry) (i lowest at : ℕ)
    → evict_scan (fill free es) i lowest at ≡ least_scan es i lowest at
unfolding evict_scan least_scan fill
evict_scan-fill zero [] i lowest at = refl
evict_scan-fill (suc free) [] i lowest at = evict_scan-fill free [] (i + 1) lowest at
evict_scan-fill free (e ∷ es) i lowest at = evict_scan-fill free es (i + 1) _ _

pub evict_index-fill :
    (free : ℕ) (es : List CacheEntry) → es ≢ [] → evict_index (fill free es) ≡ least es
unfolding evict_index least fill
evict_index-fill free [] h = absurd (h refl)
evict_index-fill free (e ∷ es) h = evict_scan-fill free es 1 e.freq_used 0

pub least_scan_bound :
    (es : List CacheEntry) (i lowest at n : ℕ)
    → at < i
    → i + length es ≤ n
    → least_scan es i lowest at < n
unfolding least_scan
least_scan_bound [] i lowest at n h k = omega arith
least_scan_bound (e ∷ es) i lowest at n h k =
    least_scan_bound es (i + 1) _ _ n (ground arith) (omega arith)

-- The entry to replace lies in the list.
pub least-lt-length : (es : List CacheEntry) → es ≢ [] → least es < length es
unfolding least
least-lt-length [] h = absurd (h refl)
least-lt-length (e ∷ es) h =
    least_scan_bound es 1 e.freq_used 0 (suc (length es)) (omega arith) (omega arith)
