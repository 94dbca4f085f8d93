-- ===== src/Web/Tests/Buffers.antt =====
-- The request queue and the cache at concrete inputs.
use operating_systems.Common.{◌≡◌, refl, ◌⊎◌, some, List, [], ◌∷◌, ◌++◌, arith, length}
use operating_systems.CText.{codes, str_eq, str_ne}
use operating_systems.Web.Queue.{init_request_queue, Pass, puts, takes, blocked, stored, got, run}
use operating_systems.Web.Queue.Refinement.{spec_run, run-refines}
use operating_systems.Web.Cache.{CacheEntry, new_entry, add_into_cache, cached_reply, evict_index}
use operating_systems.Web.Cache.Arrays.{fill}
use operating_systems.Web.Cache.Entries.{Repr}
use operating_systems.Web.Cache.Eviction.{Least, add_into_cache_full}
use operating_systems.Web.Cache.Lookup.{cached_reply-add_into_cache_other}
use operating_systems.Web.Tests.Data.{page_request, full_cache, entry_a, entry_b, entry_c}

abbrev script : List Pass
script = takes ∷ puts page_request ∷ puts page_request ∷ takes ∷ takes ∷ []

run-script :
    run (init_request_queue 1) script
    ≡ blocked ∷ stored ∷ blocked ∷ got (some page_request) ∷ blocked ∷ []
unfolding run init_request_queue
run-script = refl

run-refines_example : run (init_request_queue 1) script ≡ spec_run 1 [] script
run-refines_example = run-refines 1 script (omega arith)

abbrev listed : List CacheEntry
listed = entry_a ∷ entry_b ∷ entry_c ∷ []

full_cache-Repr : Repr full_cache listed
unfolding fill
full_cache-Repr = record {
  free = 0;
  sized = omega arith;
  room = refl;
  counted = refl;
  array = refl;
  store_at = refl;
}

evicts_first_of_two : evict_index full_cache.entries ≡ 1
unfolding evict_index
evicts_first_of_two = refl

add_into_cache_full_example :
    (l : Least listed) × Repr
      (add_into_cache full_cache (codes "/d") (codes "DD") 2)
      (l.before ++ (new_entry (codes "/d") (codes "DD") 2 ∷ l.rest))
add_into_cache_full_example =
    add_into_cache_full full_cache listed (codes "/d") (codes "DD") 2 full_cache-Repr refl

cached_reply-add_into_cache_other_example :
    ((cached_reply (add_into_cache full_cache (codes "/d") (codes "DD") 2) (codes "/a")).0
      ≡ (cached_reply full_cache (codes "/a")).0)
    ⊎ ((length listed ≡ full_cache.cache_size)
        × (l : Least listed) × (l.entry.request ≡ codes "/a"))
unfolding str_eq
cached_reply-add_into_cache_other_example =
    cached_reply-add_into_cache_other full_cache listed (codes "/d") (codes "DD") 2 (codes "/a")
      full_cache-Repr (str_ne (codes "/d") (codes "/a") refl)
