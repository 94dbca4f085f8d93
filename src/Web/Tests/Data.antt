-- ===== src/Web/Tests/Data.antt =====
-- A file system with one file, a configuration and a request.
use operating_systems.Common.{none, some, [], ◌∷◌, if◌then◌else◌}
use operating_systems.CText.{Bytes, codes, str_eq}
use operating_systems.Web.Queue.{Request}
use operating_systems.Web.Cache.{Cache, CacheEntry}
use operating_systems.Web.Config.{Config}
use operating_systems.Web.Worker.{Disk}

abbrev pub root : Bytes
root = codes "/w"

abbrev pub page : Bytes
page = codes "/a.html"

abbrev pub small_disk : Disk
small_disk = record {
  stat_size = λ f. if str_eq f (codes "/w/a.html") then some 2 else none;
  read_file = λ f n. some (codes "hi");
}

abbrev pub small_config : Config
small_config = record {
  port = 2000;
  path = root;
  num_dispatcher = 1;
  num_workers = 1;
  qlen = 1;
  cache_entries = 1;
}

abbrev pub page_request : Request
page_request = record { fd = 5; request = page }

abbrev pub entry_a : CacheEntry
entry_a = record { len = 1; request = codes "/a"; content = codes "A"; freq_used = 3 }

abbrev pub entry_b : CacheEntry
entry_b = record { len = 1; request = codes "/b"; content = codes "B"; freq_used = 1 }

abbrev pub entry_c : CacheEntry
entry_c = record { len = 1; request = codes "/c"; content = codes "C"; freq_used = 1 }

-- Full, with the least used entries at 1 and 2.
abbrev pub full_cache : Cache
full_cache = record {
  next_slot_to_store = 0;
  num_cache_entries = 3;
  cache_size = 3;
  entries = some entry_a ∷ some entry_b ∷ some entry_c ∷ [];
}
