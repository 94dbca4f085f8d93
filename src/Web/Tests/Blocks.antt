-- ===== src/Web/Tests/Blocks.antt =====
-- The blocks of a run of the web server with a cache of one entry.
use operating_systems.Common.{◌≡◌, true, refl, none, some, List, [], ◌∷◌, if◌then◌else◌}
use operating_systems.CText.{
  Bytes, codes, str_eq, fgets, fgets_line, until_nul, is_space_or_newline, contains, starts_with,
}
use operating_systems.Web.Cache.{
  init_cache, cached_reply, get_cache_index, find_entry, add_into_cache, send,
}
use operating_systems.Web.Heap.{Heap}
use operating_systems.Web.Worker.{Disk, load, read_from_disk, read_into, cache_load, serve}
use operating_systems.Web.Memory.{Arrival}
use operating_systems.Web.Request.{get_request, check_argv, make_argv, check_strings}
use operating_systems.Web.Memory.Connections.{lost_blocks}
use operating_systems.Web.Tests.Data.{root}

abbrev files : Disk
files = record {
  stat_size = λ f.
      if str_eq f (codes "/w/a")
      then some 2
      else if str_eq f (codes "/w/b")
      then some 30
      else if str_eq f (codes "/w/c")
      then some 1
      else none;
  read_file = λ f n. if str_eq f (codes "/w/b") then none else some (codes "hi");
}

abbrev asks : Bytes → Arrival
asks stream = record {
  fd = 5;
  fdopen_ok = true;
  malloc_t = true;
  malloc_argv = true;
  stream = stream;
}

-- The third GET replaces the entry of the first two; the fourth file cannot be read, and the fifth is
-- missing; the last two are refused.
abbrev connections : List Arrival
connections =
    asks (codes "GET /a\n")
    ∷ asks (codes "GET /a\n")
    ∷ asks (codes "GET /c\n")
    ∷ asks (codes "GET /b\n")
    ∷ asks (codes "GET /x\n")
    ∷ asks (codes "PUT /a\n")
    ∷ asks (codes "\n")
    ∷ []

nine_lost : lost_blocks files root (init_cache 1) connections ≡ 9
unfolding serve cached_reply get_cache_index find_entry str_eq load read_from_disk init_cache
    add_into_cache read_into send cache_load get_request fgets fgets_line check_argv make_argv
    check_strings until_nul is_space_or_newline contains starts_with
nine_lost = refl
