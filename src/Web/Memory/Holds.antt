-- ===== src/Web/Memory/Holds.antt =====
-- The cache of `Project 3 - Multithreaded Web Server/server.c` with the blocks of its entries.
use operating_systems.Common.{
  ℕ, suc, ◌-◌, ◌≡◌, refl, some, List, ◌∷◌, ◌++◌, length, length-append, arith,
}
use operating_systems.Web.Heap.{malloc, Owns, times, times-append, malloc-Owns, free-Owns}
use operating_systems.Web.Cache.{CacheEntry}
use operating_systems.Web.Cache.Arrays.{fill}
use operating_systems.Web.Cache.Entries.{Repr}
use operating_systems.Web.Memory.{Memory, free_in, malloc_in}

-- A valid cache, whose entries have the blocks `ps`; the blocks of `own` are allocated too, and
-- `lost` others that nothing refers to.
pub record Holds (own : List ℕ) (lost : ℕ) (m : Memory) : Type 0 where
  pub list : List CacheEntry
  pub blocks : List ℕ
  pub valid : Repr m.cache list
  pub same : length blocks ≡ length list
  pub pointers : m.contents ≡ fill (m.cache.cache_size - length blocks) blocks
  pub owns : Owns (own ++ blocks) lost m.heap

pub malloc_in-Holds :
    (own : List ℕ) (lost : ℕ) (m : Memory)
    → Holds own lost m
    → Holds (m.heap.next ∷ own) lost (malloc_in m)
unfolding malloc_in malloc
malloc_in-Holds own lost m v = record {
  list = v.list;
  blocks = v.blocks;
  valid = v.valid;
  same = v.same;
  pointers = v.pointers;
  owns = malloc-Owns (own ++ v.blocks) lost m.heap v.owns;
}

-- A block that is owned can be freed.
pub free_in-Holds :
    (own own' : List ℕ) (lost p : ℕ) (m : Memory)
    → Holds own lost m
    → ((q : ℕ) → times q own ≡ times q (p ∷ own'))
    → length own ≡ suc (length own')
    → (m' : Memory) × (free_in p m ≡ some m') × Holds own' lost m' × (m'.cache ≡ m.cache)
unfolding free_in
free_in-Holds own own' lost p m v same n =
    let (h, eq, o) =
      free-Owns (own ++ v.blocks) (own' ++ v.blocks) lost p m.heap v.owns
        (λ q. omega (arith, times-append q own v.blocks, times-append q own' v.blocks, same q))
        (omega (arith, length-append own v.blocks, length-append own' v.blocks, n)) in
    (
      record m { heap = h },
      rw (eq, free_in) refl,
      record {
        list = v.list;
        blocks = v.blocks;
        valid = v.valid;
        same = v.same;
        pointers = v.pointers;
        owns = o;
      },
      refl,
    )
