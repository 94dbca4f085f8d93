-- ===== src/Web/Config/Checks.antt =====
-- Which command lines start the server.
use operating_systems.Common.{
  ℕ, ◌≤◌, ◌<◌, ◌≡◌, refl, Bool, true, false, List, [], ◌∷◌, arith, if◌then◌else◌, subst,
}
use operating_systems.CText.{Bytes}
use operating_systems.Numbers.{atoi, above, below, ℤ, pos, negsuc, decimal, atoi-decimal}
use operating_systems.Web.Queue.{init_request_queue}
use operating_systems.Web.Queue.Fifo
use operating_systems.Web.Queue.Fifo.{init_request_queue-Repr}
use operating_systems.Web.Cache.{init_cache}
use operating_systems.Web.Cache.Entries
use operating_systems.Web.Cache.Entries.{init_cache-Repr}
use operating_systems.Web.Config.{
  Config, Startup, bad_port, bad_dispatchers, bad_workers, bad_queue, bad_cache, bad_path, started,
  magnitude, outside, startup,
}

-- The limits of README and of the macros MAX_THREADS, MAX_QUEUE_LEN and MAX_CE.
pub record InLimits (c : Config) : Type 0 where
  pub port_in : (1025 ≤ c.port) × (c.port ≤ 65535)
  pub dispatchers_in : (1 ≤ c.num_dispatcher) × (c.num_dispatcher ≤ 100)
  pub workers_in : (1 ≤ c.num_workers) × (c.num_workers ≤ 100)
  pub queue_in : (1 ≤ c.qlen) × (c.qlen ≤ 100)
  pub cache_in : (1 ≤ c.cache_entries) × (c.cache_entries ≤ 100)

inside :
    (x : ℤ) (lo hi : ℕ) → 0 < lo → outside x lo hi ≡ false → (lo ≤ magnitude x) × (magnitude x ≤ hi)
unfolding outside magnitude
inside (pos n) lo hi p h = ground arith
inside (negsuc n) lo hi p h = absurd (ground arith)

outside_no : (n lo hi : ℕ) → lo ≤ n → n ≤ hi → outside (pos n) lo hi ≡ false
unfolding outside
outside_no n lo hi h k = ground arith

-- The ladder of checks over its tests.
ladder : Bool → Bool → Bool → Bool → Bool → Bool → Config → Startup
ladder p d w q e ch c =
    if p
    then bad_port
    else if d
    then bad_dispatchers
    else if w
    then bad_workers
    else if q
    then bad_queue
    else if e
    then bad_cache
    else if ch
    then started c
    else bad_path

ladder-started :
    (p d w q e ch : Bool) (c c' : Config)
    → ladder p d w q e ch c ≡ started c'
    → (p ≡ false) × (d ≡ false) × (w ≡ false) × (q ≡ false) × (e ≡ false) × (c ≡ c')
unfolding ladder
ladder-started true d w q e ch c c' h = absurd (cc)
ladder-started false true w q e ch c c' h = absurd (cc)
ladder-started false false true q e ch c c' h = absurd (cc)
ladder-started false false false true e ch c c' h = absurd (cc)
ladder-started false false false false true ch c c' h = absurd (cc)
ladder-started false false false false false false c c' h = absurd (cc)
ladder-started false false false false false true c c' h = (refl, refl, refl, refl, refl, cc)

-- If the server starts, its port lies in 1025 to 65535, it has 1 to 100 dispatchers and as many
-- workers, and its request queue and its cache, of 1 to 100 places, are valid and empty.
pub startup-InLimits :
    (chdir_ok : Bytes → Bool) (argv : List Bytes) (c : Config)
    → startup chdir_ok argv ≡ started c
    → InLimits c
      × Fifo.Repr (init_request_queue c.qlen) []
      × Entries.Repr (init_cache c.cache_entries) []
unfolding startup ladder
startup-InLimits chdir_ok (name ∷ port ∷ path ∷ disp ∷ work ∷ flag ∷ qlen ∷ entries ∷ []) c h =
    let (p, d, w, q, e, same) = ladder-started _ _ _ _ _ _ _ c h in
    subst
      (λ x.
        InLimits x
        × Fifo.Repr (init_request_queue x.qlen) []
        × Entries.Repr (init_cache x.cache_entries) [])
      same
      (
        record {
          port_in = inside _ _ _ (omega arith) p;
          dispatchers_in = inside _ _ _ (omega arith) d;
          workers_in = inside _ _ _ (omega arith) w;
          queue_in = inside _ _ _ (omega arith) q;
          cache_in = inside _ _ _ (omega arith) e;
        },
        init_request_queue-Repr _ (inside _ _ _ (omega arith) q).0,
        init_cache-Repr _ (inside _ _ _ (omega arith) e).0,
      )
startup-InLimits chdir_ok _ c h = absurd (cc)

-- The arguments of `main`, the program's name first, say just this configuration.
abbrev pub Says : List Bytes → Config → Type 0
Says (_ ∷ port ∷ path ∷ disp ∷ work ∷ flag ∷ qlen ∷ entries ∷ []) c =
    (atoi port ≡ pos c.port)
    × (path ≡ c.path)
    × (atoi disp ≡ pos c.num_dispatcher)
    × (atoi work ≡ pos c.num_workers)
    × (atoi qlen ≡ pos c.qlen)
    × (atoi entries ≡ pos c.cache_entries)
Says _ c = ⊥

magnitude_inside : (x : ℤ) (lo hi : ℕ) → outside x lo hi ≡ false → x ≡ pos (magnitude x)
unfolding outside above below magnitude
magnitude_inside (pos n) lo hi h = refl
magnitude_inside (negsuc n) lo hi h = absurd (cc)

-- The server starts with the configuration that its arguments say.
pub startup-Says :
    (chdir_ok : Bytes → Bool) (argv : List Bytes) (c : Config)
    → startup chdir_ok argv ≡ started c
    → Says argv c
unfolding startup ladder
startup-Says chdir_ok (name ∷ port ∷ path ∷ disp ∷ work ∷ flag ∷ qlen ∷ entries ∷ []) c h =
    let (p, d, w, q, e, same) = ladder-started _ _ _ _ _ _ _ c h in
    subst (Says (name ∷ port ∷ path ∷ disp ∷ work ∷ flag ∷ qlen ∷ entries ∷ [])) same (
      magnitude_inside _ _ _ p,
      refl,
      magnitude_inside _ _ _ d,
      magnitude_inside _ _ _ w,
      magnitude_inside _ _ _ q,
      magnitude_inside _ _ _ e,
    )
startup-Says chdir_ok _ c h = absurd (cc)

-- Numbers within the limits, written in decimal, and a directory that can be entered start the
-- server with just these numbers, whatever the program's name and the dynamic flag are.
pub startup-decimal :
    (chdir_ok : Bytes → Bool) (name flag : Bytes) (c : Config)
    → InLimits c
    → chdir_ok c.path ≡ true
    → startup chdir_ok (
        name
        ∷ decimal c.port
        ∷ c.path
        ∷ decimal c.num_dispatcher
        ∷ decimal c.num_workers
        ∷ flag
        ∷ decimal c.qlen
        ∷ decimal c.cache_entries
        ∷ [])
      ≡ started c
unfolding startup magnitude
startup-decimal chdir_ok name flag c v h =
    rw
      (
        atoi-decimal c.port,
        atoi-decimal c.num_dispatcher,
        atoi-decimal c.num_workers,
        atoi-decimal c.qlen,
        atoi-decimal c.cache_entries,
        outside_no c.port 1025 65535 v.port_in.0 v.port_in.1,
        outside_no c.num_dispatcher 1 100 v.dispatchers_in.0 v.dispatchers_in.1,
        outside_no c.num_workers 1 100 v.workers_in.0 v.workers_in.1,
        outside_no c.qlen 1 100 v.queue_in.0 v.queue_in.1,
        outside_no c.cache_entries 1 100 v.cache_in.0 v.cache_in.1,
        h,
      )
      refl
