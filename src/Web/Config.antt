-- ===== src/Web/Config.antt =====
-- The command line of `main` in `Project 3 - Multithreaded Web Server/server.c`.
pub mod Checks
use operating_systems.Common.{ℕ, Bool, ◌||◌, List, [], ◌∷◌, if◌then◌else◌}
use operating_systems.CText.{Bytes}
use operating_systems.Numbers.{ℤ, pos, negsuc, below, above, atoi}

-- What the server is started with.
pub record Config : Type 0 where
  pub port : ℕ
  pub path : Bytes
  pub num_dispatcher : ℕ
  pub num_workers : ℕ
  pub qlen : ℕ
  pub cache_entries : ℕ

-- How the checks end: the usage message, one of the errors, or a start.
pub data Startup : Type 0 where
  usage bad_port bad_dispatchers bad_workers bad_queue bad_cache bad_path : Startup
  started : Config → Startup

-- An `int` that the checks have found positive, as a number.
unfoldable pub magnitude : ℤ → ℕ
magnitude (pos n) = n
magnitude (negsuc n) = 0

-- The checks of one argument: `x > hi || x < lo`.
unfoldable pub outside : ℤ → ℕ → ℕ → Bool
unfolding above below
outside x lo hi = above x hi || below x lo

-- `main` up to the start of the server. `chdir_ok` says whether `chdir(path)` succeeds; a
-- `dynamic_flag` other than 0 is reported and ignored. The name of the program comes first.
unfoldable pub startup : (Bytes → Bool) → List Bytes → Startup
unfolding magnitude
startup chdir_ok
      (_ ∷ port ∷ path ∷ num_dispatcher ∷ num_workers ∷ dynamic_flag ∷ qlen ∷ cache_entries ∷ []) =
    if outside (atoi port) 1025 65535
    then bad_port
    else if outside (atoi num_dispatcher) 1 100
    then bad_dispatchers
    else if outside (atoi num_workers) 1 100
    then bad_workers
    else if outside (atoi qlen) 1 100
    then bad_queue
    else if outside (atoi cache_entries) 1 100
    then bad_cache
    else if chdir_ok path
    then started (record {
      port = magnitude (atoi port);
      path = path;
      num_dispatcher = magnitude (atoi num_dispatcher);
      num_workers = magnitude (atoi num_workers);
      qlen = magnitude (atoi qlen);
      cache_entries = magnitude (atoi cache_entries);
    })
    else bad_path
startup chdir_ok _ = usage
