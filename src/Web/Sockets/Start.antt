-- ===== src/Web/Sockets/Start.antt =====
-- How `main` of `Project 3 - Multithreaded Web Server/server.c` comes to listen.
use operating_systems.Common.{
  ℕ, ◌%◌, ◌^◌, ◌≡◌, ◌≢◌, refl, ◌∙◌, Bool, true, false, List, [], ◌∷◌, Bool-cases, inl, inr, arith,
}
use operating_systems.CText.{Bytes}
use operating_systems.Numbers.{ℤ}
use operating_systems.Web.Queue.{init_request_queue}
use operating_systems.Web.Queue.Fifo
use operating_systems.Web.Cache.{init_cache}
use operating_systems.Web.Cache.Entries
use operating_systems.Web.Config.{
  Config, Startup, usage, bad_port, bad_dispatchers, bad_workers, bad_queue, bad_cache, bad_path,
  started, startup,
}
use operating_systems.Web.Config.Checks.{InLimits, Says, startup-Says, startup-InLimits}
use operating_systems.Web.Sockets.{
  SocketCall, socket, setsockopt, bind, listen, CallResults, is_negative, is_error, Setup, ready,
  checked_call, init, Opening, stopped, failed, listening, opened, open_startup, open_server,
}

-- The result of `socket` is an error if it is negative, that of another call if it is -1.
abbrev pub fails : SocketCall → ℤ → Bool
fails socket x = is_negative x
fails _ x = is_error x

-- No call failed.
abbrev pub AllWell : CallResults → List SocketCall → Type 0
AllWell os [] = Unit
AllWell os (a ∷ calls) = (fails a (os.result (a ∷ calls)) ≡ false) × AllWell os calls

-- The calls of a server that listens, newest first.
abbrev pub listening_calls : ℤ → ℕ → List SocketCall
listening_calls fd port = listen fd 20 ∷ bind fd port ∷ setsockopt fd ∷ socket ∷ []

-- What the arguments say (the index of type `Startup`) and how the server opens: they stop it before
-- any call; or they give a configuration, and it exits right after the first call that failed; or no
-- call failed and it listens at the port of that configuration, which is valid.
pub data Opens (os : CallResults) (argv : List Bytes) : Startup → Opening → Type 0 where
  rejects : (s : Startup) → ((c : Config) → s ≢ started c) → Opens os argv s (stopped s)
  gives_up :
      (c : Config) (a : SocketCall) (calls : List SocketCall)
      → fails a (os.result (a ∷ calls)) ≡ true
      → AllWell os calls
      → Opens os argv (started c) (failed (a ∷ calls))
  listens :
      (c : Config)
      → Says argv c
      → InLimits c
      → Fifo.Repr (init_request_queue c.qlen) []
      → Entries.Repr (init_cache c.cache_entries) []
      → AllWell os (listening_calls (os.result (socket ∷ [])) c.port)
      → Opens os argv
          (started c)
          (listening c (os.result (socket ∷ [])) (listening_calls (os.result (socket ∷ [])) c.port))

-- A call of `init` that is not the first.
checked_call-Opens :
    (os : CallResults) (argv : List Bytes) (c : Config) (a : SocketCall)
    (go_on : List SocketCall → Setup) (calls : List SocketCall)
    → ((x : ℤ) → fails a x ≡ is_error x)
    → AllWell os calls
    → (AllWell os (a ∷ calls) → Opens os argv (started c) (opened c (go_on (a ∷ calls))))
    → Opens os argv (started c) (opened c (checked_call os a go_on calls))
unfolding checked_call opened
checked_call-Opens os argv c a go_on calls same well rest =
    elim (Bool-cases (is_error (os.result (a ∷ calls)))) [
      | inl e ↦ rw (e, checked_call) (gives_up c a calls (same (os.result (a ∷ calls)) ∙ e) well)
      | inr e ↦ rw (e, checked_call) (rest (same (os.result (a ∷ calls)) ∙ e, well))
    ]

init-Opens :
    (os : CallResults) (argv : List Bytes) (c : Config)
    → Says argv c
    → InLimits c
    → Fifo.Repr (init_request_queue c.qlen) []
    → Entries.Repr (init_cache c.cache_entries) []
    → Opens os argv (started c) (opened c (init os c.port))
unfolding init opened
init-Opens os argv c says v q e = elim (Bool-cases (is_negative sd)) [
  | inl n ↦ rw (n, init) (gives_up c socket [] n tt)
  | inr n ↦
      rw (n, init, port)
        (checked_call-Opens os argv c (setsockopt sd) bound (socket ∷ []) (λ x. refl) (n, tt)
          λ w1.
            checked_call-Opens os argv c (bind sd c.port) heard _ (λ x. refl) w1
              λ w2.
                checked_call-Opens os argv c (listen sd 20) (ready sd) _ (λ x. refl) w2
                  λ w3. listens c says v q e w3)
]
  where
    sd : ℤ
    sd = os.result (socket ∷ [])

    heard : List SocketCall → Setup
    heard = checked_call os (listen sd 20) (ready sd)

    bound : List SocketCall → Setup
    bound = checked_call os (bind sd c.port) heard

    port : c.port % 2 ^ 16 ≡ c.port
    port = omega (arith, v.port_in.1)

-- `main` of the web server: if `startup` stops it by its arguments, it ends with that result and no call
-- is made; if `startup` reads a configuration from them, then either a call of `init` fails and the
-- process ends right behind the first that does, or none fails and the server listens with that
-- configuration, in which each number is the `atoi` of its argument, at the very port of it, with every argument within the limits and a valid and empty queue
-- and cache.
pub open_server-Opens :
    (chdir_ok : Bytes → Bool) (os : CallResults) (argv : List Bytes)
    → Opens os argv (startup chdir_ok argv) (open_server chdir_ok os argv)
unfolding open_server
open_server-Opens chdir_ok os argv = by_startup (startup chdir_ok argv) refl
  where
    by_startup : (s : Startup) → startup chdir_ok argv ≡ s → Opens os argv s (open_startup os s)
    by_startup (started c) e =
        let (v, q, n) = startup-InLimits chdir_ok argv c e in
        init-Opens os argv c (startup-Says chdir_ok argv c e) v q n
    by_startup usage e = rejects usage (λ c e. cc)
    by_startup bad_port e = rejects bad_port (λ c e. cc)
    by_startup bad_dispatchers e = rejects bad_dispatchers (λ c e. cc)
    by_startup bad_workers e = rejects bad_workers (λ c e. cc)
    by_startup bad_queue e = rejects bad_queue (λ c e. cc)
    by_startup bad_cache e = rejects bad_cache (λ c e. cc)
    by_startup bad_path e = rejects bad_path (λ c e. cc)
