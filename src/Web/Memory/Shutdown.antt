-- ===== src/Web/Memory/Shutdown.antt =====
-- The clean-up at the end of `main` in `Project 3 - Multithreaded Web Server/server.c`.
use operating_systems.Common.{ℕ, List, [], ◌∷◌}
use operating_systems.Web.Heap.{Heap}
use operating_systems.Web.Memory.{Memory}
use operating_systems.Web.Memory.Main.{Blocks}
use operating_systems.Web.Memory.Holds.{Holds}

-- The blocks of `main`, in the order in which they are freed.
abbrev all_blocks : Blocks → List ℕ
all_blocks b =
    b.working_dir ∷ b.dispatcher_threads ∷ b.worker_threads ∷ b.ids_dispatcher ∷ b.ids_workers
    ∷ b.requests ∷ b.request_queue ∷ b.entries ∷ b.cache ∷ []
