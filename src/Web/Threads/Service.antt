-- ===== src/Web/Threads/Service.antt =====
-- A worker of `Project 3 - Multithreaded Web Server/server.c` that finds a request in the queue
-- answers it.
use operating_systems.Common.{ℕ, ◌≡◌, [], ◌∷◌, ◌++◌}
use operating_systems.CText.{Bytes}
use operating_systems.Web.Queue.{Request}
use operating_systems.Web.Worker.{Disk, Answer}
use operating_systems.Web.Config.{Config}
use operating_systems.Web.Threads.{take_lock, System}
use operating_systems.Web.Threads.Release.{Steps}

-- Some steps lead to a state where one more request has been answered, and thread `i` is again at the
-- start of the loop of `worker`.
pub record Serves (disk : Disk) (dir : Bytes) (i : ℕ) (r : Request) (s : System) : Type 0 where
  pub state : System
  pub steps : Steps disk dir s state
  pub answer : Answer
  pub answers : state.answers ≡ s.answers ++ (r, answer) ∷ []
  pub back : state.pc i ≡ take_lock
