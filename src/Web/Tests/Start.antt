-- ===== src/Web/Tests/Start.antt =====
-- The start of the web server at port 2000, on a system where every call returns 3.
use operating_systems.Common.{◌≡◌, refl, true, List, [], ◌∷◌}
use operating_systems.CText.{Bytes, codes}
use operating_systems.Numbers.{pos, atoi}
use operating_systems.Web.Config.{startup, outside}
use operating_systems.Web.Sockets.{CallResults, listening, open_server, init, checked_call}
use operating_systems.Web.Sockets.Start.{Opens, listening_calls, open_server-Opens}
use operating_systems.Web.Tests.Data.{root, small_config}

abbrev threes : CallResults
threes = record { result = λ calls. pos 3 }

abbrev arguments : List Bytes
arguments =
    codes "web_server"
    ∷ codes "2000"
    ∷ root
    ∷ codes "1"
    ∷ codes "1"
    ∷ codes "0"
    ∷ codes "1"
    ∷ codes "1"
    ∷ []

listens_at_port :
    open_server (λ p. true) threes arguments
    ≡ listening small_config (pos 3) (listening_calls (pos 3) 2000)
unfolding open_server init checked_call startup outside atoi
listens_at_port = refl

open_server-Opens_example :
    Opens threes arguments
      (startup (λ p. true) arguments)
      (open_server (λ p. true) threes arguments)
open_server-Opens_example = open_server-Opens (λ p. true) threes arguments
