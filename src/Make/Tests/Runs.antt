-- ===== src/Make/Tests/Runs.antt =====
-- Runs of `main` on the makefile with two targets.
use operating_systems.Common.{refl, some, []}
use operating_systems.Make.Main.{main}
use operating_systems.Make.Main.Default.{BuildsFirst, main-BuildsFirst}
use operating_systems.Make.Tests.{clock, makefile, two, makefile_parsed}

main-BuildsFirst_example :
    BuildsFirst clock 24 2 two 7 (main clock 24 (λ name. some makefile) [] [] 7)
main-BuildsFirst_example =
    main-BuildsFirst clock 24 2 (λ name. some makefile) makefile two 7 refl makefile_parsed
