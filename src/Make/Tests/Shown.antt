-- ===== src/Make/Tests/Shown.antt =====
-- What `show_targets` prints of the makefile with two targets.
use operating_systems.Common.{◌≡◌, refl, some, ◌++◌}
use operating_systems.CText.{codes}
use operating_systems.Numbers.{format_int}
use operating_systems.Make.Output.{show_targets}
use operating_systems.Make.Tests.{two}

two_shown :
    show_targets 2 two
    ≡ some (
        codes "TargetName: all\nDependencyCount: 1\nDependencyNames: app\nCommand: echo done\n\n"
        ++ codes
            "TargetName: app\nDependencyCount: 1\nDependencyNames: main.c\nCommand: gcc main.c\n\n")
unfolding show_targets format_int
two_shown = refl
