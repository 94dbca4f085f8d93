-- ===== src/Make/Tests/Times.antt =====
-- Times of files that an `int` does not hold.
use operating_systems.Common.{◌-◌, ◌^◌, ◌≡◌, refl, true, ◌∷◌, [], if◌then◌else◌, length, ◌==◌}
use operating_systems.Make.Target.{earlier, missing}
use operating_systems.Make.Files.{Files, compare_files}

-- A file of the last second that an `int` holds, one of the second behind it, and one of the last
-- second before 2^32.
abbrev late_files : Files
late_files = record {
  access = λ name. true;
  st_mtime = λ name.
      if length name == 1 then 2 ^ 31 - 1 else if length name == 2 then 2 ^ 31 else 2 ^ 32 - 1;
}

later_is_earlier : compare_files late_files (b'a' ∷ b'b' ∷ []) (b'a' ∷ []) ≡ earlier
unfolding compare_files
later_is_earlier = refl

latest_is_missing : compare_files late_files (b'a' ∷ b'b' ∷ b'c' ∷ []) (b'a' ∷ []) ≡ missing
unfolding compare_files
latest_is_missing = refl
