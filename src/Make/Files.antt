-- ===== src/Make/Files.antt =====
-- The file helpers of `Project 1 - Makefile/util.c` as they are written, on what `access`, `stat` and
-- `fopen` give: `does_file_exist`, `get_file_modification_time`, which cuts the time to an `int`,
-- `compare_modification_time`, and `file_open`.
use operating_systems.Common.{
  ℕ, ◌≡◌, refl, Bool, Option, none, some, ◌++◌, if◌then◌else◌, Bool-cases, inl, inr,
}
use operating_systems.CText.{Bytes, codes}
use operating_systems.Numbers.{ℤ, pos, negsuc, to_int, is_minus_one}
use operating_systems.Make.Target.{
  Comparison, modification_time, compare_times, compare_modification_time,
}

-- `access` finds the file, and `st_mtime`, in seconds from 1970 on.
pub record Files : Type 0 where
  pub access : Bytes → Bool
  pub st_mtime : Bytes → ℕ

unfoldable pub does_file_exist : Files → Bytes → ℤ
does_file_exist fs name = if fs.access name then pos 0 else negsuc 0

unfoldable pub get_file_modification_time : Files → Bytes → ℤ
unfolding does_file_exist to_int
get_file_modification_time fs name =
    if is_minus_one (does_file_exist fs name) then negsuc 0 else to_int (fs.st_mtime name)

-- `compare_modification_time`
unfoldable pub compare_files : Files → Bytes → Bytes → Comparison
unfolding get_file_modification_time compare_times
compare_files fs name1 name2 =
    compare_times (get_file_modification_time fs name1) (get_file_modification_time fs name2)

-- What `build` takes the time of a file to be.
abbrev pub mtime_of : Files → Bytes → Option ℕ
mtime_of fs name = if fs.access name then some (fs.st_mtime name) else none

-- `file_open`: the text of the file, or the message with which the process ends by `exit(1)`.
pub data Opened : Type 0 where
  stream gone : Bytes → Opened

unfoldable pub file_open : Option Bytes → Bytes → Opened
file_open (some text) filename = stream text
file_open none filename =
    gone (codes "make4061: " ++ filename ++ codes ": No such file or directory.\n")

-- The code's comparison of two files is that of the times that `build` takes the files to have.
compare_files-mtime_of :
    (fs : Files) (name1 name2 : Bytes)
    → compare_files fs name1 name2
      ≡ compare_modification_time (mtime_of fs name1) (mtime_of fs name2)
unfolding compare_files compare_modification_time modification_time get_file_modification_time
    does_file_exist
compare_files-mtime_of fs name1 name2 = elim (Bool-cases (fs.access name1)) [
  | inl e1 ↦ elim (Bool-cases (fs.access name2)) [
    | inl e2 ↦ rw (e1, e2) refl
    | inr e2 ↦ rw (e1, e2) refl
  ]
  | inr e1 ↦ rw e1 refl
]
