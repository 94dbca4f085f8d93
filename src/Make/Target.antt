-- ===== src/Make/Target.antt =====
-- `target_t` of `Project 1 - Makefile/util.h`, and the helpers of `Project 1 - Makefile/util.c` that
-- `build` uses: `find_target`, `get_file_modification_time`, `compare_modification_time` and
-- `parse_into_tokens`.
pub mod Search
use operating_systems.Common.{
  ℕ, zero, suc, ◌+◌, ◌≡◌, Bool, ◌||◌, Option, none, some, List, [], ◌∷◌, ltb, ◌==◌, if◌then◌else◌,
  take, length, replicate,
}
use operating_systems.Numbers.{ℤ, negsuc, to_int, is_minus_one, int_eq, int_above}
use operating_systems.CText.{Bytes, str_eq, tokens, is_space}

-- UNFINISHED, FINISHED and NEEDS_BUILDING
pub data Status : Type 0 where
  unfinished finished needs_building : Status

-- `dependency_names` has the 10 rows of the array.
pub record Target : Type 0 where
  pub target_name : Bytes
  pub dependency_count : ℕ
  pub dependency_names : List Bytes
  pub command : Bytes
  pub status : Status

-- A target after the `memset` of `main`.
unfoldable pub zero_target : Target
zero_target = record {
  target_name = [];
  dependency_count = 0;
  dependency_names = replicate 10 [];
  command = [];
  status = unfinished;
}

-- The loop of `find_target` at index `i`, over the first `n` targets.
unfoldable pub find_from : ℕ → List Target → Bytes → ℕ → Option ℕ
find_from zero ts name i = none
find_from (suc n) [] name i = none
find_from (suc n) (t ∷ ts) name i =
    if str_eq name t.target_name then some i else find_from n ts name (i + 1)

-- `find_target`: `none` is -1.
unfoldable pub find_target : Bytes → List Target → ℕ → Option ℕ
unfolding find_from
find_target name ts n_target_count = find_from n_target_count ts name 0

-- The results -1, 0, 1 and 2 of `compare_modification_time`.
pub data Comparison : Type 0 where
  missing identical later earlier : Comparison

-- `get_file_modification_time`, by the time that `stat` gives, in seconds from 1970 on; a file that
-- `access` does not find has none.
unfoldable pub modification_time : Option ℕ → ℤ
unfolding to_int
modification_time none = negsuc 0
modification_time (some st_mtime) = to_int st_mtime

-- The tests of `compare_modification_time` on the two values of `int`.
unfoldable pub compare_times : ℤ → ℤ → Comparison
compare_times time1 time2 =
    if is_minus_one time1 || is_minus_one time2
    then missing
    else if int_eq time1 time2
    then identical
    else if int_above time1 time2
    then later
    else earlier

-- `compare_modification_time`
unfoldable pub compare_modification_time : Option ℕ → Option ℕ → Comparison
unfolding modification_time compare_times
compare_modification_time time1 time2 =
    compare_times (modification_time time1) (modification_time time2)

-- `parse_into_tokens` with the delimiter " ": at most ARG_MAX (1023) tokens, with a NULL behind
-- them. `none` is a write past the array of `capacity` pointers that it fills.
unfoldable pub parse_into_tokens : ℕ → Bytes → Option (List Bytes)
unfolding tokens is_space
parse_into_tokens capacity input =
    let argv = take 1023 (tokens is_space input) in
    if ltb (length argv) capacity then some argv else none
