-- ===== src/Make/Parser.antt =====
-- `parse` of `Project 1 - Makefile/util.c`. Every `strcpy` and every access of the array of targets
-- that leaves its array is an outcome of its own.
pub mod Fits
pub mod Counts
pub mod Lines
pub mod Fuel
pub mod Print
pub mod Entry
pub mod Rounds
pub mod Roundtrip
use operating_systems.Common.{
  ℕ, zero, suc, ◌+◌, ◌-◌, ◌≡◌, Bool, true, false, ◌&&◌, Option, none, some, List, [], ◌∷◌, ltb,
  ◌==◌, if◌then◌else◌, get_elem?, set, take, drop, length, replicate,
}
use operating_systems.CText.{Bytes, fgets, until_nul, strtok, tokens, skip, is_space, has_char}
use operating_systems.Make.Target.{Target, zero_target}

-- The local variables of `parse`: the array, the index of `pTarget`, `nTargetCount` and
-- `nPreviousTarget`.
pub record Cursor : Type 0 where
  pub targets : List Target
  pub index : ℕ
  pub count : ℕ
  pub previous : ℕ

-- A line is read, is an error (-1), or writes or reads outside an array.
pub data Line : Type 0 where
  next : Cursor → Line
  fails overruns : Line

-- `parse` returns the number of targets, -1, or ends the program in `file_open`.
pub data Parse : Type 0 where
  counted : ℕ → List Target → Parse
  invalid no_file overflow : Parse

-- "\n" and ":"
unfoldable pub is_newline : ℕ → Bool
is_newline c = c == 10

unfoldable pub is_colon : ℕ → Bool
is_colon c = c == 58

-- A line with a command, behind its tab. The code has no test of the length in front of its `strcpy`:
-- the test here tells the copy that fits from the one past the array, which is `overruns`; so it is
-- with the names and the counts below.
unfoldable pub command_line : Cursor → Bytes → Line
command_line c text = elim (get_elem? c.targets c.index) [
  | none ↦ overruns
  | some t ↦
      if length t.target_name == 0
      then fails
      else if ltb (length text) 256
      then next (record {
        targets = set c.targets c.index (record t { command = text });
        index = c.index + 1;
        count = c.count;
        previous = 0;
      })
      else overruns
]

-- The loop over the dependencies.
unfoldable pub add_dependencies : Target → List Bytes → Option Target
add_dependencies t [] = some t
add_dependencies t (d ∷ ds) =
    let rest =
      add_dependencies
        (record t {
          dependency_names = set t.dependency_names t.dependency_count d;
          dependency_count = t.dependency_count + 1;
        })
        ds in
    if ltb t.dependency_count 10 && ltb (length d) 64 then rest else none

unfoldable pub write_target : Cursor → ℕ → Bytes → List Bytes → Line
unfolding add_dependencies
write_target c i name dependencies = elim (get_elem? c.targets i) [
  | none ↦ overruns
  | some t ↦
      if ltb (length name) 64
      then elim (add_dependencies (record t { target_name = name }) dependencies) [
        | none ↦ overruns
        | some t' ↦
            next (record {
              targets = set c.targets i t';
              index = i;
              count = c.count + 1;
              previous = 1;
            })
      ]
      else overruns
]

-- A line with a target. `pTarget` first leaves a target that had no command.
unfoldable pub target_line : Cursor → Bytes → Line
unfolding write_target strtok tokens is_space is_colon
target_line c line =
    if has_char 58 line
    then elim (strtok is_colon line) [
      | none ↦ fails
      | some (name, rest) ↦
          write_target c (c.index + (if c.previous == 1 then 1 else 0)) name (tokens is_space rest)
    ]
    else fails

-- The line without its leading spaces.
unfoldable pub stripped_line : Cursor → Bytes → Line
unfolding command_line target_line
stripped_line c [] = next c
stripped_line c (ch ∷ line) = if ch == 9 then command_line c line else target_line c (ch ∷ line)

-- A line from its first byte that is not a newline.
unfoldable pub full_line : Cursor → Bytes → Line
unfolding stripped_line skip is_space
full_line c [] = next c
full_line c (ch ∷ line) = if ch == 35 then next c else stripped_line c (skip is_space (ch ∷ line))

-- One round of the loop, on what `fgets` left in the buffer.
unfoldable pub read_line : Cursor → Bytes → Line
unfolding full_line strtok is_newline
read_line c buffer = elim (strtok is_newline buffer) [
  | none ↦ next c
  | some (line, rest) ↦ full_line c line
]

-- The loop, a round for each unit of fuel.
unfoldable pub parse_lines : ℕ → Cursor → Bytes → Parse
unfolding read_line fgets until_nul
parse_lines zero c stream = counted c.count c.targets
parse_lines (suc fuel) c stream = elim (fgets 1024 stream) [
  | none ↦ counted c.count c.targets
  | some buffer ↦ elim (read_line c (until_nul buffer)) [
    | next c' ↦ parse_lines fuel c' (drop (length buffer) stream)
    | fails ↦ invalid
    | overruns ↦ overflow
  ]
]

-- The array that `main` clears.
abbrev pub init_cursor : Cursor
init_cursor = record { targets = replicate 10 zero_target; index = 0; count = 0; previous = 0 }

-- Every line has at least one byte, so the length of the file is enough fuel.
unfoldable pub parse : Option Bytes → Parse
unfolding parse_lines
parse none = no_file
parse (some stream) = parse_lines (length stream) init_cursor stream
