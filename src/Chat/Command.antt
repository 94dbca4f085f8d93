-- ===== src/Chat/Command.antt =====
-- The commands of the chat: `parse_line`, `find_command_type` and `get_command_type` of
-- `Project 2 - Server/util.c`, and `extract_name` and `extract_text` of `Project 2 - Server/server.c`.
-- A text is what C reads of a buffer of 256 bytes, so it has at most 255.
pub mod Format
use operating_systems.Common.{
  ℕ, ◌≡◌, refl, Bool, Option, none, some, List, [], ◌∷◌, ltb, if◌then◌else◌, length,
}
use operating_systems.CText.{Bytes, codes, str_eq, tokens, after, is_space}

pub data Command : Type 0 where
  list kick p2p seg exit broadcast : Command

-- `parse_line` with the delimiter " " into an array of `capacity` pointers: `none` is a write past it.
unfoldable pub parse_line : ℕ → Bytes → Option (List Bytes)
unfolding tokens is_space
parse_line capacity input =
    if ltb (length (tokens is_space input)) capacity then some (tokens is_space input) else none

unfoldable pub find_command_type : Bytes → Command
find_command_type command =
    if str_eq command (codes "\\list")
    then list
    else if str_eq command (codes "\\kick")
    then kick
    else if str_eq command (codes "\\p2p")
    then p2p
    else if str_eq command (codes "\\seg")
    then seg
    else if str_eq command (codes "\\exit")
    then exit
    else broadcast

-- The type of the first word. A text with no word passes NULL to `strcmp`: `none`, as for too many
-- words.
unfoldable pub first_word_type : Option (List Bytes) → Option Command
unfolding find_command_type
first_word_type none = none
first_word_type (some []) = none
first_word_type (some (command ∷ rest)) = some (find_command_type command)

unfoldable pub get_command_type : Bytes → Option Command
unfolding parse_line first_word_type
get_command_type full_command = first_word_type (parse_line 128 full_command)

-- What `extract_name` and `extract_text` return: 0 with the text, -1, or a write past an array.
pub data Extracted : Type 0 where
  extracted : Bytes → Extracted
  missing overrun : Extracted

-- The second word, into the 32 bytes of an id.
unfoldable pub name_of : Option (List Bytes) → Extracted
name_of none = overrun
name_of (some []) = missing
name_of (some (command ∷ [])) = missing
name_of (some (command ∷ name ∷ rest)) = if ltb (length name) 32 then extracted name else overrun

unfoldable pub extract_name : Bytes → Extracted
unfolding parse_line name_of
extract_name buf = name_of (parse_line 16 buf)

-- The text behind the second space; three words have two spaces between them.
unfoldable pub text_of : Bytes → Option (List Bytes) → Extracted
unfolding after is_space
text_of buf none = overrun
text_of buf (some []) = missing
text_of buf (some (command ∷ [])) = missing
text_of buf (some (command ∷ name ∷ [])) = missing
text_of buf (some (command ∷ name ∷ word ∷ rest)) = extracted (after is_space (after is_space buf))

unfoldable pub extract_text : Bytes → Extracted
unfolding parse_line text_of
extract_text buf = text_of buf (parse_line 16 buf)
