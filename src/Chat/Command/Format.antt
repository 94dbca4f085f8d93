-- ===== src/Chat/Command/Format.antt =====
-- What `extract_name` and `extract_text` of `Project 2 - Server/server.c` find in a command that is
-- written as a word, a name and a text with single spaces between them.
use operating_systems.Common.{
  ℕ, suc, ◌+◌, ◌<◌, ◌≡◌, refl, ◌∙◌, ap, true, some, List, ◌∷◌, ◌++◌, length, arith,
}
use operating_systems.CText.{Bytes, tokens, after, is_space}
use operating_systems.CText.Words.{IsWord, tokens-word, after-word}
use operating_systems.Chat.Command.{
  parse_line, find_command_type, first_word_type, get_command_type, extracted, name_of,
  extract_name, text_of, extract_text,
}

abbrev pub command_text : Bytes → Bytes → Bytes → Bytes
command_text command name text = command ++ (32 ∷ (name ++ (32 ∷ text)))

space : is_space 32 ≡ true
unfolding is_space
space = refl

tokens-command_text :
    (command name text : Bytes)
    → IsWord is_space command
    → IsWord is_space name
    → tokens is_space (command_text command name text) ≡ command ∷ name ∷ tokens is_space text
tokens-command_text command name text h k =
    tokens-word is_space 32 command (name ++ (32 ∷ text)) space h
    ∙ ap (◌∷◌ command) (tokens-word is_space 32 name text space k)

parse_line_short :
    (capacity : ℕ) (s : Bytes)
    → length (tokens is_space s) < capacity
    → parse_line capacity s ≡ some (tokens is_space s)
unfolding parse_line
parse_line_short capacity s h = ground arith

parse_line-command_text :
    (capacity : ℕ) (command name text : Bytes)
    → IsWord is_space command
    → IsWord is_space name
    → length (tokens is_space text) + 2 < capacity
    → parse_line capacity (command_text command name text)
      ≡ some (command ∷ name ∷ tokens is_space text)
parse_line-command_text capacity command name text h k short =
    parse_line_short capacity (command_text command name text) (
      omega (
        arith,
        short,
        ap (λ (x : List Bytes). length x) (tokens-command_text command name text h k),
      ))
    ∙ ap some (tokens-command_text command name text h k)

-- In a command of at most 15 words, with a name that fits its array and a text with a word in it,
-- `get_command_type` finds the command, `extract_name` the name, and `extract_text` the text to the
-- last byte, spaces included.
pub extract-command_text :
    (command name text word : Bytes) (words : List Bytes)
    → IsWord is_space command
    → IsWord is_space name
    → length name < 32
    → tokens is_space text ≡ word ∷ words
    → length words < 13
    → (get_command_type (command_text command name text) ≡ some (find_command_type command))
      × (extract_name (command_text command name text) ≡ extracted name)
      × (extract_text (command_text command name text) ≡ extracted text)
unfolding get_command_type extract_name extract_text
extract-command_text command name text word words h k fits e short = (type, by_name, by_text)
  where
    count : length (tokens is_space text) ≡ suc (length words)
    count = ap (λ (x : List Bytes). length x) e

    parsed :
        (capacity : ℕ)
        → 15 < capacity
        → parse_line capacity (command_text command name text)
          ≡ some (command ∷ name ∷ word ∷ words)
    parsed capacity big =
        parse_line-command_text capacity command name text h k (omega (arith, count, short, big))
        ∙ ap (λ ws. some (command ∷ name ∷ ws)) e

    type : get_command_type (command_text command name text) ≡ some (find_command_type command)
    type = ap first_word_type (parsed 128 (omega arith))

    by_name : extract_name (command_text command name text) ≡ extracted name
    by_name = ap name_of (parsed 16 (omega arith)) ∙ ground arith

    by_text : extract_text (command_text command name text) ≡ extracted text
    by_text =
        ap (text_of (command_text command name text)) (parsed 16 (omega arith))
        ∙ ap extracted (
            ap (after is_space) (after-word is_space 32 command (name ++ (32 ∷ text)) space h.1)
            ∙ after-word is_space 32 name text space k.1)
