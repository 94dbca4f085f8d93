-- ===== src/Make/Parser/Rounds.antt =====
-- A round of `parse` of `Project 1 - Makefile/util.c` on a line of a rule.
use operating_systems.Common.{
  ℕ, zero, suc, ◌+◌, ◌≤◌, ◌<◌, ◌≡◌, ◌≢◌, refl, ap, ap₂, sym, subst, ◌∙◌, true, false, some, List,
  [], ◌∷◌, ◌++◌, ◌==◌, ltb, if◌then◌else◌, length, replicate, arith, All, All-imp, All-append,
  append_assoc, get_elem?-append, set-append, length-append, drop, drop-length-append,
}
use operating_systems.CText.{Bytes, is_space, skip, has_char}
use operating_systems.CText.Words.{IsWord, strtok-word}
use operating_systems.CText.Lines.{fgets-append, until_nul_none}
use operating_systems.Make.Target.{Target, zero_target}
use operating_systems.Make.Parser.{
  Cursor, Line, next, command_line, write_target, target_line, stripped_line, full_line, read_line,
  parse_lines, is_colon, is_newline,
}
use operating_systems.Make.Parser.Print.{
  Rule, head_line, dependency_text, Inside, Starts, CommandFits, IsRule, tokens-dependency_text,
}
use operating_systems.Make.Parser.Entry.{without_command, array, after_head, head_written}

-- The next target goes behind the entries of `done`, where `k` are free.
abbrev pub Ready : List Target → ℕ → Cursor → Type 0
Ready done k c =
    (c.targets ≡ array done k)
    × (c.count ≡ length done)
    × (c.index + (if c.previous == 1 then 1 else 0) ≡ length done)

has_char-append : (c : ℕ) (s t : Bytes) → has_char c (s ++ c ∷ t) ≡ true
unfolding has_char
has_char-append c [] t = ground arith
has_char-append c (x ∷ s) t = ground (arith, has_char-append c s t)

name-IsWord : (s : Bytes) → Starts s → All (λ c. (c == 58) ≡ false) s → IsWord is_colon s
unfolding is_colon
name-IsWord [] h k = elim h [ ]
name-IsWord (c ∷ s) h k = ((λ e. cc), k)

pub target_line_lem :
    (done : List Target) (k : ℕ) (c : Cursor) (r : Rule)
    → Ready done (suc k) c
    → IsRule r
    → target_line c (head_line r) ≡ next (after_head done k r)
unfolding target_line is_colon
target_line_lem done k c r h hr =
    rw
      (
        has_char-append 58 r.name (dependency_text r.dependencies),
        strtok-word is_colon 58 r.name (dependency_text r.dependencies) refl
            (name-IsWord r.name hr.starts hr.no_colon),
        target_line,
      )
      (rw (tokens-dependency_text r.dependencies hr.words) placed)
  where
    open c use {targets, index, count, previous}

    place : List Target → ℕ → ℕ → Line
    place ts n i =
        write_target (record { targets = ts; index = index; count = n; previous = previous }) i
          r.name r.dependencies

    placed :
        place targets count (index + (if previous == 1 then 1 else 0)) ≡ next (after_head done k r)
    placed =
        ap₂ (λ ts n. place ts n (index + (if previous == 1 then 1 else 0))) h.0 h.1
        ∙ ap (place (array done (suc k)) (length done)) h.2
        ∙ head_written done k index previous r hr

pub full_line_head :
    (c : Cursor) (r : Rule)
    → Starts r.name
    → full_line c (head_line r) ≡ target_line c (head_line r)
unfolding full_line stripped_line skip is_space
full_line_head c r h = stripped r.name h
  where
    stripped :
        (s : Bytes)
        → Starts s
        → full_line c (s ++ 58 ∷ dependency_text r.dependencies)
          ≡ target_line c (s ++ 58 ∷ dependency_text r.dependencies)
    stripped [] h = elim h [ ]
    stripped (x ∷ s) h = ground (arith, h.0, h.1, h.2)

named : (s : Bytes) → Starts s → (length s == 0) ≡ false
named [] h = elim h [ ]
named (x ∷ s) h = ground arith

-- The array behind the rule's command.
abbrev pub after_command : List Target → ℕ → Rule → Bytes → Cursor
after_command done k r text = record {
  targets = done ++ (record (without_command r) { command = text }) ∷ replicate k zero_target;
  index = length done + 1;
  count = length done + 1;
  previous = 0;
}

-- The entry gets its command.
pub command_line_lem :
    (done : List Target) (k : ℕ) (r : Rule) (text : Bytes)
    → IsRule r
    → r.command ≡ some text
    → full_line (after_head done k r) (9 ∷ text) ≡ next (after_command done k r text)
unfolding full_line stripped_line skip is_space command_line
command_line_lem done k r text h e =
    rw
      (
        get_elem?-append done (without_command r) (replicate k zero_target),
        nonempty,
        short,
        full_line,
        stripped_line,
        command_line,
      )
      (ap
        (λ ts.
          next (record {
            targets = ts;
            index = length done + 1;
            count = length done + 1;
            previous = 0;
          }))
        (set-append done (without_command r) (replicate k zero_target)
          (record (without_command r) { command = text })))
  where
    nonempty : (length r.name == 0) ≡ false
    nonempty = named r.name h.starts

    short : ltb (length text) 256 ≡ true
    short = ground (arith, (subst CommandFits e h.command_fits).1)

-- One round of the loop reads one line.
pub round :
    (f : ℕ) (c c' : Cursor) (line rest : Bytes)
    → line ≢ []
    → All Inside line
    → length line < 1023
    → full_line c line ≡ next c'
    → parse_lines (suc f) c (line ++ 10 ∷ rest) ≡ parse_lines f c' rest
unfolding parse_lines read_line is_newline
round f c c' line rest ne inside fits e =
    rw
      (
        fgets-append 1024 line rest no_newline fits,
        until_nul_none (line ++ 10 ∷ []) no_nul,
        strtok-word is_newline 10 line [] refl (ne, word),
        e,
        parse_lines,
        read_line,
      )
      (ap (parse_lines f c') shorter)
  where
    no_newline : All (λ c. c ≢ 10) line
    no_newline = All-imp Inside (λ c. c ≢ 10) line (λ c h. h.1) inside

    no_nul : All (λ c. c ≢ 0) (line ++ 10 ∷ [])
    no_nul =
        All-append (λ c. c ≢ 0) line (10 ∷ [])
          (All-imp Inside (λ c. c ≢ 0) line (λ c h. h.0) inside) ((omega arith), tt)

    word : All (λ c. is_newline c ≡ false) line
    word = All-imp Inside (λ c. is_newline c ≡ false) line (λ c h. ground (arith, h.1)) inside

    shorter : drop (length (line ++ 10 ∷ [])) (line ++ 10 ∷ rest) ≡ rest
    shorter =
        ap (drop (length (line ++ 10 ∷ []))) (sym (append_assoc line (10 ∷ []) rest))
        ∙ drop-length-append (line ++ 10 ∷ []) rest

-- The fuel that one line takes.
pub spent :
    (fuel : ℕ) (line rest : Bytes)
    → length (line ++ 10 ∷ rest) ≤ fuel
    → (f : ℕ) × (fuel ≡ suc f) × (length rest ≤ f)
spent zero line rest h = absurd (omega (arith, h, length-append line (10 ∷ rest)))
spent (suc f) line rest h = (f, refl, omega (arith, h, length-append line (10 ∷ rest)))
