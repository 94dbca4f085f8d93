-- ===== src/Make/Parser/Lines.antt =====
-- What `parse` of `Project 1 - Makefile/util.c` promises of the makefiles that it accepts.
use operating_systems.Common.{
  ℕ, zero, suc, ◌+◌, ◌≤◌, ◌<◌, ◌≡◌, subst, Bool, Option, none, some, List, [], ◌∷◌, ◌==◌,
  if◌then◌else◌, get_elem?, drop, length, arith, All, Option-cases, Bool-cases, inl, inr,
}
use operating_systems.CText.{
  Bytes, fgets, until_nul, strtok, first_token, token, tokens, skip, is_space, has_char,
}
use operating_systems.Make.Target.{Target}
use operating_systems.Make.Parser.{
  Cursor, Line, next, fails, overruns, Parse, counted, invalid, no_file, overflow, target_line,
  stripped_line, full_line, read_line, parse_lines, init_cursor, parse, is_newline, is_colon,
}
use operating_systems.Make.Parser.Fits.{Fits}
use operating_systems.Make.Parser.Counts.{
  IsValid, LineValid, command_line-IsValid, write_target-IsValid, init_cursor-IsValid,
}

index_after : (c : Cursor) → IsValid c → c.index + (if c.previous == 1 then 1 else 0) ≡ c.count
index_after c valid = ground (arith, valid.counts, valid.flag)

abbrev NonemptyToken : Option (Bytes × Bytes) → Type 0
NonemptyToken none = Unit
NonemptyToken (some (t, rest)) = 0 < length t

strtok_nonempty : (d : ℕ → Bool) (s : Bytes) → NonemptyToken (strtok d s)
unfolding strtok skip first_token token
strtok_nonempty d [] = tt
strtok_nonempty d (ch ∷ s) = elim (Bool-cases (d ch)) [
  | inl e ↦ rw (e, strtok, skip) (strtok_nonempty d s)
  | inr e ↦ rw (e, strtok, skip) rw (e, token) (omega arith)
]

target_line-IsValid : (c : Cursor) (line : Bytes) → IsValid c → LineValid (target_line c line)
unfolding target_line
target_line-IsValid c line valid = elim (Bool-cases (has_char 58 line)) [
  | inl b ↦ elim (Option-cases (strtok is_colon line)) [
    | inl e ↦ rw (b, e, target_line) tt
    | inr ((name, rest), e) ↦
        rw (b, e, target_line)
          (write_target-IsValid c (c.index + (if c.previous == 1 then 1 else 0)) name
            (tokens is_space rest) (index_after c valid)
            (subst NonemptyToken e (strtok_nonempty is_colon line)) valid)
  ]
  | inr b ↦ rw (b, target_line) tt
]

stripped_line-IsValid : (c : Cursor) (line : Bytes) → IsValid c → LineValid (stripped_line c line)
unfolding stripped_line
stripped_line-IsValid c [] valid = valid
stripped_line-IsValid c (ch ∷ line) valid = elim (Bool-cases (ch == 9)) [
  | inl e ↦ rw (e, stripped_line) (command_line-IsValid c line valid)
  | inr e ↦ rw (e, stripped_line) (target_line-IsValid c (ch ∷ line) valid)
]

full_line-IsValid : (c : Cursor) (line : Bytes) → IsValid c → LineValid (full_line c line)
unfolding full_line
full_line-IsValid c [] valid = valid
full_line-IsValid c (ch ∷ line) valid = elim (Bool-cases (ch == 35)) [
  | inl e ↦ rw (e, full_line) valid
  | inr e ↦ rw (e, full_line) (stripped_line-IsValid c (skip is_space (ch ∷ line)) valid)
]

read_line-IsValid : (c : Cursor) (buffer : Bytes) → IsValid c → LineValid (read_line c buffer)
unfolding read_line
read_line-IsValid c buffer valid = elim (Option-cases (strtok is_newline buffer)) [
  | inl e ↦ rw (e, read_line) valid
  | inr ((line, rest), e) ↦ rw (e, read_line) (full_line-IsValid c line valid)
]

-- What `parse` promises of a makefile that it accepts.
pub record IsMakefile (k : ℕ) (ts : List Target) : Type 0 where
  pub array : length ts ≡ 10
  pub all_fit : All Fits ts
  pub at_most : k ≤ 10
  pub have_names : (i : ℕ) (t : Target) → i < k → get_elem? ts i ≡ some t → 0 < length t.target_name

abbrev pub ParseValid : Parse → Type 0
ParseValid (counted k ts) = IsMakefile k ts
ParseValid invalid = Unit
ParseValid no_file = Unit
ParseValid overflow = Unit

parsed_cursor : (c : Cursor) → IsValid c → IsMakefile c.count c.targets
parsed_cursor c valid = record {
  array = valid.ten;
  all_fit = valid.fit;
  at_most = valid.bounded;
  have_names = valid.named;
}

continue :
    (r : Line) (k : Cursor → Parse)
    → LineValid r
    → ((c : Cursor) → IsValid c → ParseValid (k c))
    → ParseValid (elim r [ next c' ↦ k c' | fails ↦ invalid | overruns ↦ overflow ])
continue (next c) k h f = f c h
continue fails k h f = tt
continue overruns k h f = tt

parse_lines-ParseValid :
    (fuel : ℕ) (c : Cursor) (stream : Bytes) → IsValid c → ParseValid (parse_lines fuel c stream)
unfolding parse_lines
parse_lines-ParseValid zero c stream valid = parsed_cursor c valid
parse_lines-ParseValid (suc fuel) c stream valid = elim (Option-cases (fgets 1024 stream)) [
  | inl e ↦ rw (e, parse_lines) (parsed_cursor c valid)
  | inr (buffer, e) ↦
      rw (e, parse_lines)
        (continue (read_line c (until_nul buffer))
          (λ c'. parse_lines fuel c' (drop (length buffer) stream))
          (read_line-IsValid c (until_nul buffer) valid)
          (λ c' valid'. parse_lines-ParseValid fuel c' (drop (length buffer) stream) valid'))
]

pub parse-ParseValid : (content : Option Bytes) → ParseValid (parse content)
unfolding parse
parse-ParseValid none = tt
parse-ParseValid (some stream) =
    parse_lines-ParseValid (length stream) init_cursor stream init_cursor-IsValid

-- Of a file that `parse` accepts: at most 10 targets are counted, each of them has a name, and every
-- text in the array fits, with its NUL, the array of `target_t` that holds it; no dependency count
-- exceeds the 10 rows, and no target has a status but UNFINISHED.
pub parse-IsMakefile :
    (stream : Bytes) (k : ℕ) (ts : List Target)
    → parse (some stream) ≡ counted k ts
    → IsMakefile k ts
parse-IsMakefile stream k ts e = subst ParseValid e (parse-ParseValid (some stream))
