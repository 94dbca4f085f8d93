-- ===== src/Make/Parser/Roundtrip.antt =====
-- What is written as a makefile is read back by `parse` of `Project 1 - Makefile/util.c`.
use operating_systems.Common.{
  ℕ, zero, suc, ◌+◌, ◌-◌, ◌≤◌, ◌<◌, ◌≡◌, ◌≢◌, refl, ap, ap₂, sym, subst, ◌∙◌, Option, none, some,
  List, [], ◌∷◌, ◌++◌, ◌==◌, if◌then◌else◌, length, replicate, arith, map, All, append_assoc,
  length-append,
}
use operating_systems.CText.{Bytes, fgets}
use operating_systems.Make.Target.{Target, zero_target}
use operating_systems.Make.Parser.{
  Cursor, next, full_line, parse_lines, parse, counted, init_cursor,
}
use operating_systems.Make.Parser.Print.{
  Rule, head_line, dependency_text, command_part, makefile_text, given_command, rule_target, Inside,
  CommandFits, IsRule, head_line-Inside, head_line_short, cons-append_some,
}
use operating_systems.Make.Parser.Entry.{without_command, after_head}
use operating_systems.Make.Parser.Rounds.{
  Ready, target_line_lem, full_line_head, after_command, command_line_lem, round, spent,
}

-- What the loop has left after a rule: fuel for the rest, and a cursor behind the rule's entry.
abbrev Left : List Target → ℕ → ℕ → Cursor → Bytes → Bytes → Type 0
Left done k fuel c text rest =
    (f : ℕ) × (c' : Cursor) × (parse_lines fuel c text ≡ parse_lines f c' rest)
    × Ready done k c'
    × (length rest ≤ f)

entry-Ready :
    (done : List Target) (k previous free : ℕ) (r : Rule) (o : Option Bytes)
    → r.command ≡ o
    → free + (if previous == 1 then 1 else 0) ≡ length done + 1
    → Ready (done ++ rule_target r ∷ []) k (record {
      targets =
          done
          ++ (record (without_command r) { command = given_command o }) ∷ replicate k zero_target;
      index = free;
      count = length done + 1;
      previous = previous;
    })
entry-Ready done k previous free r o e h = (
  ap
        (λ o.
          done
          ++ (record (without_command r) { command = given_command o }) ∷ replicate k zero_target)
        (sym e)
      ∙ sym (append_assoc done (rule_target r ∷ []) (replicate k zero_target)),
  longer,
  h ∙ longer,
)
  where
    longer : length done + 1 ≡ length (done ++ rule_target r ∷ [])
    longer = sym (length-append done (rule_target r ∷ []))

-- A line of the text, then the rest of it.
line-Left :
    (done : List Target) (k fuel : ℕ) (c c' : Cursor) (line rest rest' : Bytes)
    → line ≢ []
    → All Inside line
    → length line < 1023
    → full_line c line ≡ next c'
    → length (line ++ 10 ∷ rest) ≤ fuel
    → ((f : ℕ) → length rest ≤ f → Left done k f c' rest rest')
    → Left done k fuel c (line ++ 10 ∷ rest) rest'
line-Left done k fuel c c' line rest rest' ne inside short e le go =
    let (f, eq, room) = spent fuel line rest le in
    let (f', c'', eq', ready, room') = go f room in
    (
      f',
      c'',
      ap (λ n. parse_lines n c (line ++ 10 ∷ rest)) eq
          ∙ round f c c' line rest ne inside short e
          ∙ eq',
      ready,
      room',
    )

command-Left :
    (done : List Target) (k fuel : ℕ) (r : Rule) (o : Option Bytes) (rest : Bytes)
    → IsRule r
    → r.command ≡ o
    → length (command_part o rest) ≤ fuel
    → Left (done ++ rule_target r ∷ []) k fuel (after_head done k r) (command_part o rest) rest
command-Left done k fuel r none rest h e le =
    (fuel, after_head done k r, refl, entry-Ready done k 1 (length done) r none e refl, le)
command-Left done k fuel r (some text) rest h e le =
    line-Left (done ++ rule_target r ∷ []) k fuel (after_head done k r)
      (after_command done k r text) (9 ∷ text) rest rest (λ e. cc)
      ((omega arith, omega arith), fits.0) (omega (arith, fits.1))
      (command_line_lem done k r text h e) le
      (λ f room. (
        f,
        after_command done k r text,
        refl,
        entry-Ready done k 0 (length done + 1) r (some text) e (omega arith),
        room,
      ))
  where
    fits : CommandFits (some text)
    fits = subst CommandFits e h.command_fits

-- A rule is read.
rule-Left :
    (done : List Target) (k fuel : ℕ) (c : Cursor) (r : Rule) (rest : Bytes)
    → Ready done (suc k) c
    → IsRule r
    → length (head_line r ++ 10 ∷ command_part r.command rest) ≤ fuel
    → Left
        (done ++ rule_target r ∷ [])
        k
        fuel
        c
        (head_line r ++ 10 ∷ command_part r.command rest)
        rest
rule-Left done k fuel c r rest ready h le =
    line-Left (done ++ rule_target r ∷ []) k fuel c (after_head done k r) (head_line r)
      (command_part r.command rest) rest
      (cons-append_some 58 r.name (dependency_text r.dependencies)) (head_line-Inside r h)
      (head_line_short r h) (full_line_head c r h.starts ∙ target_line_lem done k c r ready h) le
      (λ f room. command-Left done k f r r.command rest h refl room)

no_line : (fuel : ℕ) (c : Cursor) → parse_lines fuel c [] ≡ counted c.count c.targets
unfolding parse_lines fgets
no_line zero c = refl
no_line (suc fuel) c = refl

rules_read :
    (rules : List Rule) (done : List Target) (k fuel : ℕ) (c : Cursor)
    → Ready done k c
    → All IsRule rules
    → length rules ≤ k
    → length (makefile_text rules) ≤ fuel
    → parse_lines fuel c (makefile_text rules)
      ≡ counted
          (length done + length rules)
          (done ++ (map rule_target rules ++ replicate (k - length rules) zero_target))
rules_read [] done k fuel c ready h few le =
    no_line fuel c
    ∙ ap₂ counted (ready.1 ∙ omega arith)
        (ready.0 ∙ ap (λ n. done ++ replicate n zero_target) (omega arith))
rules_read (r ∷ rules) done zero fuel c ready h few le = absurd (omega (arith, few))
rules_read (r ∷ rules) done (suc k) fuel c ready h few le =
    let (f, c', eq, ready', room) = rule-Left done k fuel c r (makefile_text rules) ready h.0 le in
    eq
    ∙ rules_read rules (done ++ rule_target r ∷ []) k f c' ready' h.1 (omega (arith, few)) room
    ∙ ap₂ counted (omega (arith, length-append done (rule_target r ∷ []))) (
        append_assoc done (rule_target r ∷ [])
          (map rule_target rules ++ replicate (k - length rules) zero_target)
        ∙ ap (λ n. done ++ rule_target r ∷ (map rule_target rules ++ replicate n zero_target))
            (omega arith))

-- A makefile of at most ten rules is read back: `parse` of the rules' text returns their number, and
-- the array holds the entry of each rule, in order, and then cleared entries. A rule has a name that
-- begins with no space, tab or '#' and has no colon, at most ten dependencies that are words, names
-- and dependencies of at most 63 bytes, and at most one command, of at most 255 bytes; none of them
-- has a NUL or a newline.
pub parse-makefile_text :
    (rules : List Rule)
    → All IsRule rules
    → length rules ≤ 10
    → parse (some (makefile_text rules))
      ≡ counted (length rules) (map rule_target rules ++ replicate (10 - length rules) zero_target)
unfolding parse
parse-makefile_text rules h few =
    rules_read rules [] 10 (length (makefile_text rules)) init_cursor (refl, refl, refl) h few
      (omega arith)
    ∙ ap (λ n. counted n (map rule_target rules ++ replicate (10 - length rules) zero_target))
        (omega arith)
