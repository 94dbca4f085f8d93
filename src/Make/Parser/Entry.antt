-- ===== src/Make/Parser/Entry.antt =====
-- What `parse` of `Project 1 - Makefile/util.c` writes for the lines of a rule.
use operating_systems.Common.{
  ℕ, zero, suc, ◌+◌, ◌-◌, ◌≤◌, ◌<◌, ◌≡◌, ap, ap₂, sym, ◌∙◌, true, ◌&&◌, some, List, [], ◌∷◌, ◌++◌,
  ltb, length, replicate, arith, All, append-nil, append_assoc, set, get_elem?-append, set-append,
  length-append,
}
use operating_systems.CText.{Bytes}
use operating_systems.Make.Target.{Target, zero_target, unfinished}
use operating_systems.Make.Parser.{Cursor, next, add_dependencies, write_target}
use operating_systems.Make.Parser.Print.{Rule, IsRule}

abbrev with_names : Bytes → ℕ → List Bytes → Target
with_names name n names = record {
  target_name = name;
  dependency_count = n;
  dependency_names = names;
  command = [];
  status = unfinished;
}

-- A target whose first rows are `ds`.
abbrev with_rows : Bytes → List Bytes → ℕ → Target
with_rows name ds free = with_names name (length ds) (ds ++ replicate free [])

rows_written :
    (name : Bytes) (old ds : List Bytes) (free : ℕ)
    → length old + length ds ≤ 10
    → length ds ≤ free
    → All (λ d. length d < 64) ds
    → add_dependencies (with_rows name old free) ds
      ≡ some (with_rows name (old ++ ds) (free - length ds))
unfolding add_dependencies
rows_written name old [] free h k fits =
    ap₂ (λ ds k. some (with_rows name ds k)) (sym (append-nil old)) (omega arith)
rows_written name old (d ∷ ds) zero h k fits = absurd (omega (arith, k))
rows_written name old (d ∷ ds) (suc free) h k fits =
    rw (room, add_dependencies)
      (ap (λ t. add_dependencies t ds) one
        ∙ rows_written name (old ++ d ∷ []) ds free (omega (arith, h, length-append old (d ∷ [])))
            (omega (arith, k)) fits.1
        ∙ ap₂ (λ x k. some (with_rows name x k)) (append_assoc old (d ∷ []) ds) (omega arith))
  where
    room : (ltb (length old) 10 && ltb (length d) 64) ≡ true
    room = ground (arith, fits.0)

    one :
        (record (with_rows name old (suc free)) {
          dependency_names = set (old ++ replicate (suc free) []) (length old) d;
          dependency_count = length old + 1;
        })
        ≡ with_rows name (old ++ d ∷ []) free
    one = ap₂ (with_names name) (sym (length-append old (d ∷ []))) (
        set-append old [] (replicate free []) d
        ∙ sym (append_assoc old (d ∷ []) (replicate free [])))

-- The entry of a rule before its command is read.
abbrev pub without_command : Rule → Target
without_command r = with_rows r.name r.dependencies (10 - length r.dependencies)

-- The array with the entries of `done`, and `k` empty ones.
abbrev pub array : List Target → ℕ → List Target
array done k = done ++ replicate k zero_target

abbrev pub after_head : List Target → ℕ → Rule → Cursor
after_head done k r = record {
  targets = done ++ without_command r ∷ replicate k zero_target;
  index = length done;
  count = length done + 1;
  previous = 1;
}

pub head_written :
    (done : List Target) (k index previous : ℕ) (r : Rule)
    → IsRule r
    → write_target
        (record {
          targets = array done (suc k);
          index = index;
          count = length done;
          previous = previous;
        })
        (length done)
        r.name
        r.dependencies
      ≡ next (after_head done k r)
unfolding write_target zero_target
head_written done k index previous r h =
    rw (get_elem?-append done zero_target (replicate k zero_target), short, rows, write_target)
      (ap
        (λ ts.
          next
            (record { targets = ts; index = length done; count = length done + 1; previous = 1 }))
        (set-append done zero_target (replicate k zero_target) (without_command r)))
  where
    short : ltb (length r.name) 64 ≡ true
    short = ground (arith, h.name_fits)

    rows :
        add_dependencies (record zero_target { target_name = r.name }) r.dependencies
        ≡ some (without_command r)
    rows =
        unfold zero_target in
        rows_written r.name [] r.dependencies 10 (omega (arith, h.few)) h.few h.dependencies_fit
