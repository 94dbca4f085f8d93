-- ===== src/Make/Parser/Counts.antt =====
-- The cursor of `parse` of `Project 1 - Makefile/util.c`: which entries have been written.
use operating_systems.Common.{
  set_cases, get_elem?_lt, ℕ, ◌+◌, ◌≤◌, ◌<◌, ◌≡◌, ◌≢◌, refl, sym, ◌∙◌, subst, false, some, List,
  ltb, ◌==◌, get_elem?, set, length, arith, All, All-set, All-get_elem?, All-replicate, length-set,
  length-replicate, Option-cases, Bool-cases, inl, inr, ℕ_discrete,
}
use operating_systems.CText.{Bytes}
use operating_systems.Make.Target.{Target, zero_target}
use operating_systems.Make.Parser.{
  Cursor, Line, next, fails, overruns, command_line, add_dependencies, write_target, init_cursor,
}
use operating_systems.Make.Parser.Fits.{
  Fits, zero_target-Fits, Holds, add_dependencies-Fits, with_command-Fits, with_name-Fits,
}

-- The first `count` targets, and no others, have a name.
pub record IsValid (c : Cursor) : Type 0 where
  pub ten : length c.targets ≡ 10
  pub fit : All Fits c.targets
  pub counts : c.count ≡ c.index + c.previous
  pub flag : c.previous ≤ 1
  pub bounded : c.count ≤ 10
  pub named :
      (i : ℕ) (t : Target) → i < c.count → get_elem? c.targets i ≡ some t → 0 < length t.target_name
  pub fresh :
      (i : ℕ) (t : Target) → c.count ≤ i → get_elem? c.targets i ≡ some t → length t.target_name ≡ 0

abbrev pub LineValid : Line → Type 0
LineValid (next c) = IsValid c
LineValid fails = Unit
LineValid overruns = Unit

no_name : (i : ℕ) (t : Target) → get_elem? init_cursor.targets i ≡ some t → length t.target_name ≡ 0
unfolding zero_target
no_name i t e =
    All-get_elem? (λ x. length x.target_name ≡ 0) init_cursor.targets i t
      (All-replicate (λ x. length x.target_name ≡ 0) 10 zero_target refl) e

pub init_cursor-IsValid : IsValid init_cursor
init_cursor-IsValid = record {
  ten = length-replicate 10 zero_target;
  fit = All-replicate Fits 10 zero_target zero_target-Fits;
  counts = refl;
  flag = omega arith;
  bounded = omega arith;
  named = λ i t h e. omega (arith, h);
  fresh = λ i t h e. no_name i t e;
}

-- The entry at `i` is replaced by `v`, and the count becomes `m`.
change-IsValid :
    (c : Cursor) (i : ℕ) (v : Target) (index m previous : ℕ)
    → IsValid c
    → i < 10
    → Fits v
    → 0 < length v.target_name
    → i < m
    → c.count ≤ m
    → m ≤ 10
    → ((j : ℕ) → j < m → i ≢ j → j < c.count)
    → m ≡ index + previous
    → previous ≤ 1
    → IsValid
        (record { targets = set c.targets i v; index = index; count = m; previous = previous })
change-IsValid c i v index m previous valid below fits name_given im cm m10 olds sums flag =
    record {
      ten = length-set c.targets i v ∙ valid.ten;
      fit = All-set Fits c.targets i v valid.fit fits;
      counts = sums;
      flag = flag;
      bounded = m10;
      named = λ j t h e. elim (set_cases c.targets i j v t (omega (arith, valid.ten)) e) [
        | inl (p, q) ↦ subst (λ x. 0 < length x.target_name) (sym q) name_given
        | inr (ne, q) ↦ valid.named j t (olds j h ne) q
      ];
      fresh = λ j t h e. elim (set_cases c.targets i j v t (omega (arith, valid.ten)) e) [
        | inl (p, q) ↦ omega (arith, p, h, im)
        | inr (ne, q) ↦ valid.fresh j t (omega arith) q
      ];
    }

before_count : (c : Cursor) (i j : ℕ) → i ≡ c.count → j < c.count + 1 → i ≢ j → j < c.count
before_count c i j at_count h ne = elim (ℕ_discrete i j) [
  | yes p ↦ absurd (ne p)
  | no q ↦ ground arith
]

-- A target with a name is the one before the count, and it has had no command yet.
current :
    (c : Cursor) (t : Target)
    → IsValid c
    → get_elem? c.targets c.index ≡ some t
    → (length t.target_name == 0) ≡ false
    → c.count ≡ c.index + 1
current c t valid e h = elim (Bool-cases (ltb c.index c.count)) [
  | inl l ↦ ground (arith, valid.counts, valid.flag)
  | inr l ↦ ground (arith, valid.fresh c.index t)
]

pub command_line-IsValid : (c : Cursor) (text : Bytes) → IsValid c → LineValid (command_line c text)
unfolding command_line
command_line-IsValid c text valid = elim (Option-cases (get_elem? c.targets c.index)) [
  | inl e ↦ rw (e, command_line) tt
  | inr (t, e) ↦ elim (Bool-cases (length t.target_name == 0)) [
    | inl h ↦ rw (e, h, command_line) tt
    | inr h ↦ elim (Bool-cases (ltb (length text) 256)) [
      | inl l ↦
          rw (e, h, l, command_line)
            (change-IsValid c c.index (record t { command = text }) (c.index + 1) c.count 0 valid
              (omega (arith, get_elem?_lt c.targets c.index t e, valid.ten))
              (with_command-Fits t text (All-get_elem? Fits c.targets c.index t valid.fit e)
                (ground arith))
              (ground arith) (omega (arith, current c t valid e h)) (omega arith) valid.bounded
              (λ j hj ne. hj) (omega (arith, current c t valid e h)) (omega arith))
      | inr l ↦ rw (e, h, l, command_line) tt
    ]
  ]
]

-- A target with its dependencies in a fresh entry.
new_target-IsValid :
    (c : Cursor) (i : ℕ) (t t' : Target) (name : Bytes) (ds : List Bytes)
    → IsValid c
    → i ≡ c.count
    → 0 < length name
    → get_elem? c.targets i ≡ some t
    → length name < 64
    → add_dependencies (record t { target_name = name }) ds ≡ some t'
    → IsValid
        (record { targets = set c.targets i t'; index = i; count = c.count + 1; previous = 1 })
new_target-IsValid c i t t' name ds valid at_count h e l e' =
    change-IsValid c i t' i (c.count + 1) 1 valid
      (omega (arith, get_elem?_lt c.targets i t e, valid.ten)) (added.0)
      (subst (λ x. 0 < length x) (sym added.1) h) (omega (arith, at_count)) (omega arith)
      (omega (arith, get_elem?_lt c.targets i t e, valid.ten, at_count))
      (λ j hj ne. before_count c i j at_count hj ne) (omega (arith, at_count)) (omega arith)
  where
    added : Fits t' × (t'.target_name ≡ name)
    added = subst (Holds (λ x. Fits x × (x.target_name ≡ name))) e' (
        add_dependencies-Fits (record t { target_name = name }) ds name
          (with_name-Fits t name (All-get_elem? Fits c.targets i t valid.fit e) l) refl)

pub write_target-IsValid :
    (c : Cursor) (i : ℕ) (name : Bytes) (ds : List Bytes)
    → i ≡ c.count
    → 0 < length name
    → IsValid c
    → LineValid (write_target c i name ds)
unfolding write_target
write_target-IsValid c i name ds at_count h valid = elim (Option-cases (get_elem? c.targets i)) [
  | inl e ↦ rw (e, write_target) tt
  | inr (t, e) ↦ elim (Bool-cases (ltb (length name) 64)) [
    | inl l ↦ elim (Option-cases (add_dependencies (record t { target_name = name }) ds)) [
      | inl e' ↦ rw (e, l, e', write_target) tt
      | inr (t', e') ↦
          rw (e, l, e', write_target)
            (new_target-IsValid c i t t' name ds valid at_count h e (ground arith) e')
    ]
    | inr l ↦ rw (e, l, write_target) tt
  ]
]
