-- ===== src/Make/Parser/Fits.antt =====
-- The texts of `target_t` of `Project 1 - Makefile/util.h`, in their arrays.
use operating_systems.Common.{
  ◌+◌, ◌≤◌, ◌<◌, ◌≡◌, refl, ◌∙◌, true, ◌&&◌, Option, none, some, List, [], ◌∷◌, ltb, set, length,
  arith, All, All-set, length-set, Bool-cases, inl, inr,
}
use operating_systems.CText.{Bytes}
use operating_systems.Make.Target.{Target, unfinished, zero_target}
use operating_systems.Make.Parser.{add_dependencies}

-- Every text fits its array, with the NUL, and the target has not been built.
pub record Fits (t : Target) : Type 0 where
  pub name_fits : length t.target_name < 64
  pub count_fits : t.dependency_count ≤ 10
  pub rows : length t.dependency_names ≡ 10
  pub rows_fit : All (λ d. length d < 64) t.dependency_names
  pub command_fits : length t.command < 256
  pub clear : t.status ≡ unfinished

pub zero_target-Fits : Fits zero_target
unfolding zero_target
zero_target-Fits = record {
  name_fits = omega arith;
  count_fits = omega arith;
  rows = refl;
  rows_fit = (
    omega arith,
    (
      omega arith,
      (
        omega arith,
        (
          omega arith,
          (
            omega arith,
            (omega arith, (omega arith, (omega arith, (omega arith, (omega arith, tt))))),
          ),
        ),
      ),
    ),
  );
  command_fits = omega arith;
  clear = refl;
}

abbrev pub Holds : (Target → Type 0) → Option Target → Type 0
Holds Q none = Unit
Holds Q (some t) = Q t

pub add_dependencies-Fits :
    (t : Target) (ds : List Bytes) (name : Bytes)
    → Fits t
    → t.target_name ≡ name
    → Holds (λ t'. Fits t' × (t'.target_name ≡ name)) (add_dependencies t ds)
unfolding add_dependencies
add_dependencies-Fits t [] name fits e = (fits, e)
add_dependencies-Fits t (d ∷ ds) name fits e =
    elim (Bool-cases (ltb t.dependency_count 10 && ltb (length d) 64)) [
      | inl h ↦
          rw (h, add_dependencies)
            (add_dependencies-Fits
              (record t {
                dependency_names = set t.dependency_names t.dependency_count d;
                dependency_count = t.dependency_count + 1;
              })
              ds name (row_added t d fits h) e)
      | inr h ↦ rw (h, add_dependencies) tt
    ]
  where
    row_added :
        (u : Target) (x : Bytes)
        → Fits u
        → (ltb u.dependency_count 10 && ltb (length x) 64) ≡ true
        → Fits (record u {
          dependency_names = set u.dependency_names u.dependency_count x;
          dependency_count = u.dependency_count + 1;
        })
    row_added u x f h = record {
      name_fits = f.name_fits;
      count_fits = ground arith;
      rows = length-set u.dependency_names u.dependency_count x ∙ f.rows;
      rows_fit =
          All-set (λ y. length y < 64) u.dependency_names u.dependency_count x f.rows_fit
            (ground arith);
      command_fits = f.command_fits;
      clear = f.clear;
    }

pub with_command-Fits :
    (t : Target) (text : Bytes) → Fits t → length text < 256 → Fits (record t { command = text })
with_command-Fits t text f h = record {
  name_fits = f.name_fits;
  count_fits = f.count_fits;
  rows = f.rows;
  rows_fit = f.rows_fit;
  command_fits = h;
  clear = f.clear;
}

pub with_name-Fits :
    (t : Target) (name : Bytes) → Fits t → length name < 64 → Fits (record t { target_name = name })
with_name-Fits t name f h = record {
  name_fits = h;
  count_fits = f.count_fits;
  rows = f.rows;
  rows_fit = f.rows_fit;
  command_fits = f.command_fits;
  clear = f.clear;
}
