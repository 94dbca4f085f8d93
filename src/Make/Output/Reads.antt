-- ===== src/Make/Output/Reads.antt =====
-- What `show_targets` of `Project 1 - Makefile/main.c` reads.
use operating_systems.Common.{
  ℕ, zero, suc, ◌≤◌, ◌≡◌, Option, none, some, List, [], ◌∷◌, ◌++◌, length, arith, All,
}
use operating_systems.CText.{Bytes}
use operating_systems.Make.Target.{Target}
use operating_systems.Make.Parser.{parse, counted}
use operating_systems.Make.Parser.Fits.{Fits}
use operating_systems.Make.Parser.Lines.{parse-IsMakefile}
use operating_systems.Make.Output.{dependency_names_text, shown_names, shown_target, show_targets}

-- The text is made without a read outside of an array.
abbrev pub Shown : Option Bytes → Type 0
Shown none = ⊥
Shown (some text) = Unit

more-Shown :
    (o : Option Bytes) (f : Bytes → Bytes)
    → Shown o
    → Shown (elim o [ none ↦ none | some text ↦ some (f text) ])
more-Shown none f h = h
more-Shown (some text) f h = tt

both-Shown :
    (o r : Option Bytes) (f : Bytes → Bytes → Bytes)
    → Shown o
    → Shown r
    → Shown (elim o [
      | none ↦ none
      | some text ↦ elim r [ none ↦ none | some rest ↦ some (f text rest) ]
    ])
both-Shown none r f h k = h
both-Shown (some text) none f h k = k
both-Shown (some text) (some rest) f h k = tt

names-Shown : (n : ℕ) (ds : List Bytes) → n ≤ length ds → Shown (dependency_names_text n ds)
unfolding dependency_names_text
names-Shown zero ds h = tt
names-Shown (suc n) [] h = absurd (omega (arith, h))
names-Shown (suc n) (d ∷ ds) h =
    more-Shown (dependency_names_text n ds) (λ rest. _) (names-Shown n ds (omega (arith, h)))

target-Shown : (t : Target) → Fits t → Shown (shown_target t)
unfolding shown_target shown_names
target-Shown t h =
    more-Shown (shown_names t) (λ names. _)
      (more-Shown (dependency_names_text t.dependency_count t.dependency_names) (λ names. _)
        (names-Shown t.dependency_count t.dependency_names (omega (arith, h.count_fits, h.rows))))

targets-Shown : (n : ℕ) (ts : List Target) → n ≤ length ts → All Fits ts → Shown (show_targets n ts)
unfolding show_targets
targets-Shown zero ts h k = tt
targets-Shown (suc n) [] h k = absurd (omega (arith, h))
targets-Shown (suc n) (t ∷ ts) h k =
    both-Shown (shown_target t) (show_targets n ts) (λ text rest. text ++ rest) (target-Shown t k.0)
      (targets-Shown n ts (omega (arith, h)) k.1)

-- Of a makefile that `parse` accepts, `show_targets` reads nothing outside of the arrays.
pub show_targets-Shown :
    (stream : Bytes) (n : ℕ) (ts : List Target)
    → parse (some stream) ≡ counted n ts
    → Shown (show_targets n ts)
show_targets-Shown stream n ts e =
    let m = parse-IsMakefile stream n ts e in
    targets-Shown n ts (omega (arith, m.at_most, m.array)) m.all_fit
