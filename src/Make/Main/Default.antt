-- ===== src/Make/Main/Default.antt =====
-- `main` of `Project 1 - Makefile/main.c` with no arguments.
use operating_systems.Common.{
  ℕ, zero, suc, ◌≡◌, refl, Option, some, List, [], ◌∷◌, length, get_elem?, arith,
}
use operating_systems.CText.{Bytes, codes, str_eq_refl}
use operating_systems.Make.Target.{Target, find_from, find_target}
use operating_systems.Make.Parser.{parse, counted}
use operating_systems.Make.Parser.Lines.{parse-IsMakefile}
use operating_systems.Make.Build.{Os, initial, start, build}
use operating_systems.Make.Main.{
  read_options, choose_target, MainResult, wild, ended, run_target, run_parsed, run_args, main,
}
use operating_systems.Make.Main.Ends.{started}

module _ (os : Os) where
  -- The run builds the first target, or there is none.
  abbrev pub BuildsFirst : ℕ → ℕ → List Target → os.World → MainResult os → Type 0
  BuildsFirst fuel zero ts w r = r ≡ wild
  BuildsFirst fuel (suc n) ts w r =
      (t : Target) × (get_elem? ts 0 ≡ some t)
      × (r ≡ ended (build os fuel (suc n) initial (started os (suc n) ts w t)))

  parsed-BuildsFirst :
      (fuel n : ℕ) (ts : List Target) (w : os.World)
      → length ts ≡ 10
      → BuildsFirst fuel n ts w (run_parsed os fuel (counted n ts) [] w)
  unfolding run_parsed choose_target run_target start find_target find_from
  parsed-BuildsFirst fuel n [] w ten = absurd (omega (arith, ten))
  parsed-BuildsFirst fuel zero (t ∷ ts) w ten = refl
  parsed-BuildsFirst fuel (suc n) (t ∷ ts) w ten = (t, refl, run)
    where
      found : find_target t.target_name (t ∷ ts) (suc n) ≡ some 0
      found = unfold find_target find_from in rw (str_eq_refl t.target_name) refl

      begun : start os (t ∷ ts) (suc n) w t.target_name ≡ some (started os (suc n) (t ∷ ts) w t)
      begun = unfold start in rw (found, start) refl

      run :
          run_target os fuel (suc n) (t ∷ ts) w t.target_name
          ≡ ended (build os fuel (suc n) initial (started os (suc n) (t ∷ ts) w t))
      run = rw (begun, run_target) refl

  -- Without options and arguments, and where the file Makefile is one that `parse` accepts: `main`
  -- builds its first target, or, if the file has none, reads `targets[-1]`.
  pub main-BuildsFirst :
      (fuel n : ℕ) (content : Bytes → Option Bytes) (stream : Bytes) (ts : List Target)
      (w : os.World)
      → content (codes "Makefile") ≡ some stream
      → parse (some stream) ≡ counted n ts
      → BuildsFirst fuel n ts w (main os fuel content [] [] w)
  unfolding main read_options run_args
  main-BuildsFirst fuel n content stream ts w e f =
      rw (e, f) (parsed-BuildsFirst fuel n ts w (parse-IsMakefile stream n ts f).array)
