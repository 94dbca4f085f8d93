-- ===== src/Make/Main/Ends.antt =====
-- In `main` of `Project 1 - Makefile/main.c`, `build` does not stop for want of fuel.
use operating_systems.Common.{
  ℕ, zero, suc, ◌<◌, ◌≡◌, ◌≢◌, refl, ◌∙◌, sym, ap, Option, none, some, List, [], ◌∷◌, length,
  get_elem?, arith, Option-cases, inl, inr,
}
use operating_systems.CText.{Bytes, codes}
use operating_systems.Make.Target.{Target, zero_target, find_target}
use operating_systems.Make.Parser.{parse, Parse, counted, invalid, no_file, overflow}
use operating_systems.Make.Parser.Lines.{ParseValid, parse-ParseValid}
use operating_systems.Make.Build.{Os, State, out_of_fuel, initial, start, reset}
use operating_systems.Make.Build.Returns.{build_returns}
use operating_systems.Make.Main.{
  Opt, Options, makefile, usage, too_long, read_options, choose_target, MainResult, shown_usage,
  not_parsed, overran, wild, ended, run_target, run_parsed, run_args, main,
}

module _ (os : Os) where
  length-reset : (n : ℕ) (ts : List Target) → length (reset os n ts) ≡ length ts
  unfolding reset
  length-reset zero ts = refl
  length-reset (suc n) [] = refl
  length-reset (suc n) (t ∷ ts) = ap suc (length-reset n ts)

  abbrev pub started : ℕ → List Target → os.World → Target → State os
  started n ts w t = record { initial_target = t; targets = reset os n ts; world = w; ran = [] }

  pub start-length :
      (ts : List Target) (n : ℕ) (w : os.World) (name : Bytes) (s : State os)
      → start os ts n w name ≡ some s
      → length s.targets ≡ length ts
  unfolding start
  start-length ts n w name s e = elim (Option-cases (find_target name ts n)) [
    | inl f ↦ missing (rw (f, start) refl)
    | inr (i, f) ↦ elim (Option-cases (get_elem? ts i)) [
      | inl g ↦ counted_as zero_target (rw (f, g, start) refl)
      | inr (t, g) ↦ counted_as t (rw (f, g, start) refl)
    ]
  ]
    where
      missing : start os ts n w name ≡ none → length s.targets ≡ length ts
      missing f = absurd (cc)

      counted_as :
          (t : Target)
          → start os ts n w name ≡ some (started n ts w t)
          → length s.targets ≡ length ts
      counted_as t f = ap (λ x. length x.targets) (sym same) ∙ length-reset n ts
        where
          same : started n ts w t ≡ s
          same = cc

  -- The run does not stop for want of fuel.
  abbrev Ends : MainResult os → Type 0
  Ends shown_usage = Unit
  Ends not_parsed = Unit
  Ends overran = Unit
  Ends wild = Unit
  Ends (ended r) = r ≢ out_of_fuel

  run_target-Ends :
      (fuel n : ℕ) (ts : List Target) (w : os.World) (name : Bytes)
      → length ts ≡ 10
      → 23 < fuel
      → Ends (run_target os fuel n ts w name)
  unfolding run_target
  run_target-Ends fuel n ts w name ten h = elim (Option-cases (start os ts n w name)) [
    | inl e ↦ rw (e, run_target) tt
    | inr (s, e) ↦
        rw (e, run_target)
          (build_returns os fuel n initial s tt
            (omega (arith, h, start-length ts n w name s e, ten)))
  ]

  run_parsed-Ends :
      (fuel : ℕ) (p : Parse) (args : List Bytes) (w : os.World)
      → ParseValid p
      → 23 < fuel
      → Ends (run_parsed os fuel p args w)
  unfolding run_parsed
  run_parsed-Ends fuel no_file args w valid h = tt
  run_parsed-Ends fuel invalid args w valid h = tt
  run_parsed-Ends fuel overflow args w valid h = tt
  run_parsed-Ends fuel (counted n ts) args w valid h = elim (Option-cases (choose_target args ts)) [
    | inl e ↦ rw (e, run_parsed) tt
    | inr (name, e) ↦ rw (e, run_parsed) (run_target-Ends fuel n ts w name valid.array h)
  ]

  run_args-Ends :
      (fuel : ℕ) (content : Option Bytes) (args : List Bytes) (w : os.World)
      → 23 < fuel
      → Ends (run_args os fuel content args w)
  unfolding run_args
  run_args-Ends fuel content [] w h =
      run_parsed-Ends fuel (parse content) [] w (parse-ParseValid content) h
  run_args-Ends fuel content (arg ∷ []) w h =
      run_parsed-Ends fuel (parse content) (arg ∷ []) w (parse-ParseValid content) h
  run_args-Ends fuel content (arg ∷ other ∷ args) w h = tt

  -- For any files, options, arguments and makefile, with cycles among the dependencies or without: with
  -- a depth of 24 no outcome of `main` is that `build` ran out of fuel.
  main-Ends :
      (fuel : ℕ) (content : Bytes → Option Bytes) (opts : List Opt) (args : List Bytes)
      (w : os.World)
      → 23 < fuel
      → Ends (main os fuel content opts args w)
  unfolding main
  main-Ends fuel content opts args w h = ended_by (read_options (codes "Makefile") opts)
    where
      ended_by :
          (o : Options)
          → Ends (elim o [
            | usage ↦ shown_usage
            | too_long ↦ overran
            | makefile name ↦ run_args os fuel (content name) args w
          ])
      ended_by usage = tt
      ended_by too_long = tt
      ended_by (makefile name) = run_args-Ends fuel (content name) args w h
