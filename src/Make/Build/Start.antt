-- ===== src/Make/Build/Start.antt =====
-- `main` of `Project 1 - Makefile/main.c` from the choice of the target to the end of `build`.
use operating_systems.Common.{
  All-get_elem?, ℕ, ◌<◌, ◌≡◌, refl, sym, ◌∙◌, subst, none, some, List, [], get_elem?, Option-cases,
  inl, inr,
}
use operating_systems.CText.{Bytes}
use operating_systems.Make.Target.{unfinished, finished, find_target, Target, zero_target}
use operating_systems.Make.Build.{Os, Ptr, initial, State, deref, build, start, reset}
use operating_systems.Make.Build.Sound.{Sound, Outcome}
use operating_systems.Make.Parser.{parse, counted}
use operating_systems.Make.Parser.Fits.{Fits}
use operating_systems.Make.Parser.Lines.{parse-IsMakefile}
use operating_systems.Make.Build.Once.{unfinished-finished, Ranked, build-Outcome}

module _ (os : Os) (level : Ptr → ℕ) (n : ℕ) where
  abbrev started : List Target → os.World → Target → State os
  started ts w t = record { initial_target = t; targets = reset os n ts; world = w; ran = [] }

  start_found :
      (ts : List Target) (w : os.World) (name : Bytes) (i : ℕ) (t : Target)
      → find_target name ts n ≡ some i
      → get_elem? ts i ≡ some t
      → start os ts n w name ≡ some (started ts w t)
  unfolding start
  start_found ts w name i t f g = rw (f, g, start) refl

  start_outside :
      (ts : List Target) (w : os.World) (name : Bytes) (i : ℕ)
      → find_target name ts n ≡ some i
      → get_elem? ts i ≡ none
      → start os ts n w name ≡ some (started ts w zero_target)
  unfolding start
  start_outside ts w name i f g = rw (f, g, start) refl

  start_missing :
      (ts : List Target) (w : os.World) (name : Bytes)
      → find_target name ts n ≡ none
      → start os ts n w name ≡ none
  unfolding start
  start_missing ts w name f = rw (f, start) refl

  start_none :
      (ts : List Target) (w : os.World) (name : Bytes) (s : State os)
      → start os ts n w name ≡ none
      → start os ts n w name ≡ some s
      → {A : Type 0} → A
  start_none ts w name s a b = absurd (cc)

  start_inj :
      (ts : List Target) (w : os.World) (name : Bytes) (s : State os) (t : Target)
      → start os ts n w name ≡ some (started ts w t)
      → start os ts n w name ≡ some s
      → started ts w t ≡ s
  start_inj ts w name s t a b = cc

  -- `start` copies the target and clears the record of the commands.
  start_shape :
      (ts : List Target) (w : os.World) (name : Bytes) (s : State os)
      → ((i : ℕ) (t : Target) → get_elem? ts i ≡ some t → t.status ≡ unfinished)
      → start os ts n w name ≡ some s
      → (s.initial_target.status ≡ unfinished) × (s.ran ≡ [])
  unfolding start
  start_shape ts w name s clear e = elim (Option-cases (find_target name ts n)) [
    | inl f ↦ start_none ts w name s (start_missing ts w name f) e
    | inr (i, f) ↦ elim (Option-cases (get_elem? ts i)) [
      | inl g ↦
          subst (λ x. (x.initial_target.status ≡ unfinished) × (x.ran ≡ []))
            (start_inj ts w name s zero_target (start_outside ts w name i f g) e)
            (unfold zero_target in refl, refl)
      | inr (t, g) ↦
          subst (λ x. (x.initial_target.status ≡ unfinished) × (x.ran ≡ []))
            (start_inj ts w name s t (start_found ts w name i t f g) e) (clear i t g, refl)
    ]
  ]

  start-Sound :
      (ts : List Target) (w : os.World) (name : Bytes) (s : State os)
      → ((i : ℕ) (t : Target) → get_elem? ts i ≡ some t → t.status ≡ unfinished)
      → start os ts n w name ≡ some s
      → Sound os level s
  start-Sound ts w name s clear e = record {
    done = rw ((start_shape ts w name s clear e).1) tt;
    once = rw ((start_shape ts w name s clear e).1) tt;
  }

  build-start :
      (fuel : ℕ) (ts : List Target) (w : os.World) (name : Bytes) (s : State os)
      → ((i : ℕ) (t : Target) → get_elem? ts i ≡ some t → t.status ≡ unfinished)
      → start os ts n w name ≡ some s
      → Ranked os level n s
      → level initial < fuel
      → Outcome os level (λ st. st ≡ finished) initial s (build os fuel n initial s)
  unfolding deref
  build-start fuel ts w name s clear e ranked l =
      build-Outcome os level n fuel initial s ranked tt (start-Sound ts w name s clear e)
        (λ e'. unfinished-finished (sym (start_shape ts w name s clear e).0 ∙ e')) l

  -- For a file that `parse` accepts with `n` targets, whose dependencies have no cycle, and fuel above
  -- the level of the chosen target: `build` returns, no command runs twice, and if it returns 0 the
  -- chosen target and every target whose command ran are FINISHED.
  pub build-parse :
      (fuel : ℕ) (stream : Bytes) (ts : List Target) (w : os.World) (name : Bytes) (s : State os)
      → parse (some stream) ≡ counted n ts
      → start os ts n w name ≡ some s
      → Ranked os level n s
      → level initial < fuel
      → Outcome os level (λ st. st ≡ finished) initial s (build os fuel n initial s)
  build-parse fuel stream ts w name s parsed e ranked l =
      build-start fuel ts w name s
        (λ i t found.
          (All-get_elem? Fits ts i t (parse-IsMakefile stream n ts parsed).all_fit found).clear)
        e ranked l
