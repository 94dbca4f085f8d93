-- ===== src/Make/Parser/Fuel.antt =====
-- The fuel of `parse`: a round for each byte of the file is enough.
use operating_systems.Common.{
  if◌then◌else◌, ◌==◌, ℕ, zero, suc, ◌≤◌, ◌≡◌, refl, [], ◌∷◌, arith, drop, length,
}
use operating_systems.CText.{Bytes, fgets, fgets_line, until_nul}
use operating_systems.Make.Parser.{
  Cursor, Line, next, fails, overruns, Parse, invalid, overflow, read_line, parse_lines,
}

length-drop_le : (n : ℕ) (s : Bytes) → length (drop n s) ≤ length s
length-drop_le zero s = omega arith
length-drop_le (suc n) [] = omega arith
length-drop_le (suc n) (c ∷ s) = omega (arith, length-drop_le n s)

branch :
    (r : Line) (k k' : Cursor → Parse)
    → ((c : Cursor) → k c ≡ k' c)
    → (elim r [ next c' ↦ k c' | fails ↦ invalid | overruns ↦ overflow ])
      ≡ (elim r [ next c' ↦ k' c' | fails ↦ invalid | overruns ↦ overflow ])
branch (next c) k k' f = f c
branch fails k k' f = refl
branch overruns k k' f = refl

-- More fuel than the file has bytes changes nothing.
pub parse_lines_enough :
    (f g : ℕ) (c : Cursor) (stream : Bytes)
    → length stream ≤ f
    → length stream ≤ g
    → parse_lines f c stream ≡ parse_lines g c stream
unfolding parse_lines fgets fgets_line
parse_lines_enough zero zero c stream h h' = refl
parse_lines_enough zero (suc g) c [] h h' = refl
parse_lines_enough (suc f) zero c [] h h' = refl
parse_lines_enough zero (suc g) c (x ∷ s) h h' = absurd (omega (arith, h))
parse_lines_enough (suc f) zero c (x ∷ s) h h' = absurd (omega (arith, h'))
parse_lines_enough (suc f) (suc g) c [] h h' = refl
parse_lines_enough (suc f) (suc g) c (x ∷ s) h h' =
    branch (read_line c (until_nul (x ∷ tail))) (λ c'. parse_lines f c' (drop (length tail) s))
      (λ c'. parse_lines g c' (drop (length tail) s))
      (λ c'.
        parse_lines_enough f g c' (drop (length tail) s)
          (omega (arith, h, length-drop_le (length tail) s))
          (omega (arith, h', length-drop_le (length tail) s)))
  where
    tail : Bytes
    tail = if x == 10 then [] else fgets_line 1022 s
