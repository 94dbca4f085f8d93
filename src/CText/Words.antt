-- ===== src/CText/Words.antt =====
-- What repeated `strtok` calls yield: the maximal runs of bytes that are no delimiters.
use operating_systems.Common.{
  ℕ, zero, suc, ◌≤◌, ◌<◌, ◌≡◌, refl, sym, ap, ap₂, ◌∙◌, some, Bool, true, false, List, [], ◌∷◌,
  ◌++◌, append-nil, append_assoc, arith, length, Bool-cases, All, All-append, inl, inr, ◌≢◌,
}
use operating_systems.CText.{Bytes, skip, token, after, first_token, strtok, strtok_loop, tokens}

-- A finished word is put in front, unless it is empty.
abbrev pub flush : Bytes → List Bytes → List Bytes
flush [] ws = ws
flush (c ∷ w) ws = (c ∷ w) ∷ ws

-- One pass over the text, with the bytes of the current word.
unfoldable pub words_from : (ℕ → Bool) → Bytes → Bytes → List Bytes
words_from d w [] = flush w []
words_from d w (c ∷ s) = elim (d c) [
  | true ↦ flush w (words_from d [] s)
  | false ↦ words_from d (w ++ c ∷ []) s
]

module _ (d : ℕ → Bool) where
  pub words_from-skip : (s : Bytes) → words_from d [] s ≡ words_from d [] (skip d s)
  unfolding words_from skip
  words_from-skip [] = refl
  words_from-skip (c ∷ s) = ground (arith, words_from-skip s)

  words_from_word :
      (x : ℕ) (w s : Bytes)
      → words_from d (x ∷ w) s ≡ (x ∷ (w ++ token d s)) ∷ words_from d [] (after d s)
  unfolding words_from token after
  words_from_word x w [] = ap (λ t. (x ∷ t) ∷ []) (sym (append-nil w))
  words_from_word x w (c ∷ s) =
      ground (
        arith,
        words_from_word x (w ++ c ∷ []) s,
        append_assoc w (c ∷ []) (token d s),
        append-nil w,
      )

  length-skip : (s : Bytes) → length (skip d s) ≤ length s
  unfolding skip
  length-skip [] = omega arith
  length-skip (c ∷ s) = ground (arith, length-skip s)

  pub length-after : (s : Bytes) → length (after d s) ≤ length s
  unfolding after
  length-after [] = omega arith
  length-after (c ∷ s) = ground (arith, length-after s)

  length-after_cons : (c : ℕ) (s : Bytes) → d c ≡ false → length (after d (c ∷ s)) ≤ length s
  unfolding after
  length-after_cons c s h = ground (arith, length-after s)

  -- `skip` stops at a byte that is no delimiter.
  skip_stops : (s : Bytes) (c : ℕ) (r : Bytes) → skip d s ≡ c ∷ r → d c ≡ false
  unfolding skip
  skip_stops [] c r h = absurd (cc)
  skip_stops (x ∷ s) c r h = ground (arith, skip_stops s c r)

  words_from_cons :
      (c : ℕ) (s : Bytes)
      → d c ≡ false
      → words_from d [] (c ∷ s) ≡ token d (c ∷ s) ∷ words_from d [] (after d (c ∷ s))
  unfolding words_from token after
  words_from_cons c s h = ground (arith, words_from_word c [] s)

  strtok_loop-words :
      (fuel : ℕ) (s r : Bytes)
      → length s < fuel
      → skip d s ≡ r
      → strtok_loop fuel d s ≡ words_from d [] r
  unfolding strtok_loop strtok first_token
  strtok_loop-words zero s r h e = absurd (omega arith)
  strtok_loop-words (suc fuel) s [] h e = rw (e, strtok_loop, strtok) (unfold words_from in refl)
  strtok_loop-words (suc fuel) s (c ∷ r) h e =
      rw (e, strtok_loop, strtok)
        (rw (words_from_cons c r stops) (
          ap (◌∷◌ (token d (c ∷ r)))
            (strtok_loop-words fuel rest (skip d rest) shorter refl ∙ sym (words_from-skip rest))))
    where
      rest : Bytes
      rest = after d (c ∷ r)

      stops : d c ≡ false
      stops = skip_stops s c r e

      shorter : length rest < fuel
      shorter = omega (arith, ap length e, length-skip s, length-after_cons c r stops)

-- Repeated `strtok` yields the words of the text, in order.
pub tokens-words : (d : ℕ → Bool) (s : Bytes) → tokens d s ≡ words_from d [] s
unfolding tokens
tokens-words d s =
    strtok_loop-words d (suc (length s)) s (skip d s) (omega arith) refl ∙ sym (words_from-skip d s)

-- A word: at least one byte, and no delimiter.
abbrev pub IsWord : (ℕ → Bool) → Bytes → Type 0
IsWord d w = (w ≢ []) × All (λ c. d c ≡ false) w

module _ (d : ℕ → Bool) where
  -- The bytes of a word, and then a delimiter, make that word.
  pub words_from-append :
      (w p s : Bytes) → All (λ c. d c ≡ false) p → words_from d w (p ++ s) ≡ words_from d (w ++ p) s
  unfolding words_from
  words_from-append w [] s h = ap (λ v. words_from d v s) (sym (append-nil w))
  words_from-append w (c ∷ p) s h =
      ground (arith, words_from-append (w ++ c ∷ []) p s h.1, append_assoc w (c ∷ []) p)

  flush-All :
      (w : Bytes) (ws : List Bytes)
      → All (λ c. d c ≡ false) w
      → All (IsWord d) ws
      → All (IsWord d) (flush w ws)
  flush-All [] ws h k = k
  flush-All (c ∷ w) ws h k = (((λ e. cc), h), k)

  pub words_from-All : (w s : Bytes) → All (λ c. d c ≡ false) w → All (IsWord d) (words_from d w s)
  unfolding words_from
  words_from-All w [] h = flush-All w [] h tt
  words_from-All w (c ∷ s) h = elim (Bool-cases (d c)) [
    | inl e ↦ rw (e, words_from) (flush-All w _ h (words_from-All [] s tt))
    | inr e ↦
        rw (e, words_from)
          (words_from-All (w ++ c ∷ []) s (All-append (λ c. d c ≡ false) w (c ∷ []) h (e, tt)))
  ]

  pub flush_word : (w : Bytes) (ws : List Bytes) → w ≢ [] → flush w ws ≡ w ∷ ws
  flush_word [] ws h = absurd (h refl)
  flush_word (c ∷ w) ws h = refl

-- Every token is a word.
pub tokens-IsWord : (d : ℕ → Bool) (s : Bytes) → All (IsWord d) (tokens d s)
tokens-IsWord d s = rw (tokens-words d s) (words_from-All d [] s tt)

-- Words with the delimiter `c` between them.
unfoldable pub join : ℕ → List Bytes → Bytes
join c [] = []
join c (w ∷ []) = w
join c (w ∷ v ∷ ws) = w ++ (c ∷ join c (v ∷ ws))

words_from-join :
    (d : ℕ → Bool) (c : ℕ) (ws : List Bytes)
    → d c ≡ true
    → All (IsWord d) ws
    → words_from d [] (join c ws) ≡ ws
unfolding words_from join
words_from-join d c [] h k = refl
words_from-join d c (w ∷ []) h k =
    ap (words_from d []) (sym (append-nil w))
    ∙ words_from-append d [] w [] k.0.1
    ∙ flush_word d w [] k.0.0
words_from-join d c (w ∷ v ∷ ws) h k =
    words_from-append d [] w (c ∷ join c (v ∷ ws)) k.0.1
    ∙ rw (h, words_from)
        (ap (flush w) (words_from-join d c (v ∷ ws) h k.1) ∙ flush_word d w (v ∷ ws) k.0.0)

-- The first word of a text is its first token, and `after` finds what stands behind it.
pub tokens-word :
    (d : ℕ → Bool) (c : ℕ) (w s : Bytes)
    → d c ≡ true
    → IsWord d w
    → tokens d (w ++ c ∷ s) ≡ w ∷ tokens d s
tokens-word d c w s h k =
    tokens-words d (w ++ c ∷ s)
    ∙ words_from-append d [] w (c ∷ s) k.1
    ∙ cut
    ∙ flush_word d w (words_from d [] s) k.0
    ∙ ap (◌∷◌ w) (sym (tokens-words d s))
  where
    cut : words_from d w (c ∷ s) ≡ flush w (words_from d [] s)
    cut = unfold words_from in rw (h, words_from) refl

pub after-word :
    (d : ℕ → Bool) (c : ℕ) (w s : Bytes)
    → d c ≡ true
    → All (λ x. d x ≡ false) w
    → after d (w ++ c ∷ s) ≡ s
unfolding after
after-word d c [] s h k = rw (h, after) refl
after-word d c (x ∷ w) s h k = rw (k.0, after) (after-word d c w s h k.1)

token-word :
    (d : ℕ → Bool) (c : ℕ) (w s : Bytes)
    → d c ≡ true
    → All (λ x. d x ≡ false) w
    → token d (w ++ c ∷ s) ≡ w
unfolding token
token-word d c [] s h k = rw (h, token) refl
token-word d c (x ∷ w) s h k = rw (k.0, token) (ap (◌∷◌ x) (token-word d c w s h k.1))

-- One call of `strtok` cuts off a word.
pub strtok-word :
    (d : ℕ → Bool) (c : ℕ) (w s : Bytes)
    → d c ≡ true
    → IsWord d w
    → strtok d (w ++ c ∷ s) ≡ some (w, s)
unfolding strtok skip first_token
strtok-word d c [] s h k = absurd (k.0 refl)
strtok-word d c (x ∷ w) s h k =
    rw (k.1.0, strtok, skip)
      (ap₂ (λ t r. some (t, r)) (token-word d c (x ∷ w) s h k.1) (after-word d c (x ∷ w) s h k.1))

-- Words joined by a delimiter are the tokens of the joined text.
pub tokens-join :
    (d : ℕ → Bool) (c : ℕ) (ws : List Bytes)
    → d c ≡ true
    → All (IsWord d) ws
    → tokens d (join c ws) ≡ ws
tokens-join d c ws h k = tokens-words d (join c ws) ∙ words_from-join d c ws h k

pub words_from-join_end :
    (d : ℕ → Bool) (c e : ℕ) (ws : List Bytes)
    → d c ≡ true
    → d e ≡ true
    → All (IsWord d) ws
    → words_from d [] (join c ws ++ e ∷ []) ≡ ws
unfolding words_from join
words_from-join_end d c e [] h h' k = rw (h', words_from) refl
words_from-join_end d c e (w ∷ []) h h' k =
    words_from-append d [] w (e ∷ []) k.0.1 ∙ rw (h', words_from) (flush_word d w [] k.0.0)
words_from-join_end d c e (w ∷ v ∷ ws) h h' k =
    ap (words_from d []) (append_assoc w (c ∷ join c (v ∷ ws)) (e ∷ []))
    ∙ words_from-append d [] w (c ∷ (join c (v ∷ ws) ++ e ∷ [])) k.0.1
    ∙ rw (h, words_from)
        (ap (flush w) (words_from-join_end d c e (v ∷ ws) h h' k.1) ∙ flush_word d w (v ∷ ws) k.0.0)
