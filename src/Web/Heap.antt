-- ===== src/Web/Heap.antt =====
-- The blocks that `Project 3 - Multithreaded Web Server/server.c` takes from `malloc` and gives to
-- `free`, by their numbers. `malloc` is taken to succeed, as the code does not test it.
use operating_systems.Common.{
  ℕ, zero, suc, true, false, ◌+◌, ◌≤◌, ◌<◌, ◌≡◌, refl, ap, Option, none, some, List, [], ◌∷◌, ◌++◌,
  ◌==◌, if◌then◌else◌, length, arith, set, get_elem?, Bool-cases, inl, inr,
}

-- The number of the next block, and the blocks that are allocated.
pub record Heap : Type 0 where
  pub next : ℕ
  pub live : List ℕ

abbrev pub no_blocks : Heap
no_blocks = record { next = 0; live = [] }

unfoldable pub malloc : Heap → ℕ × Heap
malloc h = (h.next, record { next = h.next + 1; live = h.next ∷ h.live })

unfoldable pub remove : ℕ → List ℕ → Option (List ℕ)
remove p [] = none
remove p (q ∷ qs) = elim (p == q) [
  | true ↦ some qs
  | false ↦ elim (remove p qs) [ none ↦ none | some rest ↦ some (q ∷ rest) ]
]

-- `none`: the block is not allocated, or no longer.
unfoldable pub free : ℕ → Heap → Option Heap
unfolding remove
free p h = elim (remove p h.live) [ none ↦ none | some rest ↦ some (record h { live = rest }) ]

-- A step after a step that may fail.
infixl 5 ◌>>=◌
abbrev pub ◌>>=◌ {ℓ κ} : {A : Type ℓ} {B : Type κ} → Option A → (A → Option B) → Option B
none >>= f = none
some a >>= f = f a

-- How often a block stands in a list.
abbrev pub times : ℕ → List ℕ → ℕ
times q [] = 0
times q (p ∷ ps) = (if q == p then 1 else 0) + times q ps

pub times-append : (q : ℕ) (xs ys : List ℕ) → times q (xs ++ ys) ≡ times q xs + times q ys
times-append q [] ys = omega arith
times-append q (x ∷ xs) ys = omega (arith, times-append q xs ys)

pub times-set :
    (q : ℕ) (ps : List ℕ) (i p old : ℕ)
    → get_elem? ps i ≡ some old
    → times q (old ∷ set ps i p) ≡ times q (p ∷ ps)
times-set q [] i p old e = absurd (cc)
times-set q (x ∷ ps) zero p old e = ground (arith, e)
times-set q (x ∷ ps) (suc i) p old e = omega (arith, times-set q ps i p old e)

remove_lem :
    (p : ℕ) (qs : List ℕ)
    → 0 < times p qs
    → (rest : List ℕ) × (remove p qs ≡ some rest)
      × ((q : ℕ) → times q qs ≡ times q (p ∷ rest))
      × (length qs ≡ suc (length rest))
unfolding remove
remove_lem p [] h = absurd (omega (arith, h))
remove_lem p (q ∷ qs) h = elim (Bool-cases (p == q)) [
  | inl e ↦ (qs, ground arith, (λ r. ground arith), refl)
  | inr e ↦
      let (rest, eq, same, n) = remove_lem p qs (ground arith) in
      (q ∷ rest, ground arith, (λ r. omega (arith, same r)), ap suc n)
]

-- The blocks of `own` are allocated, each as often as it stands there, and `lost` others.
pub record Owns (own : List ℕ) (lost : ℕ) (h : Heap) : Type 0 where
  pub held : (q : ℕ) → times q own ≤ times q h.live
  pub others : length h.live ≡ length own + lost

pub Owns-same :
    (own own' : List ℕ) (lost : ℕ) (h : Heap)
    → Owns own lost h
    → ((q : ℕ) → times q own ≡ times q own')
    → length own ≡ length own'
    → Owns own' lost h
Owns-same own own' lost h o same n = record {
  held = λ q. omega (arith, o.held q, same q);
  others = omega (arith, o.others, n);
}

-- A block that is given up is lost.
pub Owns-tail :
    (own : List ℕ) (p lost : ℕ) (h : Heap) → Owns (p ∷ own) lost h → Owns own (lost + 1) h
Owns-tail own p lost h o = record {
  held = λ q. omega (arith, o.held q);
  others = omega (arith, o.others);
}

pub malloc-Owns :
    (own : List ℕ) (lost : ℕ) (h : Heap)
    → Owns own lost h
    → Owns ((malloc h).0 ∷ own) lost (malloc h).1
unfolding malloc
malloc-Owns own lost h o = record {
  held = λ q. omega (arith, o.held q);
  others = omega (arith, o.others);
}

pub free-Owns :
    (own own' : List ℕ) (lost p : ℕ) (h : Heap)
    → Owns own lost h
    → ((q : ℕ) → times q own ≡ times q (p ∷ own'))
    → length own ≡ suc (length own')
    → (h' : Heap) × (free p h ≡ some h') × Owns own' lost h'
unfolding free
free-Owns own own' lost p h o same n =
    let (rest, eq, same', n') = remove_lem p h.live (ground (arith, o.held p, same p)) in
    (
      record h { live = rest },
      ground arith,
      record {
        held = λ q. omega (arith, o.held q, same q, same' q);
        others = omega (arith, o.others);
      },
    )
