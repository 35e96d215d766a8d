-- ===== src/Exclusion/Regions/Unlinking.antt =====
-- Taking a region out of the list of libs/libkrgcheckpoint/libkrgcheckpoint.c.
use kerrighed_tools.Base.{
  ℕ, zero, suc, ◌≡◌, refl, ap, ◌∙◌, ◌<◌, inl, inr, true, false, some, List, [], ◌∷◌, length, ◌==◌,
  arith, Bool-cases, if◌then◌else◌,
}
use kerrighed_tools.Exclusion.Regions.{Region, Store, put, busy, walk}
use kerrighed_tools.Exclusion.Regions.Chain.{among, Distinct, IsChain, addrs, IsChain-put}

-- A list without the first occurrence of an address.
abbrev pub without : ℕ → List ℕ → List ℕ
without a [] = []
without a (b ∷ bs) = if b == a then bs else b ∷ without a bs

-- The elements of a chain without the first one with the address.
abbrev pub unlinked : Store → ℕ → List ℕ → List ℕ
unlinked store a [] = []
unlinked store a (p ∷ ps) = if (store p).addr == a then ps else p ∷ unlinked store a ps

pub addrs-unlinked :
    (store : Store) (a : ℕ) (ps : List ℕ)
    → addrs store (unlinked store a ps) ≡ without a (addrs store ps)
addrs-unlinked store a [] = refl
addrs-unlinked store a (p ∷ ps) = elim (Bool-cases ((store p).addr == a)) [
  | inl t ↦ rw t refl
  | inr t ↦ rw t (ap (λ l. (store p).addr ∷ l) (addrs-unlinked store a ps))
]

among-unlinked :
    (store : Store) (a q : ℕ) (ps : List ℕ)
    → among q ps ≡ false
    → among q (unlinked store a ps) ≡ false
among-unlinked store a q [] h = refl
among-unlinked store a q (p ∷ ps) h = elim (Bool-cases ((store p).addr == a)) [
  | inl t ↦ rw t (ground arith)
  | inr t ↦ let ih = among-unlinked store a q ps (ground arith) in rw t (ground arith)
]

pub Distinct-unlinked :
    (store : Store) (a : ℕ) (ps : List ℕ) → Distinct ps → Distinct (unlinked store a ps)
Distinct-unlinked store a [] d = tt
Distinct-unlinked store a (p ∷ ps) (d₁, d) = elim (Bool-cases ((store p).addr == a)) [
  | inl t ↦ rw t d
  | inr t ↦ rw t (among-unlinked store a p ps d₁, Distinct-unlinked store a ps d)
]

-- `element` is taken out behind `prev`.
abbrev pub bridged : Store → ℕ → ℕ → Store
bridged store prev element = put store prev (record (store prev) { next = (store element).next })

-- The walk from behind `prev` finds the address, and taking that element out leaves the chain
-- without it.
abbrev pub Unlinks : ℕ → Store → ℕ → ℕ → ℕ → ℕ → List ℕ → Type 0
Unlinks fuel store addr a prev p ps =
    (prev' : ℕ) × (element : ℕ) × (walk fuel store addr prev p ≡ some (busy prev' element))
    × ((prev' == 0) ≡ false)
    × (among prev' (prev ∷ p ∷ ps) ≡ true)
    × IsChain (bridged store prev' element) a (prev ∷ unlinked store addr (p ∷ ps))

Unlinks-here :
    (fuel : ℕ) (store : Store) (addr a prev p : ℕ) (ps : List ℕ)
    → IsChain store a (prev ∷ p ∷ ps)
    → among prev (p ∷ ps) ≡ false
    → ((store p).addr == addr) ≡ true
    → Unlinks (suc fuel) store addr a prev p ps
unfolding walk
Unlinks-here fuel store addr a prev p ps (e, nonzero, c) new here =
    let same : (prev == prev) ≡ true = ground arith in
    let r : Region = record (store prev) { next = (store p).next } in
    (
      prev,
      p,
      rw here refl,
      nonzero,
      ground arith,
      (e, nonzero, rw (here, same) (IsChain-put store prev r (store p).next ps (ground arith) c.2)),
    )

-- The link before an element of the rest is not the one at hand.
other_link :
    (prev prev' : ℕ) (ps : List ℕ)
    → among prev ps ≡ false
    → among prev' ps ≡ true
    → (prev' == prev) ≡ false
other_link prev prev' [] new one = absurd (cc)
other_link prev prev' (p ∷ ps) new one = elim (Bool-cases (among prev' ps)) [
  | inl t ↦ other_link prev prev' ps (ground arith) t
  | inr f ↦ ground arith
]

pub walk_further :
    (fuel : ℕ) (store : Store) (addr prev p q : ℕ)
    → ((store p).addr == addr) ≡ false
    → (store p).next ≡ q
    → (q == 0) ≡ false
    → walk (suc fuel) store addr prev p ≡ walk fuel store addr p q
unfolding walk
walk_further fuel store addr prev p q elsewhere next more = rw (elsewhere, next, more) refl

pub walk_here :
    (fuel : ℕ) (store : Store) (addr prev p : ℕ)
    → ((store p).addr == addr) ≡ true
    → walk (suc fuel) store addr prev p ≡ some (busy prev p)
unfolding walk
walk_here fuel store addr prev p here = rw here refl

pub walk-busy :
    (fuel : ℕ) (store : Store) (addr a prev p : ℕ) (ps : List ℕ)
    → length ps < fuel
    → IsChain store a (prev ∷ p ∷ ps)
    → Distinct (prev ∷ p ∷ ps)
    → among addr (addrs store (p ∷ ps)) ≡ true
    → Unlinks fuel store addr a prev p ps
walk-busy zero store addr a prev p ps h c d found = absurd (omega arith)
walk-busy (suc fuel) store addr a prev p [] h c d found =
    Unlinks-here fuel store addr a prev p [] c d.0 (ground arith)
walk-busy (suc fuel) store addr a prev p (q ∷ ps) h (e, nonzero, c) (d₁, d) found =
    elim (Bool-cases ((store p).addr == addr)) [
      | inl here ↦ Unlinks-here fuel store addr a prev p (q ∷ ps) (e, nonzero, c) d₁ here
      | inr elsewhere ↦
          let (prev', element, walked, nonzero', one, c') =
            walk-busy fuel store addr (store prev).next p q ps (omega arith) c d (ground arith) in
          let other : (prev' == prev) ≡ false = other_link prev prev' (p ∷ q ∷ ps) d₁ one in
          let step = walk_further fuel store addr prev p q elsewhere c.2.0 c.2.1 in
          (
            prev',
            element,
            step ∙ walked,
            nonzero',
            ground arith,
            (e, nonzero, rw (other, elsewhere) c'),
          )
    ]
