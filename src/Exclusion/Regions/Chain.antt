-- ===== src/Exclusion/Regions/Chain.antt =====
-- The excluded regions of libs/libkrgcheckpoint/libkrgcheckpoint.c as a list in the store.
use kerrighed_tools.Base.{
  ℕ, zero, suc, ◌≡◌, refl, ap, ◌<◌, inl, inr, Bool, true, false, ◌||◌, some, List, [], ◌∷◌, ◌++◌,
  map, length, ◌==◌, ==_iff, arith, Bool-cases,
}
use kerrighed_tools.Exclusion.Regions.{Region, Store, put, Regions, last, walk}

-- Membership.
abbrev pub among : ℕ → List ℕ → Bool
among q [] = false
among q (p ∷ ps) = p == q || among q ps

abbrev pub Distinct : List ℕ → Type 0
Distinct [] = Unit
Distinct (p ∷ ps) = (among p ps ≡ false) × Distinct ps

-- The elements from `a` on, up to the NULL.
abbrev pub IsChain : Store → ℕ → List ℕ → Type 0
IsChain store a [] = a ≡ 0
IsChain store a (p ∷ ps) = (a ≡ p) × ((p == 0) ≡ false) × IsChain store (store p).next ps

abbrev pub addrs : Store → List ℕ → List ℕ
addrs store ps = map (λ p. (store p).addr) ps

-- The last of a list with a first element.
abbrev pub final : ℕ → List ℕ → ℕ
final p [] = p
final p (q ∷ ps) = final q ps

-- What stands at other addresses does not matter.
pub IsChain-put :
    (store : Store) (q : ℕ) (r : Region) (a : ℕ) (ps : List ℕ)
    → among q ps ≡ false
    → IsChain store a ps
    → IsChain (put store q r) a ps
IsChain-put store q r a [] h c = c
IsChain-put store q r a (p ∷ ps) h (e, nonzero, c) =
    let other : (q == p) ≡ false = ground arith in
    (e, nonzero, rw other (IsChain-put store q r (store p).next ps (ground arith) c))

pub addrs-put :
    (store : Store) (q : ℕ) (r : Region) (ps : List ℕ)
    → among q ps ≡ false
    → addrs (put store q r) ps ≡ addrs store ps
addrs-put store q r [] h = refl
addrs-put store q r (p ∷ ps) h =
    let other : (q == p) ≡ false = ground arith in
    rw other (ap (λ l. (store p).addr ∷ l) (addrs-put store q r ps (ground arith)))

-- The walk over a chain without the address ends at the last element.
pub walk-last :
    (fuel : ℕ) (store : Store) (addr prev p : ℕ) (ps : List ℕ)
    → length ps < fuel
    → IsChain store p (p ∷ ps)
    → among addr (addrs store (p ∷ ps)) ≡ false
    → (prev' : ℕ) × (walk fuel store addr prev p ≡ some (last prev' (final p ps)))
unfolding walk
walk-last zero store addr prev p ps h c free = absurd (omega arith)
walk-last (suc fuel) store addr prev p [] h (e, nonzero, c) free =
    (prev, let here : ((store p).addr == addr) ≡ false = ground arith in rw (here, c) refl)
walk-last (suc fuel) store addr prev p (q ∷ ps) h (e, nonzero, c) free =
    let here : ((store p).addr == addr) ≡ false = ground arith in
    let (prev', ih) =
      walk-last fuel store addr p q ps (omega arith) (refl, c.1, c.2) (ground arith) in
    (prev', let next = c.0 in let more : (q == 0) ≡ false = c.1 in rw (here, next, more) ih)

final_other : (x q : ℕ) (ps : List ℕ) → among x (q ∷ ps) ≡ false → (final q ps == x) ≡ false
final_other x q [] h = ground arith
final_other x q (r ∷ ps) h = final_other x r ps (ground arith)

-- A new element behind the last.
pub append-IsChain :
    (store : Store) (n a p : ℕ) (ps : List ℕ)
    → IsChain store a (p ∷ ps)
    → Distinct (p ∷ ps)
    → (n == 0) ≡ false
    → among n (p ∷ ps) ≡ false
    → (store n).next ≡ 0
    → IsChain
        (put store (final p ps) (record (store (final p ps)) { next = n }))
        a
        ((p ∷ ps) ++ (n ∷ []))
append-IsChain store n a p [] (e, nonzero, c) d n_nonzero new end =
    let same : (p == p) ≡ true = ground arith in
    let other : (p == n) ≡ false = ground arith in
    (e, nonzero, rw (same, other) (refl, n_nonzero, end))
append-IsChain store n a p (q ∷ ps) (e, nonzero, c) (d₁, d) n_nonzero new end =
    let other = final_other p q ps d₁ in
    (
      e,
      nonzero,
      rw other (append-IsChain store n (store p).next q ps c d n_nonzero (ground arith) end),
    )

-- It keeps the addresses of the regions.
pub addrs-link :
    (store : Store) (e n : ℕ) (ps : List ℕ)
    → addrs (put store e (record (store e) { next = n })) ps ≡ addrs store ps
addrs-link store e n [] = refl
addrs-link store e n (p ∷ ps) = elim (Bool-cases (e == p)) [
  | inl t ↦ rw (t, addrs-link store e n ps, (==_iff e p).0 t) refl
  | inr t ↦ rw (t, addrs-link store e n ps) refl
]

pub addrs-append :
    (store : Store) (ps : List ℕ) (n : ℕ)
    → addrs store (ps ++ (n ∷ [])) ≡ addrs store ps ++ ((store n).addr ∷ [])
addrs-append store [] n = refl
addrs-append store (p ∷ ps) n = ap (λ l. (store p).addr ∷ l) (addrs-append store ps n)

among-append :
    (q n : ℕ) (ps : List ℕ)
    → (n == q) ≡ false
    → among q ps ≡ false
    → among q (ps ++ (n ∷ [])) ≡ false
among-append q n [] h g = ground arith
among-append q n (p ∷ ps) h g = ground (arith, among-append q n ps h)

pub Distinct-append :
    (n : ℕ) (ps : List ℕ) → Distinct ps → among n ps ≡ false → Distinct (ps ++ (n ∷ []))
Distinct-append n [] d new = (refl, tt)
Distinct-append n (p ∷ ps) (d₁, d) new =
    (among-append p n ps (ground arith) d₁, Distinct-append n ps d (ground arith))

-- The list of the excluded regions: its elements, all distinct, and their addresses.
pub record IsList (s : Regions) (ps excluded : List ℕ) : Type 0 where
  pub chain : IsChain s.store s.first ps
  pub distinct : Distinct ps
  pub data_addrs : addrs s.store ps ≡ excluded
