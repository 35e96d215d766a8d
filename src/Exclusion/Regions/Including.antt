-- ===== src/Exclusion/Regions/Including.antt =====
-- What `cr_exclude_off` of libs/libkrgcheckpoint/libkrgcheckpoint.c makes of the list of regions.
use mathlib.Core.Path.{subst}
use kerrighed_tools.Base.{
  ℕ, zero, suc, ◌≡◌, refl, sym, ap, ◌∙◌, ◌<◌, inl, inr, Bool, true, false, some, List, [], ◌∷◌,
  length, pos, minus_one, ◌==◌, arith, Bool-cases, if◌then◌else◌,
}
use kerrighed_tools.Exclusion.Regions.{
  Store, Regions, Walked, busy, last, walk, taken_out, cr_exclude_off,
}
use kerrighed_tools.Exclusion.Regions.Chain.{
  among, Distinct, IsChain, addrs, final, walk-last, addrs-link, IsList,
}
use kerrighed_tools.Exclusion.Regions.Unlinking.{
  without, unlinked, bridged, addrs-unlinked, Distinct-unlinked, walk_further, walk_here, walk-busy,
}

-- What a removal leaves.
abbrev Off : ℕ → ℕ → Regions → List ℕ → Type 0
Off fuel data_addr s ps =
    (s' : Regions) × (cr_exclude_off fuel data_addr s
      ≡ some (if among data_addr (addrs s.store ps) then pos 0 else minus_one, s'))
    × IsChain s'.store s'.first (unlinked s.store data_addr ps)
    × ((qs : List ℕ) → addrs s'.store qs ≡ addrs s.store qs)

off_walked :
    (fuel data_addr : ℕ) (s : Regions) (p : ℕ) (found : Walked)
    → s.first ≡ p
    → (p == 0) ≡ false
    → walk fuel s.store data_addr 0 p ≡ some found
    → cr_exclude_off fuel data_addr s ≡ taken_out s (some found)
unfolding cr_exclude_off
off_walked fuel data_addr s p found e nonzero walked =
    let some_first : (s.first == 0) ≡ false = ground arith in
    rw some_first
      (ap (λ q. taken_out s (walk fuel s.store data_addr 0 q)) e ∙ ap (taken_out s) walked)

unlinked_absent :
    (store : Store) (a : ℕ) (ps : List ℕ)
    → among a (addrs store ps) ≡ false
    → unlinked store a ps ≡ ps
unlinked_absent store a [] h = refl
unlinked_absent store a (p ∷ ps) h =
    let elsewhere : ((store p).addr == a) ≡ false = ground arith in
    rw elsewhere (ap (λ l. p ∷ l) (unlinked_absent store a ps (ground arith)))

Off-absent :
    (fuel data_addr : ℕ) (s : Regions) (p : ℕ) (ps : List ℕ)
    → IsChain s.store s.first (p ∷ ps)
    → length ps < fuel
    → among data_addr (addrs s.store (p ∷ ps)) ≡ false
    → Off fuel data_addr s (p ∷ ps)
unfolding taken_out
Off-absent fuel data_addr s p ps (e, nonzero, c) h free =
    let (prev, walked) = walk-last fuel s.store data_addr 0 p ps h (refl, nonzero, c) free in
    let same = unlinked_absent s.store data_addr (p ∷ ps) free in
    (
      s,
      off_walked fuel data_addr s p (last prev (final p ps)) e nonzero walked
          ∙ ap (λ (b : Bool). some (if b then pos 0 else minus_one, s)) (sym free),
      subst (IsChain s.store s.first) (sym same) (e, nonzero, c),
      λ qs. refl,
    )

-- The region with the address stands behind the first one.
Off-behind :
    (fuel data_addr : ℕ) (s : Regions) (p q : ℕ) (ps : List ℕ)
    → IsChain s.store s.first (p ∷ q ∷ ps)
    → Distinct (p ∷ q ∷ ps)
    → length ps < fuel
    → among data_addr (addrs s.store (q ∷ ps)) ≡ true
    → ((s.store p).addr == data_addr) ≡ false
    → Off (suc fuel) data_addr s (p ∷ q ∷ ps)
unfolding taken_out
Off-behind fuel data_addr s p q ps (e, nonzero, c) d h there elsewhere =
    let (prev, element, walked, nonzero', one, c') =
      walk-busy fuel s.store data_addr s.first p q ps h (e, nonzero, c) d there in
    let step = walk_further fuel s.store data_addr 0 p q elsewhere c.0 c.1 ∙ walked in
    let all : among data_addr (addrs s.store (p ∷ q ∷ ps)) ≡ true = ground arith in
    (
      record s { store = bridged s.store prev element },
      off_walked (suc fuel) data_addr s p (busy prev element) e nonzero step
          ∙ ap
              (λ (b : Bool). some (
                pos 0,
                if b
                    then record s { first = (s.store element).next }
                    else record s { store = bridged s.store prev element },
              ))
              nonzero'
          ∙ ap
              (λ (b : Bool).
                some (
                  if b then pos 0 else minus_one,
                  record s { store = bridged s.store prev element },
                ))
              (sym all),
      rw elsewhere c',
      addrs-link s.store prev (s.store element).next,
    )

Off-present :
    (fuel data_addr : ℕ) (s : Regions) (p : ℕ) (ps : List ℕ)
    → IsChain s.store s.first (p ∷ ps)
    → Distinct (p ∷ ps)
    → length ps < suc fuel
    → among data_addr (addrs s.store (p ∷ ps)) ≡ true
    → ((b : Bool) × (((s.store p).addr == data_addr) ≡ b))
    → Off (suc fuel) data_addr s (p ∷ ps)
unfolding taken_out
Off-present fuel data_addr s p ps (e, nonzero, c) d h there (true, here) =
    let found = walk_here fuel s.store data_addr 0 p here in
    (
      record s { first = (s.store p).next },
      rw here (off_walked (suc fuel) data_addr s p (busy 0 p) e nonzero found),
      rw here c,
      λ qs. refl,
    )
Off-present fuel data_addr s p [] c d h there (false, elsewhere) = absurd (ground arith)
Off-present fuel data_addr s p (q ∷ ps) c d h there (false, elsewhere) =
    Off-behind fuel data_addr s p q ps c d (omega arith) (ground arith) elsewhere

off :
    (fuel data_addr : ℕ) (s : Regions) (ps : List ℕ)
    → IsChain s.store s.first ps
    → Distinct ps
    → length ps < suc fuel
    → Off (suc fuel) data_addr s ps
unfolding cr_exclude_off
off fuel data_addr s [] e d h = (s, rw e refl, e, λ qs. refl)
off fuel data_addr s (p ∷ ps) c d h = elim (Bool-cases (among data_addr (addrs s.store (p ∷ ps)))) [
  | inl there ↦ Off-present fuel data_addr s p ps c d (omega arith) there (_, refl)
  | inr free ↦ Off-absent (suc fuel) data_addr s p ps c (omega arith) free
]

-- With the list of the excluded regions at `ps` and fuel for more rounds than there are regions,
-- `cr_exclude_off` ends. It returns 0 when the address is excluded and -1 otherwise, and leaves a list
-- of distinct regions whose addresses are the excluded ones without the first such address.
pub cr_exclude_off-IsList :
    (fuel data_addr : ℕ) (s : Regions) (ps excluded : List ℕ)
    → IsList s ps excluded
    → length ps < fuel
    → (s' : Regions) × (ps' : List ℕ) × (cr_exclude_off fuel data_addr s
        ≡ some (if among data_addr excluded then pos 0 else minus_one, s'))
      × IsList s' ps' (without data_addr excluded)
cr_exclude_off-IsList zero data_addr s ps excluded l h = absurd (omega arith)
cr_exclude_off-IsList (suc fuel) data_addr s ps excluded l h =
    let (s', e, chain, same) = off fuel data_addr s ps l.chain l.distinct h in
    (
      s',
      unlinked s.store data_addr ps,
      e ∙ ap (λ l. some (if among data_addr l then pos 0 else minus_one, s')) l.data_addrs,
      record {
        chain = chain;
        distinct = Distinct-unlinked s.store data_addr ps l.distinct;
        data_addrs =
            same (unlinked s.store data_addr ps)
            ∙ addrs-unlinked s.store data_addr ps
            ∙ ap (without data_addr) l.data_addrs;
      },
    )
