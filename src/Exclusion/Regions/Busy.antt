-- ===== src/Exclusion/Regions/Busy.antt =====
-- `cr_exclude_on` of libs/libkrgcheckpoint/libkrgcheckpoint.c, for an address that is excluded already
-- as well as for a new one.
use kerrighed_tools.Base.{
  ℕ, zero, suc, ◌≡◌, refl, ap, ◌∙◌, ◌<◌, inl, inr, true, false, Option, some, List, [], ◌∷◌, ◌++◌,
  length, ℤ, pos, minus_one, ◌==◌, arith, Bool-cases,
}
use kerrighed_tools.Kernel
use kerrighed_tools.Kernel.{World, Log, malloc, truthy}
use kerrighed_tools.Exclusion
use kerrighed_tools.Exclusion.{cr_mm_exclusion_init}
use kerrighed_tools.Exclusion.Regions.{
  Region, Store, Regions, started, busy, walk, written, exclude_at, cr_exclude_on,
}
use kerrighed_tools.Exclusion.Regions.Chain.{among, IsChain, addrs, IsChain-put, addrs-put, IsList}
use kerrighed_tools.Exclusion.Regions.Excluding.{last_link, Linked, allocated, exclude_at-Linked}
use kerrighed_tools.Exclusion.Regions.Unlinking.{walk_further, walk_here}

-- The walk over a chain with the address ends at it.
walk_finds :
    (fuel : ℕ) (store : Store) (addr prev p : ℕ) (ps : List ℕ)
    → length ps < fuel
    → IsChain store p (p ∷ ps)
    → among addr (addrs store (p ∷ ps)) ≡ true
    → (prev' : ℕ) × (element : ℕ) × (walk fuel store addr prev p ≡ some (busy prev' element))
walk_finds zero store addr prev p ps h c found = absurd (omega arith)
walk_finds (suc fuel) store addr prev p [] h c found =
    (prev, p, walk_here fuel store addr prev p (ground arith))
walk_finds (suc fuel) store addr prev p (q ∷ ps) h (e, nonzero, c) found =
    elim (Bool-cases ((store p).addr == addr)) [
      | inl here ↦ (prev, p, walk_here fuel store addr prev p here)
      | inr elsewhere ↦
          let (prev', element, walked) =
            walk_finds fuel store addr p q ps (omega arith) (refl, c.1, c.2) (ground arith) in
          (prev', element, walk_further fuel store addr prev p q elsewhere c.0 c.1 ∙ walked)
    ]

module _ (w : World) (fuel data_addr datasize func arg : ℕ) (s : Regions) (log : Log) (m : ℕ) where
  abbrev with_new : Store
  with_new = written w (suc m) data_addr datasize func arg s.store

  exclude_at-busy :
      (ps excluded : List ℕ)
      → IsList s ps excluded
      → among (suc m) ps ≡ false
      → among data_addr excluded ≡ true
      → length ps < fuel
      → (s' : Regions) × (exclude_at w fuel (suc m) data_addr datasize func arg s (malloc ∷ log)
          ≡ (some (minus_one, s'), Kernel.free (suc m) ∷ malloc ∷ log))
        × IsList s' ps excluded
  unfolding exclude_at
  exclude_at-busy [] excluded l new there enough =
      let no : among data_addr [] ≡ true = ap (among data_addr) l.data_addrs ∙ there in absurd (cc)
  exclude_at-busy (p ∷ ps) excluded l new there enough =
      let (e, nonzero, c) = l.chain in
      let r : Region = record {
        pid = pos 0;
        addr = data_addr;
        size = datasize;
        func = func;
        arg = arg;
        next = (s.store (suc m)).next;
      } in
      let same_addrs = addrs-put s.store (suc m) r (p ∷ ps) new ∙ l.data_addrs in
      let (prev, element, walked) =
        walk_finds fuel with_new data_addr 0 p ps (omega arith)
          (IsChain-put s.store (suc m) r p (p ∷ ps) new (refl, nonzero, c))
          (ap (among data_addr) same_addrs ∙ there) in
      let walked_from_first = ap (walk fuel with_new data_addr 0) e ∙ walked in
      let some_first : (s.first == 0) ≡ false = ground arith in
      (
        record s { store = with_new },
        rw (some_first, walked_from_first) refl,
        record {
          chain = IsChain-put s.store (suc m) r s.first (p ∷ ps) new l.chain;
          distinct = l.distinct;
          data_addrs = same_addrs;
        },
      )

  -- The start of the library, which comes after `malloc`.
  abbrev pub begun : (ℤ × Exclusion.State) × Log
  begun = cr_mm_exclusion_init w s.others (malloc ∷ log)

  -- How `cr_exclude_on` ends: the result, the globals, and the calls made.
  pub data Outcome (ps excluded : List ℕ) : Option (ℤ × Regions) × Log → Type 0 where
    is_busy :
        (s' : Regions)
        → among data_addr excluded ≡ true
        → IsList s' ps excluded
        → Outcome ps excluded (some (minus_one, s'), Kernel.free (suc m) ∷ malloc ∷ log)
    linked :
        (s' : Regions)
        → among data_addr excluded ≡ false
        → truthy begun.0.0 ≡ false
        → IsList s' (ps ++ (suc m ∷ [])) (excluded ++ (data_addr ∷ []))
        → Outcome ps excluded (some (begun.0.0, s'), begun.1)
    dangling :
        (s' : Regions)
        → among data_addr excluded ≡ false
        → truthy begun.0.0 ≡ true
        → last_link s' ps ≡ suc m
        → Outcome ps excluded (some (begun.0.0, s'), Kernel.free (suc m) ∷ begun.1)

  started-Outcome :
      (ps excluded : List ℕ) (s₁ : Regions)
      → among data_addr excluded ≡ false
      → Linked w fuel data_addr datasize func arg s log m ps excluded s₁
      → Outcome ps excluded (started w (suc m) s₁ (malloc ∷ log))
  unfolding started
  started-Outcome ps excluded s₁ free (same, l, link) = elim (Bool-cases (truthy begun.0.0)) [
    | inl failed ↦ rw (same, failed) (dangling (record s₁ { others = begun.0.1 }) free failed link)
    | inr fine ↦
        rw (same, fine)
          (linked (record s₁ { others = begun.0.1 }) free fine
            (record { chain = l.chain; distinct = l.distinct; data_addrs = l.data_addrs }))
  ]

  -- With the list of the excluded regions at `ps`, fuel for more rounds than there are regions, and a new
  -- struct from `malloc` that is none of them and whose `next` happens to hold NULL, `cr_exclude_on` ends.
  -- When the address is excluded already, it frees the struct, returns -1 and leaves the list as it is.
  -- Otherwise it puts the struct, with the address, behind the last of the list, and starts the library: when
  -- this succeeds, the list is well formed with the new region at its end; when it fails, the error is
  -- returned and the struct is freed, and the list still ends in a pointer to it.
  pub cr_exclude_on-Outcome :
      (ps excluded : List ℕ)
      → IsList s ps excluded
      → (w.answer log malloc).ret ≡ pos (suc m)
      → among (suc m) ps ≡ false
      → (s.store (suc m)).next ≡ 0
      → length ps < fuel
      → Outcome ps excluded (cr_exclude_on w fuel data_addr datasize func arg s log)
  cr_exclude_on-Outcome ps excluded l got new end enough =
      rw (allocated w fuel data_addr datasize func arg s log m got)
        (elim (Bool-cases (among data_addr excluded)) [
          | inl there ↦
              let (s', e, l') = exclude_at-busy ps excluded l new there enough in
              rw e (is_busy s' there l')
          | inr free ↦
              let (s₁, link, e) =
                exclude_at-Linked w fuel data_addr datasize func arg s log m ps excluded l new end
                  free enough in
              rw e (started-Outcome ps excluded s₁ free link)
        ])
