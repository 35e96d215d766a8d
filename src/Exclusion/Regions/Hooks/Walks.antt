-- ===== src/Exclusion/Regions/Hooks/Walks.antt =====
-- The walks over the list of libs/libkrgcheckpoint/libkrgcheckpoint.c at a restart and at the exit.
use kerrighed_tools.Base.{
  ℕ, zero, suc, ◌≡◌, refl, ap, ◌<◌, some, List, [], ◌∷◌, length, ℤ, ◌==◌, arith, if◌then◌else◌,
}
use kerrighed_tools.Kernel.{World, M, ◌>>=◌, return, sys, truthy, callback}
use kerrighed_tools.Exclusion.{remove_all_children}
use kerrighed_tools.Exclusion.Regions.{Store, Regions}
use kerrighed_tools.Exclusion.Regions.Chain.{IsChain, IsList}
use kerrighed_tools.Exclusion.Regions.Hooks.{free_regions, cr_mm_exclusion_exit}

-- The structs that are freed at the exit are those of the list, each once.
free_regions-IsChain :
    (fuel : ℕ) (store : Store) (a : ℕ) (ps : List ℕ)
    → IsChain store a ps
    → length ps < fuel
    → free_regions fuel store a ≡ some ps
unfolding free_regions
free_regions-IsChain zero store a ps c h = absurd (omega arith)
free_regions-IsChain (suc fuel) store a [] e h = rw e refl
free_regions-IsChain (suc fuel) store a (p ∷ ps) (e, nonzero, c) h =
    let ih = free_regions-IsChain fuel store (store p).next ps c (omega arith) in
    rw (e, nonzero, ih) (ap (λ q. some (q ∷ ps)) e)

module _ (w : World) where
  -- With the list of the regions at `ps` and fuel for more rounds than there are regions,
  -- `cr_mm_exclusion_exit` ends; it frees the distinct structs of the list, each once and in order, and
  -- leaves no children and no region changed.
  pub cr_mm_exclusion_exit-IsList :
      (fuel : ℕ) (s : Regions) (ps excluded : List ℕ)
      → IsList s ps excluded
      → length ps < fuel
      → (s' : Regions) × (cr_mm_exclusion_exit w fuel s ≡ some (ps, s'))
        × (s'.others.first_child ≡ [])
        × IsList s' ps excluded
  unfolding cr_mm_exclusion_exit remove_all_children
  cr_mm_exclusion_exit-IsList fuel s ps excluded l h =
      let freed = free_regions-IsChain fuel s.store s.first ps l.chain h in
      (
        record s { others = record (s.others) { first_child = [] } },
        rw (freed, cr_mm_exclusion_exit) refl,
        refl,
        record { chain = l.chain; distinct = l.distinct; data_addrs = l.data_addrs },
      )

  -- The functions of regions that have one, with their arguments.
  abbrev pub functions : Store → List ℕ → List (ℕ × ℕ)
  functions store [] = []
  functions store (p ∷ ps) =
      if (store p).func == 0
      then functions store ps
      else ((store p).func, (store p).arg) ∷ functions store ps

  -- They are called in order, and the last result that is not 0 is kept.
  abbrev pub call_all : List (ℕ × ℕ) → ℤ → M ℤ
  call_all [] ret = return ret
  call_all ((func, arg) ∷ fs) ret = do
    r ← sys w (callback func arg)
    call_all fs (if truthy r.ret then r.ret else ret)
