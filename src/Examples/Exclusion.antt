-- ===== src/Examples/Exclusion.antt =====
-- The theorems about the children and the regions of a process, applied to one that forks twice and
-- excludes two regions.
use kerrighed_tools.Base.{
  ℕ, ◌≡◌, refl, ◌≤◌, false, List, [], ◌∷◌, pos, none, some, length, ◌==◌, if◌then◌else◌, arith,
}
use kerrighed_tools.Kernel.{Log}
use kerrighed_tools.Exclusion.{State, add_child}
use kerrighed_tools.Exclusion.Children.{Run, forked, start, then_step, Run-length}
use kerrighed_tools.Exclusion.Regions.{Store, Regions, cr_exclude_on, cr_exclude_off}
use kerrighed_tools.Exclusion.Regions.Chain.{IsList}
use kerrighed_tools.Exclusion.Regions.Busy.{Outcome, cr_exclude_on-Outcome}
use kerrighed_tools.Exclusion.Regions.Including.{cr_exclude_off-IsList}
use kerrighed_tools.Exclusion.Regions.Hooks.{cr_mm_exclusion_exit}
use kerrighed_tools.Exclusion.Regions.Hooks.Walks.{cr_mm_exclusion_exit-IsList}
use kerrighed_tools.Examples.{cluster}

abbrev alone : State
alone = record {
  callbacks = record { info = none; thread_running = false; current_hook = none };
  first_child = [];
  initialized = false;
}

-- The process after its first fork, and after its second.
abbrev parent : State × Log
parent = add_child cluster (pos 31) alone []

abbrev twice : State × Log
twice = add_child cluster (pos 32) parent.0 parent.1

two_forks : Run cluster alone [] twice.0 twice.1
two_forks =
    then_step parent.0 parent.1 twice.0 twice.1
      (then_step alone [] parent.0 parent.1 start (forked (pos 31) alone []))
      (forked (pos 32) parent.0 parent.1)

Run-length_example : length twice.0.first_child ≤ 1
Run-length_example = Run-length cluster alone [] twice.0 twice.1 refl two_forks

-- One region is excluded, of the struct at 9.
abbrev store : Store
store q = record {
  pid = pos 0;
  addr = if q == 9 then 100 else 0;
  size = 8;
  func = 0;
  arg = 0;
  next = 0;
}

abbrev one_region : Regions
one_region = record { first = 9; store = store; others = alone }

abbrev one_region-IsList : IsList one_region (9 ∷ []) (100 ∷ [])
one_region-IsList = record { chain = (refl, refl, refl); distinct = (refl, tt); data_addrs = refl }

cr_exclude_on-Outcome_example :
    Outcome cluster 2 200 8 0 0 one_region [] 0
      (9 ∷ [])
      (100 ∷ [])
      (cr_exclude_on cluster 2 200 8 0 0 one_region [])
cr_exclude_on-Outcome_example =
    cr_exclude_on-Outcome cluster 2 200 8 0 0 one_region [] 0 (9 ∷ []) (100 ∷ []) one_region-IsList
      refl refl refl (omega arith)

cr_exclude_off-IsList_example :
    (s' : Regions) × (ps' : List ℕ) × (cr_exclude_off 2 100 one_region ≡ some (pos 0, s'))
    × IsList s' ps' []
cr_exclude_off-IsList_example =
    cr_exclude_off-IsList 2 100 one_region (9 ∷ []) (100 ∷ []) one_region-IsList (omega arith)

cr_mm_exclusion_exit-IsList_example :
    (s' : Regions) × (cr_mm_exclusion_exit cluster 2 one_region ≡ some (9 ∷ [], s'))
    × (s'.others.first_child ≡ [])
    × IsList s' (9 ∷ []) (100 ∷ [])
cr_mm_exclusion_exit-IsList_example =
    cr_mm_exclusion_exit-IsList cluster 2 one_region (9 ∷ []) (100 ∷ []) one_region-IsList
      (omega arith)

-- A region with a function.
abbrev with_function : Regions
with_function = record one_region { store = λ q. record (store q) { func = 5; arg = 6 } }
