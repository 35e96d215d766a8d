-- ===== src/Exclusion/Regions.antt =====
-- The list of the excluded regions of libs/libkrgcheckpoint/libkrgcheckpoint.c, in a store: what
-- stands at each address, of which 0 is NULL. What `malloc` gives still holds what stood there.
pub mod Chain
pub mod Excluding
pub mod Unlinking
pub mod Including
pub mod Busy
pub mod Hooks
use kerrighed_tools.Base.{
  ℕ, zero, suc, Option, none, some, List, [], ◌∷◌, ℤ, pos, minus_one, pos_part, ◌==◌, if◌then◌else◌,
}
use kerrighed_tools.Kernel
use kerrighed_tools.Kernel.{World, M, ◌>>=◌, return, sys, malloc, truthy}
use kerrighed_tools.Exclusion
use kerrighed_tools.Exclusion.{cr_mm_exclusion_init}

-- `struct cr_mm_region_excluded`, with the fields of its `region`.
pub record Region : Type 0 where
  pub pid : ℤ
  pub addr : ℕ
  pub size : ℕ
  pub func : ℕ
  pub arg : ℕ
  pub next : ℕ

abbrev pub Store : Type 0
Store = ℕ → Region

abbrev pub put : Store → ℕ → Region → Store
put store p r q = if p == q then r else store q

-- `first_mm_region_excluded`, with the store and the other globals.
pub record Regions : Type 0 where
  pub first : ℕ
  pub store : Store
  pub others : Exclusion.State

-- How a walk over the list ends: at an element with the address, or at the last; with that
-- element and the one before it (NULL at the first).
pub data Walked : Type 0 where
  busy last : ℕ → ℕ → Walked

-- The walk, on fuel; `none` is a walk without an end. `element` is not NULL.
unfoldable pub walk : ℕ → Store → ℕ → ℕ → ℕ → Option Walked
walk zero store addr prev element = none
walk (suc fuel) store addr prev element =
    let rest = walk fuel store addr element (store element).next in
    if (store element).addr == addr
    then some (busy prev element)
    else if (store element).next == 0
    then some (last prev element)
    else rest

-- What the walk has found is taken out of the list. It is freed, which nothing here reads again.
unfoldable pub taken_out : Regions → Option Walked → Option (ℤ × Regions)
taken_out s none = none
taken_out s (some (last prev element)) = some (minus_one, s)
taken_out s (some (busy prev element)) = some (
  pos 0,
  if prev == 0 then record s { first = (s.store element).next } else record s {
    store = put s.store prev (record (s.store prev) { next = (s.store element).next });
  },
)

unfoldable pub cr_exclude_off : ℕ → ℕ → Regions → Option (ℤ × Regions)
unfolding taken_out
cr_exclude_off fuel data_addr s =
    if s.first == 0
    then some (minus_one, s)
    else taken_out s (walk fuel s.store data_addr 0 s.first)

module _ (w : World) where
  -- Once the new region, the struct at `p`, is linked. It is freed when the library does not start, and
  -- stays linked.
  unfoldable pub started : ℕ → Regions → M (Option (ℤ × Regions))
  started p s = do
    r ← cr_mm_exclusion_init w s.others
    if truthy r.0
        then (do freed ← sys w (Kernel.free p); return (some (r.0, record s { others = r.1 })))
        else return (some (r.0, record s { others = r.1 }))

  -- The struct is written but for `next`.
  abbrev pub written : ℕ → ℕ → ℕ → ℕ → ℕ → Store → Store
  written p data_addr datasize func arg store = put store p (record {
    pid = pos 0;
    addr = data_addr;
    size = datasize;
    func = func;
    arg = arg;
    next = (store p).next;
  })

  -- With the new struct at `p`.
  unfoldable pub exclude_at : ℕ → ℕ → ℕ → ℕ → ℕ → ℕ → Regions → M (Option (ℤ × Regions))
  unfolding started
  exclude_at fuel p data_addr datasize func arg s =
      let store = written p data_addr datasize func arg s.store in
      if s.first == 0
      then started p (record s { first = p; store = store })
      else (elim (walk fuel store data_addr 0 s.first) [
        | none ↦ return none
        | some (busy prev element) ↦ do
          freed ← sys w (Kernel.free p)
          return (some (minus_one, record s { store = store }))
        | some (last prev element) ↦
            started p (record s { store = put store element (record (store element) { next = p }) })
      ])

  unfoldable pub cr_exclude_on : ℕ → ℕ → ℕ → ℕ → ℕ → Regions → M (Option (ℤ × Regions))
  unfolding exclude_at
  cr_exclude_on fuel data_addr datasize func arg s = do
    mm_region ← sys w malloc
    if truthy mm_region.ret
        then exclude_at fuel (pos_part mm_region.ret) data_addr datasize func arg s
        else return (some (minus_one, s))
