-- ===== src/Exclusion/Regions/Hooks.antt =====
-- What libs/libkrgcheckpoint/libkrgcheckpoint.c does with the list of the regions at a checkpoint and
-- at a restart, what it does around a fork, and at the exit. What it prints is left out.
pub mod Pids
pub mod Walks
pub mod Requested
use kerrighed_tools.Base.{
  ℕ, zero, suc, Bool, true, false, Option, none, some, List, [], ◌∷◌, ℤ, pos, ◌==◌, if◌then◌else◌,
}
use kerrighed_tools.Kernel.{
  World, M, ◌>>=◌, return, sys, truthy, number_of, Answer, call_kerrighed_services, app_cr_exclude,
  getpid, callback, pipe, read_pipe, write_pipe, close_read_end, close_write_end,
}
use kerrighed_tools.Callbacks.Requests.{cr_execute_chkpt_callbacks, cr_execute_restart_callbacks}
use kerrighed_tools.Exclusion
use kerrighed_tools.Exclusion.{add_child, remove_all_children}
use kerrighed_tools.Exclusion.Regions.{Region, Store, put, Regions}

-- The list as the kernel finds it from `p` on, on fuel.
abbrev pub listed : ℕ → Store → ℕ → List (ℤ × ℕ × ℕ)
listed zero store p = []
listed (suc fuel) store p =
    let rest = listed fuel store (store p).next in
    if p == 0 then [] else ((store p).pid, (store p).addr, (store p).size) ∷ rest

-- The loop that frees the structs, from `mm_region` on, on fuel: the structs in order.
unfoldable pub free_regions : ℕ → Store → ℕ → Option (List ℕ)
free_regions zero store mm_region = none
free_regions (suc fuel) store mm_region =
    let rest = free_regions fuel store (store mm_region).next in
    if mm_region == 0
    then some []
    else (elim rest [ none ↦ none | some freed ↦ some (mm_region ∷ freed) ])

module _ (w : World) where
  -- The loop that writes the pids, from `mm_region` on, on fuel.
  unfoldable pub write_pids : ℕ → Store → ℕ → M (Option Store)
  write_pids zero store mm_region = return none
  write_pids (suc fuel) store mm_region = if mm_region == 0 then return (some store) else do
    pid ← sys w getpid
    write_pids fuel (put store mm_region (record (store mm_region) { pid = pid.ret }))
        (store mm_region).next

  -- The loop over the children; the results are not looked at.
  unfoldable pub ask_children : List ℤ → M (Unit {0})
  ask_children [] = return tt
  ask_children (child ∷ next) = do r ← cr_execute_chkpt_callbacks w child false; ask_children next

  -- From the request on.
  unfoldable pub exclude : ℕ → Regions → M (Option (ℤ × Regions))
  exclude fuel s = do
    r ← call_kerrighed_services w (app_cr_exclude (listed fuel s.store s.first))
    asked ← ask_children s.others.first_child
    return (some (r.ret, s))

  -- With what the loop has left.
  abbrev pub exclude_written : ℕ → Regions → Option Store → M (Option (ℤ × Regions))
  exclude_written fuel s none = return none
  exclude_written fuel s (some store) = exclude fuel (record s { store = store })

  unfoldable pub cr_mm_exclusion_checkpoint_cb : ℕ → Regions → M (Option (ℤ × Regions))
  cr_mm_exclusion_checkpoint_cb fuel s =
      if s.first == 0
      then return (some (pos 0, s))
      else do written ← write_pids fuel s.store s.first; exclude_written fuel s written

  -- The loop over the regions at a restart: the functions that are there are called, and the last result
  -- that is not 0 is kept.
  unfoldable pub call_functions : ℕ → Store → ℕ → ℤ → M (Option ℤ)
  call_functions zero store mm_region ret = return none
  call_functions (suc fuel) store mm_region ret =
      if mm_region == 0
      then return (some ret)
      else if (store mm_region).func == 0
      then call_functions fuel store (store mm_region).next ret
      else do
        r ← sys w (callback (store mm_region).func (store mm_region).arg)
        call_functions fuel store (store mm_region).next (if truthy r.ret then r.ret else ret)

  unfoldable pub restart_children : List ℤ → M (Unit {0})
  restart_children [] = return tt
  restart_children (child ∷ next) = do
    r ← cr_execute_restart_callbacks w child
    restart_children next

  -- With what the loop has returned.
  abbrev pub restart_called : Regions → Option ℤ → M (Option ℤ)
  restart_called s none = return none
  restart_called s (some r) = do asked ← restart_children s.others.first_child; return (some r)

  unfoldable pub cr_mm_exclusion_restart_cb : ℕ → Regions → M (Option ℤ)
  cr_mm_exclusion_restart_cb fuel s = do
    ret ← call_functions fuel s.store s.first (pos 0)
    restart_called s ret

  unfoldable pub parent_before_fork : M (Unit {0})
  parent_before_fork = do r ← sys w pipe; return tt

  -- When the read fails, `pid` is what the variable happens to hold.
  unfoldable pub parent_after_fork : Regions → M Regions
  parent_after_fork s = do
    r ← sys w read_pipe
    closed ← sys w close_read_end
    closed_too ← sys w close_write_end
    others ← add_child w (number_of r.out) s.others
    return (record s { others = others })

  unfoldable pub child_after_fork : Regions → M Regions
  child_after_fork s = do
    pid ← sys w getpid
    closed ← sys w close_read_end
    r ← sys w (write_pipe pid.ret)
    closed_too ← sys w close_write_end
    return (record s { others = remove_all_children w s.others })

  -- The result has the structs that were freed, in order; `first_mm_region_excluded` stays as it is.
  unfoldable pub cr_mm_exclusion_exit : ℕ → Regions → Option (List ℕ × Regions)
  unfolding free_regions
  cr_mm_exclusion_exit fuel s = elim (free_regions fuel s.store s.first) [
    | none ↦ none
    | some freed ↦ some (freed, record s { others = remove_all_children w s.others })
  ]
