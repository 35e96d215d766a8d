-- ===== src/Krgadm.antt =====
-- tools/krgadm.c: the parts that its modes share. Printing is left out everywhere.
pub mod Remove
pub mod Add
pub mod Parse
pub mod Status
pub mod Commands
use kerrighed_tools.Base.{ℕ, none, some, ℤ, pos, minus_one, ltb, if◌then◌else◌}
use kerrighed_tools.Kernel.{World, M, ◌>>=◌, return}
use kerrighed_tools.Hotplug.NodeSet
use kerrighed_tools.Hotplug.NodeSet.{NodeSet}
use kerrighed_tools.Hotplug.Services.{node_set_create}

-- `enum mode_t`
pub data Mode : Type 0 where
  unset all count total list : Mode

-- What the switch over the mode ends in: a set, `return -1`, a NULL that is then read, or polls
-- that have not ended within the fuel.
pub data Chosen : Type 0 where
  chosen : NodeSet → Chosen
  refused crashed polling : Chosen

-- The result of `nodes_add` or `nodes_remove`.
pub data Done : Type 0 where
  returned : ℤ → Done
  crash no_end : Done

module _ (w : World) (max_nodes : ℕ) where
  -- node_set = krg_node_set_create(); and then what reads the set.
  abbrev pub with_new_set : (NodeSet → M Chosen) → M Chosen
  with_new_set k = do
    made ← node_set_create w max_nodes
    elim made [ none ↦ return crashed | some s ↦ k s ]

  -- The end of `nodes_add` and `nodes_remove`: a set with members is passed to `act`.
  abbrev pub act_on : (NodeSet → M ℤ) → Chosen → M Done
  act_on act (chosen s) =
      if ltb 0 (NodeSet.weight max_nodes s)
      then (do r ← act s; return (returned r))
      else return (returned (pos 0))
  act_on act refused = return (returned minus_one)
  act_on act crashed = return crash
  act_on act polling = return no_end
