-- ===== src/Krgadm/Status.antt =====
-- The commands of tools/krgadm.c that show a status. What is printed for the nodes is a list of
-- lines, each with a node and the name of its status.
use Prim.Native.String.{String}
use kerrighed_tools.Base.{
  ℕ, List, [], ◌∷◌, ◌++◌, Option, none, some, ℤ, pos, minus_one, get_or, ltb, if◌then◌else◌,
}
use kerrighed_tools.Kernel.{World, M, ◌>>=◌, return, truthy}
use kerrighed_tools.Hotplug.{present, possible, code, status_str}
use kerrighed_tools.Hotplug.NodeSet
use kerrighed_tools.Hotplug.NodeSet.{NodeSet}
use kerrighed_tools.Hotplug.NodeSet.Iteration.{walk_nodes}
use kerrighed_tools.Hotplug.NodeSet.Loops.{fill}
use kerrighed_tools.Hotplug.Nodes
use kerrighed_tools.Hotplug.Nodes.{Nodes}
use kerrighed_tools.Hotplug.Services
use kerrighed_tools.Krgadm.{Mode, all}

-- How `nodes_status` ends: the lines with the result 0, a result of -1, or the reading of a NULL.
pub data Shown : Type 0 where
  shown : List (ℕ × String) → Shown
  failed crash : Shown

module _ (max_nodes : ℕ) (status : Nodes) where
  -- The loop over all nodes of NODES_MODE_ALL, on the new set.
  unfoldable pub known_nodes : NodeSet → NodeSet
  known_nodes = fill max_nodes (λ bcl. ltb (code possible) (get_or status.nodes bcl 0))

  -- The loop that drops the nodes that are not even present.
  unfoldable pub drop_unknown : NodeSet → NodeSet
  drop_unknown =
      walk_nodes max_nodes (λ s. s)
        (λ node s.
          if ltb (get_or status.nodes node 0) (code present)
          then (NodeSet.remove max_nodes s (pos node)).0
          else s)

  -- The loop that prints.
  unfoldable pub show_nodes : NodeSet → List (ℕ × String)
  show_nodes node_set =
      (walk_nodes {S = NodeSet × List (ℕ × String)} max_nodes (λ t. t.0)
        (λ node t. (t.0, t.1 ++ ((node, status_str (pos (get_or status.nodes node 0))) ∷ [])))
        (node_set, [])).1

module _ (w : World) (max_nodes : ℕ) where
  unfoldable pub shown_set : Nodes → Option NodeSet → Mode → M (Option NodeSet)
  shown_set status given all = do
    made ← Services.node_set_create w max_nodes
    return (elim made [ none ↦ none | some s ↦ some (known_nodes max_nodes status s) ])
  shown_set status none _ = return none
  shown_set status (some s) _ = return (some (drop_unknown max_nodes status s))

  unfoldable pub nodes_status : Option NodeSet → Mode → M Shown
  nodes_status given mode = do
    status ← Services.nodes_status w max_nodes
    elim status [
      | none ↦ return failed
      | some table ↦ do
        set ← shown_set table given mode
        return (elim set [ none ↦ crash | some s ↦ shown (show_nodes max_nodes table s) ])
    ]

  -- The number of nodes, 0 or -1; `none` is the reading of a NULL, when the clusters could be asked
  -- for and the nodes could not.
  unfoldable pub cluster_status : ℕ → M (Option ℤ)
  cluster_status max_clusters = do
    clusters ← Services.cluster_status w max_clusters
    elim clusters [
      | none ↦ return (some minus_one)
      | some item ↦
          if truthy (Nodes.is_up max_clusters item (pos 0))
          then (do
            status ← Services.nodes_status w max_nodes
            return (elim status [
              | none ↦ none
              | some table ↦ some (pos (Nodes.num_online max_nodes table))
            ]))
          else return (some (pos 0))
    ]
