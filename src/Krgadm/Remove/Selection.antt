-- ===== src/Krgadm/Remove/Selection.antt =====
-- Which nodes the modes of `nodes_remove` (tools/krgadm.c) select. The node that runs the command
-- is the one that `get_node_id` tells, and it tells the same number throughout.
use kerrighed_tools.Base.{
  ℕ, ◌≡◌, refl, ◌∙◌, ◌<◌, Bool, true, false, not, ◌&&◌, ℤ, pos, eqb_ℤ, ltb, if◌then◌else◌, arith,
  Bool-cases, inl, inr,
}
use kerrighed_tools.Kernel.{World, Log, truthy}
use kerrighed_tools.Hotplug.{online}
use kerrighed_tools.Hotplug.NodeSet
use kerrighed_tools.Hotplug.NodeSet.{NodeSet}
use kerrighed_tools.Hotplug.NodeSet.Members.{IsValid}
use kerrighed_tools.Hotplug.NodeSet.Loops.{thin, gather}
use kerrighed_tools.Hotplug.Nodes
use kerrighed_tools.Hotplug.Nodes.{Nodes, has}
use kerrighed_tools.Hotplug.Services.Allocation.{IsFresh}
use kerrighed_tools.Proc.{get_node_id}
use kerrighed_tools.Krgadm.{chosen}
use kerrighed_tools.Krgadm.Remove.{Walk, list_body, all_body, select_all, select_list}

-- The kernel always tells the same node number.
abbrev pub Knows : World → ℤ → Type 0
Knows w self = (log : Log) → (get_node_id w log).0 ≡ self

-- An online node other than the current one.
abbrev pub removable : Nodes → ℤ → ℕ → Bool
removable status self m = has status online m && not (eqb_ℤ self (pos m))

module _ (w : World) (max_nodes : ℕ) (status : Nodes) (self : ℤ) (knows : Knows w self) where
  dropped : ℕ → Bool
  dropped j = if truthy (Nodes.is_online max_nodes status (pos j)) then eqb_ℤ self (pos j) else true

  list_body_lem :
      (j : ℕ) (s : Walk w max_nodes status)
      → (list_body w max_nodes status j s).set
        ≡ (if dropped j then (NodeSet.remove max_nodes s.set (pos j)).0 else s.set)
  unfolding list_body dropped
  list_body_lem j s = elim (Bool-cases (truthy (Nodes.is_online max_nodes status (pos j)))) [
    | inl t ↦ rw (t, knows s.log) refl
    | inr t ↦ rw t refl
  ]

  -- In the mode of `--nodes`, with a well-formed set and a kernel that always tells the same node
  -- number, the command selects exactly those nodes of the set that are online and not the current.
  pub select_list_lem :
      (s : NodeSet) (log : Log)
      → IsValid max_nodes s
      → (r : NodeSet) × (log' : Log) × (select_list w max_nodes status s log ≡ (chosen r, log'))
        × IsValid max_nodes r
        × ((m : ℕ)
            → NodeSet.contains max_nodes r (pos m)
              ≡ (if removable status self m then NodeSet.contains max_nodes s (pos m) else 0))
  unfolding select_list
  select_list_lem s log v =
      let (v', h) =
        thin max_nodes (λ t. t.set) (list_body w max_nodes status) dropped list_body_lem
          (record { set = s; log = log }) v in
      (_, _, refl, v', λ m. h m ∙ unfold dropped Nodes.is_online NodeSet.contains in ground arith)

  wanted : ℕ → Bool
  wanted j =
      if truthy (Nodes.is_online max_nodes status (pos j)) then not (eqb_ℤ self (pos j)) else false

  all_body_lem :
      (j : ℕ) (s : Walk w max_nodes status)
      → j < max_nodes
      → (all_body w max_nodes status j s).set
        ≡ (if wanted j then (NodeSet.add max_nodes s.set (pos j)).0 else s.set)
  unfolding all_body wanted
  all_body_lem j s h = elim (Bool-cases (truthy (Nodes.is_online max_nodes status (pos j)))) [
    | inl t ↦ rw (t, knows s.log) (ground arith)
    | inr t ↦ rw t refl
  ]

  -- In the mode of `--all`, with a fresh (allocated, empty) set and a kernel that always tells the same node number,
  -- the command selects exactly the online nodes but the current one.
  pub select_all_lem :
      (s : NodeSet) (log : Log)
      → IsFresh max_nodes s
      → (r : NodeSet) × (log' : Log) × (select_all w max_nodes status s log ≡ (chosen r, log'))
        × IsValid max_nodes r
        × ((m : ℕ)
            → NodeSet.contains max_nodes r (pos m)
              ≡ (if ltb m max_nodes && removable status self m then 1 else 0))
  unfolding select_all
  select_all_lem s log f =
      let (v', h) =
        gather max_nodes (λ t. t.set) (all_body w max_nodes status) wanted all_body_lem
          (record { set = s; log = log }) f.valid in
      (_, _, refl, v', λ m. h m ∙ unfold wanted Nodes.is_online in ground (arith, f.empty (pos m)))
