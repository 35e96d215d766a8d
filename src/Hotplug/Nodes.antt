-- ===== src/Hotplug/Nodes.antt =====
-- `struct krg_nodes` and `struct krg_clusters` with their operations, of
-- libs/libkerrighed/libhotplug.c: tables with a status byte for each node, and a flag for each
-- cluster.
pub mod Select
use kerrighed_tools.Base.{
  ℕ, ◌-◌, Bool, true, false, Option, none, some, List, ℤ, pos, minus_one, pos_part, get_or, ltb,
  ◌==◌, if◌then◌else◌,
}
use kerrighed_tools.Base.Loops.{find_from, count_from}
use kerrighed_tools.Hotplug.{Status, invalid, possible, present, online, code, in_range, after}
use kerrighed_tools.Hotplug.NodeSet
use kerrighed_tools.Hotplug.NodeSet.{NodeSet}
use kerrighed_tools.Hotplug.NodeSet.Loops.{fill}

pub record Nodes : Type 0 where
  pub nodes : List ℕ

pub record Clusters : Type 0 where
  pub clusters : List ℕ

-- The test `nodes->nodes[bcl] == s`.
abbrev pub has : Nodes → Status → ℕ → Bool
has nodes s bcl = get_or nodes.nodes bcl 0 == code s

-- `max_nodes` is the global `kerrighed_max_nodes`.
module _ (max_nodes : ℕ) where
  -- The bytes of the table are whatever the allocation holds, until the kernel fills them.
  unfoldable pub create : Bool → Option (List ℕ) → Option Nodes
  create false block = none
  create true none = none
  create true (some block) = some (record { nodes = block })

  unfoldable pub num : Nodes → Status → ℕ
  num nodes s = count_from (has nodes s) max_nodes 0 0

  unfoldable pub num_possible : Nodes → ℕ
  unfolding num
  num_possible nodes = num nodes possible

  unfoldable pub num_present : Nodes → ℕ
  unfolding num
  num_present nodes = num nodes present

  unfoldable pub num_online : Nodes → ℕ
  unfolding num
  num_online nodes = num nodes online

  unfoldable pub is : Nodes → ℤ → Status → ℤ
  is nodes n s =
      if in_range max_nodes n
      then (if has nodes s (pos_part n) then pos 1 else pos 0)
      else minus_one

  unfoldable pub is_possible : Nodes → ℤ → ℤ
  unfolding is
  is_possible nodes n = is nodes n possible

  unfoldable pub is_present : Nodes → ℤ → ℤ
  unfolding is
  is_present nodes n = is nodes n present

  unfoldable pub is_online : Nodes → ℤ → ℤ
  unfolding is
  is_online nodes n = is nodes n online

  unfoldable pub next : Nodes → ℤ → Status → ℤ
  next nodes node s = find_from (has nodes s) (max_nodes - after node) (after node)

  unfoldable pub next_online : Nodes → ℤ → ℤ
  unfolding next
  next_online nodes node = next nodes node online

  unfoldable pub next_possible : Nodes → ℤ → ℤ
  unfolding next
  next_possible nodes node = next nodes node possible

  unfoldable pub next_present : Nodes → ℤ → ℤ
  unfolding next
  next_present nodes node = next nodes node present

  -- `struct` and `block` are the two allocations of `krg_node_set_create`.
  unfoldable pub get : Nodes → Status → Option ℤ → Option (List ℕ) → Option NodeSet
  get nodes s struct block = elim (NodeSet.create max_nodes struct block) [
    | none ↦ none
    | some r ↦ some (fill max_nodes (has nodes s) r)
  ]

  unfoldable pub get_online : Nodes → Option ℤ → Option (List ℕ) → Option NodeSet
  unfolding get
  get_online nodes = get nodes online

  unfoldable pub get_possible : Nodes → Option ℤ → Option (List ℕ) → Option NodeSet
  unfolding get
  get_possible nodes = get nodes possible

  unfoldable pub get_present : Nodes → Option ℤ → Option (List ℕ) → Option NodeSet
  unfolding get
  get_present nodes = get nodes present

  -- The status byte of a node; out of range it is that of `invalid`.
  unfoldable pub getnode : Nodes → ℤ → ℕ
  getnode nodes n = if in_range max_nodes n then get_or nodes.nodes (pos_part n) 0 else code invalid

  unfoldable pub nextnode : Nodes → ℤ → ℤ
  nextnode nodes node =
      find_from (λ bcl. ltb (code invalid) (get_or nodes.nodes bcl 0)) (max_nodes - after node)
        (after node)

-- `max_clusters` is the global `kerrighed_max_clusters`.
module _ (max_clusters : ℕ) where
  unfoldable pub create_clusters : Bool → Option (List ℕ) → Option Clusters
  create_clusters false block = none
  create_clusters true none = none
  create_clusters true (some block) = some (record { clusters = block })

  unfoldable pub is_up : Clusters → ℤ → ℤ
  is_up item n =
      if in_range max_clusters n
      then (if get_or item.clusters (pos_part n) 0 == 0 then pos 0 else pos 1)
      else minus_one
