-- ===== src/Hotplug/Services.antt =====
-- The functions of libs/libkerrighed/libhotplug.c that talk to the kernel or allocate.
pub mod Start
pub mod Allocation
use kerrighed_tools.Base.{
  ℕ, Bool, true, false, List, [], ◌∷◌, Option, none, some, ℤ, pos, negsuc, minus_one, pos_part,
  eqb_ℤ, if◌then◌else◌,
}
use kerrighed_tools.Kernel.{
  World, M, ◌>>=◌, ◌>>◌, return, sys, alloc, call_kerrighed_services, Request, hotplug_add,
  hotplug_remove, hotplug_fail, hotplug_poweroff, hotplug_nodes, hotplug_status,
  hotplug_set_creator, hotplug_ready, hotplug_shutdown, hotplug_restart, nb_max_nodes,
  nb_max_clusters, get_node_id, stat_container, number_of, bytes_of, fit, truthy,
}
use kerrighed_tools.Hotplug.NodeSet
use kerrighed_tools.Hotplug.NodeSet.{NodeSet}
use kerrighed_tools.Hotplug.Nodes
use kerrighed_tools.Hotplug.Nodes.{Nodes, Clusters}
use kerrighed_tools.Hotplug.Mask.{to_hotplug, to_hotplug_unset}

-- The two globals of the library, -1 until the kernel has told them.
pub record Globals : Type 0 where
  pub kerrighed_max_nodes : ℤ
  pub kerrighed_max_clusters : ℤ

module _ (w : World) where
  -- The result, and the value that the global is left with.
  unfoldable pub get_max_nodes : ℤ → M (ℤ × ℤ)
  get_max_nodes global =
      if eqb_ℤ global minus_one
      then (do
        r ← call_kerrighed_services w nb_max_nodes
        return
            (if truthy r.ret then (minus_one, minus_one) else (number_of r.out, number_of r.out)))
      else return (global, global)

  unfoldable pub get_max_clusters : ℤ → M (ℤ × ℤ)
  get_max_clusters global =
      if eqb_ℤ global minus_one
      then (do
        r ← call_kerrighed_services w nb_max_clusters
        return
            (if truthy r.ret then (minus_one, minus_one) else (number_of r.out, number_of r.out)))
      else return (global, global)

  unfoldable pub hotplug_init : Globals → M (ℤ × Globals)
  hotplug_init g = do
    n ← get_max_nodes g.kerrighed_max_nodes
    if eqb_ℤ n.0 minus_one then return (minus_one, record g { kerrighed_max_nodes = n.0 }) else do
      c ← get_max_clusters g.kerrighed_max_clusters
      return (
        if eqb_ℤ c.0 minus_one then minus_one else pos 0,
        record { kerrighed_max_nodes = n.0; kerrighed_max_clusters = c.0 },
      )

  unfoldable pub check_hotplug : M ℤ
  check_hotplug = do
    r ← call_kerrighed_services w get_node_id
    return (if eqb_ℤ r.ret (pos 0) then pos 0 else minus_one)

  unfoldable pub check_container : M ℤ
  check_container = do
    r ← sys w stat_container
    return (if eqb_ℤ r.ret (pos 0) then pos 0 else minus_one)

  unfoldable pub set_cluster_creator : Bool → M ℤ
  set_cluster_creator enable = do
    r ← call_kerrighed_services w (hotplug_set_creator enable)
    return r.ret

  -- The argument of the request is set when the node is not ready.
  unfoldable pub node_ready : Bool → M ℤ
  node_ready setup_ok = do
    r ← call_kerrighed_services w (hotplug_ready (if setup_ok then false else true))
    return r.ret

  unfoldable pub cluster_shutdown : ℤ → M ℤ
  cluster_shutdown subclusterid = do
    r ← call_kerrighed_services w (hotplug_shutdown subclusterid)
    return r.ret

  unfoldable pub cluster_reboot : ℤ → M ℤ
  cluster_reboot subclusterid = do
    r ← call_kerrighed_services w (hotplug_restart subclusterid)
    return r.ret

module _ (w : World) (max_nodes : ℕ) where
  unfoldable pub node_set_create : M (Option NodeSet)
  node_set_create = do
    struct ← alloc w
    elim struct [
      | none ↦ return none
      | some _ ↦ do
        block ← alloc w
        return (
            NodeSet.create max_nodes (some (pos 0))
              (elim block [ none ↦ none | some b ↦ some (fit max_nodes b) ]))
    ]

  unfoldable pub nodes_add : NodeSet → M ℤ
  nodes_add s = do
    r ← call_kerrighed_services w (hotplug_add (to_hotplug max_nodes s))
    return r.ret

  unfoldable pub nodes_remove : NodeSet → M ℤ
  nodes_remove s = do
    r ← call_kerrighed_services w (hotplug_remove (to_hotplug max_nodes s))
    return r.ret

  unfoldable pub nodes_fail : ℤ → NodeSet → M ℤ
  nodes_fail stack s = do
    r ← call_kerrighed_services w (hotplug_fail (to_hotplug_unset max_nodes stack s))
    return r.ret

  unfoldable pub nodes_poweroff : ℤ → NodeSet → M ℤ
  nodes_poweroff stack s = do
    r ← call_kerrighed_services w (hotplug_poweroff (to_hotplug_unset max_nodes stack s))
    return r.ret

  -- `krg_nodes_status`: the kernel fills the table that `krg_nodes_create` allocated.
  unfoldable pub nodes_status : M (Option Nodes)
  nodes_status = do
    struct ← alloc w
    elim struct [
      | none ↦ return none
      | some _ ↦ do
        block ← alloc w
        elim (Nodes.create max_nodes true block) [
          | none ↦ return none
          | some table ↦ do
            r ← call_kerrighed_services w hotplug_nodes
            return (
                if truthy r.ret
                then none
                else some (record { nodes = fit max_nodes (bytes_of r.out) }))
        ]
    ]

module _ (w : World) (max_clusters : ℕ) where
  unfoldable pub cluster_status : M (Option Clusters)
  cluster_status = do
    struct ← alloc w
    elim struct [
      | none ↦ return none
      | some _ ↦ do
        block ← alloc w
        elim (Nodes.create_clusters max_clusters true block) [
          | none ↦ return none
          | some table ↦ do
            r ← call_kerrighed_services w hotplug_status
            return (
                if truthy r.ret
                then none
                else some (record { clusters = fit max_clusters (bytes_of r.out) }))
        ]
    ]
