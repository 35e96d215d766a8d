-- ===== src/Krgadm/Add.antt =====
-- `nodes_add` of tools/krgadm.c with the two waits. A wait polls the kernel until the nodes are
-- there; it takes fuel, a bound on the number of polls.
pub mod Waiting
pub mod Selection
use kerrighed_tools.Base.{
  ℕ, zero, suc, ◌+◌, Bool, true, false, not, ◌&&◌, List, [], Option, none, some, ℤ, pos, negsuc,
  minus_one, pos_part, neg_part, sub_ℕ, ltb_ℤ, eqb_ℤ, ltb, ◌==◌, if◌then◌else◌,
}
use kerrighed_tools.Kernel.{World, M, Log, ◌>>=◌, return, truthy}
use kerrighed_tools.Hotplug.{present}
use kerrighed_tools.Hotplug.NodeSet
use kerrighed_tools.Hotplug.NodeSet.{NodeSet}
use kerrighed_tools.Hotplug.NodeSet.Iteration.{walk_nodes}
use kerrighed_tools.Hotplug.Nodes
use kerrighed_tools.Hotplug.Nodes.{Nodes}
use kerrighed_tools.Hotplug.Services
use kerrighed_tools.Hotplug.NodeSet.Loops.{fill}
use kerrighed_tools.Krgadm.{
  Mode, unset, all, count, total, list, Chosen, chosen, refused, crashed, polling, Done, returned,
  act_on,
}

-- n - b
abbrev pub minus : ℤ → ℕ → ℤ
minus n b = sub_ℕ (pos_part n) (neg_part n + b)

-- What a series of polls ends in: a status table that will do, a failed call, or no end yet.
pub data Polled : Type 0 where
  ready : Nodes → Polled
  failed unfinished : Polled

module _ (max_nodes : ℕ) where
  -- The second loop of `wait_for_nodes_count`: the next present node is added, `k` times.
  unfoldable pub pick : Nodes → ℕ → ℤ → NodeSet → NodeSet
  pick status zero cur s = s
  pick status (suc k) cur s =
      let cur' = Nodes.next_present max_nodes status cur in
      pick status k cur' (NodeSet.add max_nodes s cur').0

  -- The test that ends the first loop.
  abbrev pub enough_present : ℤ → Nodes → Bool
  enough_present i status = not (ltb_ℤ (pos (Nodes.num_present max_nodes status)) i)

  -- What `wait_for_nodes_count` does when its polls are over.
  unfoldable pub after_count : ℤ → NodeSet → Polled → Chosen
  after_count i s (ready status) = chosen (pick status (pos_part i) minus_one s)
  after_count i s failed = refused
  after_count i s unfinished = polling

  -- The same for `wait_for_nodes`.
  unfoldable pub after_wait : NodeSet → Polled → Chosen
  after_wait s (ready status) = chosen s
  after_wait s failed = refused
  after_wait s unfinished = polling

  -- The test of `wait_for_nodes`, its loop over all nodes: every member is present.
  unfoldable pub all_present : NodeSet → Nodes → ℕ → ℕ → Bool
  all_present s status zero bcl = true
  all_present s status (suc rounds) bcl =
      let rest = all_present s status rounds (bcl + 1) in
      if NodeSet.contains max_nodes s (pos bcl) == 0
      then rest
      else if truthy (Nodes.is_present max_nodes status (pos bcl))
      then rest
      else false

  -- The loop of NODES_MODE_LIST, which drops the nodes that are online.
  unfoldable pub drop_online : Nodes → NodeSet → NodeSet
  drop_online status =
      walk_nodes max_nodes (λ s. s)
        (λ node s.
          if truthy (Nodes.is_online max_nodes status (pos node))
          then (NodeSet.remove max_nodes s (pos node)).0
          else s)

module _ (w : World) (max_nodes : ℕ) where
  -- do { status = krg_nodes_status(); ... } while (not yet); both waits poll like this.
  unfoldable pub poll : (Nodes → Bool) → ℕ → M Polled
  poll enough zero = return unfinished
  poll enough (suc fuel) = do
    status ← Services.nodes_status w max_nodes
    elim status [
      | none ↦ return failed
      | some table ↦
          let again = poll enough fuel in if enough table then return (ready table) else again
    ]

  unfoldable pub wait_for_nodes_count : ℕ → ℤ → NodeSet → M Chosen
  wait_for_nodes_count fuel i s =
      if ltb_ℤ (pos 0) i
      then (if ltb_ℤ (pos max_nodes) i then return refused else (do
        polled ← poll (enough_present max_nodes i) fuel
        return (after_count max_nodes i s polled)))
      else return (chosen s)

  unfoldable pub wait_for_nodes : ℕ → NodeSet → M Chosen
  unfolding all_present
  wait_for_nodes fuel s =
      if ltb 0 (NodeSet.weight max_nodes s)
      then (do
        polled ← poll (λ status. all_present max_nodes s status max_nodes 0) fuel
        return (after_wait max_nodes s polled))
      else return (chosen s)

  -- A NULL set is read only where the wait ends well.
  count_on_new_set : ℕ → ℤ → M Chosen
  count_on_new_set fuel n = do
    made ← Services.node_set_create w max_nodes
    elim made [
      | none ↦ do
        waited ← wait_for_nodes_count fuel n (record { subclusterid = pos 0; v = [] })
        return (elim waited [
          | chosen s ↦ crashed
          | refused ↦ refused
          | crashed ↦ crashed
          | polling ↦ polling
        ])
      | some s ↦ wait_for_nodes_count fuel n s
    ]

  -- The switch over the mode; `given` is the set of `--nodes`.
  unfoldable pub select : ℕ → Nodes → Option NodeSet → ℤ → Mode → M Chosen
  unfolding count_on_new_set
  select fuel status given n all = do
    made ← Services.node_set_create w max_nodes
    return (elim made [
      | none ↦ refused
      | some s ↦ chosen (fill max_nodes (Nodes.has status present) s)
    ])
  select fuel status none n list = return crashed
  select fuel status (some s) n list = wait_for_nodes fuel (drop_online max_nodes status s)
  select fuel status given n total =
      count_on_new_set fuel (minus n (Nodes.num_online max_nodes status))
  select fuel status given n count = count_on_new_set fuel n
  select fuel status given n unset = return refused

  unfoldable pub nodes_add : ℕ → Option NodeSet → ℤ → Mode → M Done
  unfolding select
  nodes_add fuel given n mode = do
    status ← Services.nodes_status w max_nodes
    elim status [
      | none ↦ return (returned minus_one)
      | some table ↦ do
        picked ← select fuel table given n mode
        act_on w max_nodes (Services.nodes_add w max_nodes) picked
    ]
