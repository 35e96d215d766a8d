-- ===== src/Examples/Krgadm.antt =====
-- The theorems about `krgadm nodes add` and `krgadm nodes del`, applied to the small cluster, in
-- which the command runs on node 0.
use kerrighed_tools.Base.{ℕ, ◌≡◌, refl, ◌&&◌, [], ◌∷◌, pos, ltb, if◌then◌else◌, arith, some}
use kerrighed_tools.Base.Loops.{count_from}
use kerrighed_tools.Kernel.{Log, call_kerrighed_services}
use kerrighed_tools.Hotplug.NodeSet.{NodeSet, contains}
use kerrighed_tools.Hotplug.NodeSet.Members.{IsValid}
use kerrighed_tools.Hotplug.Nodes
use kerrighed_tools.Hotplug.Nodes.{Nodes, has}
use kerrighed_tools.Hotplug.Services
use kerrighed_tools.Krgadm.{list, count, chosen}
use kerrighed_tools.Krgadm.Remove
use kerrighed_tools.Krgadm.Remove.{select_count, select_list, select_all}
use kerrighed_tools.Krgadm.Remove.Selection.{removable, select_all_lem}
use kerrighed_tools.Krgadm.Remove.Safety.{IsSafe, select-IsSafe}
use kerrighed_tools.Krgadm.Remove.Finishing.{Finishes, nodes_remove-Finishes}
use kerrighed_tools.Krgadm.Add.{poll, enough_present, wait_for_nodes_count}
use kerrighed_tools.Krgadm.Add.Waiting.{WillDo, IsEnd, poll-IsEnd, after_polls}
use kerrighed_tools.Krgadm.Add.Selection.{IsCounted, wait_for_nodes_count_lem}
use kerrighed_tools.Examples.{
  cluster, status, two, two-IsValid, nobody, nobody-IsFresh, cluster-Allocates, cluster-Knows,
}

-- The node that is present.
abbrev third : NodeSet
third = record { subclusterid = pos 0; v = 0 ∷ 0 ∷ 1 ∷ 0 ∷ [] }

select-IsSafe_example :
    IsSafe 4 status (pos 0) (Remove.select cluster 4 status (some two) (pos 2) count []).0
select-IsSafe_example =
    select-IsSafe cluster 4 status (pos 0) cluster-Knows cluster-Allocates two (pos 2) count []
      two-IsValid

select_all_lem_example :
    (r : NodeSet) × (log' : Log) × (select_all cluster 4 status nobody [] ≡ (chosen r, log'))
    × IsValid 4 r
    × ((m : ℕ) → contains 4 r (pos m) ≡ (if ltb m 4 && removable status (pos 0) m then 1 else 0))
select_all_lem_example =
    select_all_lem cluster 4 status (pos 0) cluster-Knows nobody [] nobody-IsFresh

-- The kernel of the cluster reports one present node, which is node 2.
one_present :
    WillDo cluster 4
      (enough_present 4 (pos 1))
      (Services.nodes_status cluster 4 (after_polls cluster 4 0 [])).0
unfolding after_polls Services.nodes_status call_kerrighed_services Nodes.create Nodes.num_present
    count_from
one_present = refl

poll-IsEnd_example :
    IsEnd cluster 4
      (enough_present 4 (pos 1))
      3
      []
      (poll cluster 4 (enough_present 4 (pos 1)) 3 []).0
poll-IsEnd_example =
    poll-IsEnd cluster 4 (enough_present 4 (pos 1)) 3 0 [] (omega arith) one_present

wait_for_nodes_count_lem_example :
    IsCounted cluster 4 3 [] 1 (wait_for_nodes_count cluster 4 3 (pos 1) nobody []).0
wait_for_nodes_count_lem_example =
    wait_for_nodes_count_lem cluster 4 3 0 0 nobody [] (omega arith) (omega arith) nobody-IsFresh
      one_present

-- The node set of the command line is 1 and 2, of which only node 1 can be removed.
nodes_remove-Finishes_example :
    Finishes cluster 4
      (pos 0)
      cluster-Knows
      []
      (Remove.nodes_remove cluster 4 (some two) (pos 0) list [])
nodes_remove-Finishes_example =
    nodes_remove-Finishes cluster 4 (pos 0) cluster-Knows cluster-Allocates (omega arith) two
      (pos 0) list [] two-IsValid
