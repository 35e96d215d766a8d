-- ===== src/Examples/Hotplug.antt =====
-- The theorems about node sets, statuses and the start of the library, applied to the small cluster.
use kerrighed_tools.Base.{
  ℕ, ◌+◌, ◌≡◌, refl, [], ◌∷◌, pos, minus_one, length, get_or, ltb, if◌then◌else◌, arith, some,
}
use kerrighed_tools.Base.Loops.{each_from}
use kerrighed_tools.Hotplug.{invalid, possible, present, online}
use kerrighed_tools.Hotplug.NodeSet
use kerrighed_tools.Hotplug.NodeSet.{NodeSet, contains, marked}
use kerrighed_tools.Hotplug.NodeSet.Members.{IsValid}
use kerrighed_tools.Hotplug.NodeSet.Iteration.{walk_nodes, walk_nodes-each_from}
use kerrighed_tools.Hotplug.Mask.{hard_max_nodes, to_hotplug, to_hotplug_lem}
use kerrighed_tools.Hotplug.Nodes.{has, num, get}
use kerrighed_tools.Hotplug.Nodes.Select.{num-partition, get_lem}
use kerrighed_tools.Hotplug.Services.{Globals}
use kerrighed_tools.Examples.{status, two, two-IsValid}

-- Removing each member while the set is walked.
walk_nodes-each_from_example :
    walk_nodes 4 (λ s. s) (λ j s. (NodeSet.remove 4 s (pos j)).0) two
    ≡ each_from (λ j s. marked s j) (λ j s. (NodeSet.remove 4 s (pos j)).0) 4 0 two
walk_nodes-each_from_example =
    walk_nodes-each_from 4 (λ s. s) (λ j s. (NodeSet.remove 4 s (pos j)).0) two

to_hotplug_lem_example :
    (length (to_hotplug 4 two).v ≡ hard_max_nodes)
    × ((m : ℕ) → get_or (to_hotplug 4 two).v m 0 ≡ contains 4 two (pos m))
to_hotplug_lem_example = to_hotplug_lem 4 two (omega arith) two-IsValid

num-partition_example :
    num 4 status invalid + num 4 status possible + num 4 status present + num 4 status online ≡ 4
num-partition_example = num-partition 4 status (λ j. ground arith)

get_lem_example :
    (r : NodeSet) × (get 4 status online (some (pos 9)) (some (7 ∷ 7 ∷ 7 ∷ 7 ∷ [])) ≡ some r)
    × IsValid 4 r
    × ((m : ℕ)
        → contains 4 r (pos m) ≡ (if ltb m 4 then (if has status online m then 1 else 0) else 0))
    × (NodeSet.weight 4 r ≡ num 4 status online)
get_lem_example = get_lem 4 status online (pos 9) (7 ∷ 7 ∷ 7 ∷ 7 ∷ []) refl

-- The globals before the first call.
abbrev unknown : Globals
unknown = record { kerrighed_max_nodes = minus_one; kerrighed_max_clusters = minus_one }
