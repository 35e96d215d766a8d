-- ===== src/Examples/Commands.antt =====
-- The theorems about the command line of krgadm, applied to small node sets and to the small cluster.
use kerrighed_tools.Base.{
  ℕ, false, ◌≡◌, ◌⊎◌, ◌<◌, ◌*◌, ◌+◌, ◌++◌, refl, [], ◌∷◌, List, ℤ, pos, minus_one, length, arith,
}
use kerrighed_tools.Kernel.{Log, call_kerrighed_services}
use kerrighed_tools.Hotplug.NodeSet.{contains}
use kerrighed_tools.Hotplug.Services.{
  Globals, check_hotplug, hotplug_init, get_max_nodes, get_max_clusters,
}
use kerrighed_tools.Text.Split.{split}
use kerrighed_tools.Krgadm.{returned}
use kerrighed_tools.Text.{scan, strtol, after_first}
use kerrighed_tools.Krgadm.Parse.{whole_number, parse_nodes, node_set_str}
use kerrighed_tools.Krgadm.Parse.Ranges.{endless}
use kerrighed_tools.Krgadm.Parse.RoundTrip.{
  single, range, print_all, covered, Extends, parse_nodes-print_all,
}
use kerrighed_tools.Krgadm.Parse.Items.{parse_items, parse_nodes-parse_items}
use kerrighed_tools.Krgadm.Parse.Printing.Length.{length-node_set_str}
use kerrighed_tools.Krgadm.Parse.Printing.ReadBack.{parse_nodes-node_set_str}
use kerrighed_tools.Krgadm.Commands.{nodes, nodes_action, del, nodes_opt}
use kerrighed_tools.Krgadm.Commands.Deletion.{Ends, nodes_of, nodes-del}
use kerrighed_tools.Krgadm.Remove.Requests.{removals}
use kerrighed_tools.Examples.{
  cluster, two, two-IsValid, nobody, nobody-IsValid, nobody-IsFresh, cluster-Allocates,
  cluster-Knows,
}

-- "1-2,0"
parse_nodes-print_all_example :
    ((parse_nodes 4 (print_all (range 1 2) (single 0 ∷ [])) nobody).1 ≡ returned (pos 1))
    × Extends 4
        (covered (range 1 2 ∷ single 0 ∷ []))
        nobody
        (parse_nodes 4 (print_all (range 1 2) (single 0 ∷ [])) nobody).0
parse_nodes-print_all_example =
    parse_nodes-print_all 4 (range 1 2) (single 0 ∷ []) nobody
      ((omega arith, omega arith), (omega arith, tt)) nobody-IsValid

-- "1,x"
parse_nodes-parse_items_example :
    parse_nodes 4 (b'1' ∷ b',' ∷ b'x' ∷ []) nobody
    ≡ parse_items 4 (split b',' (b'1' ∷ b',' ∷ b'x' ∷ [])) nobody
parse_nodes-parse_items_example = parse_nodes-parse_items 4 (b'1' ∷ b',' ∷ b'x' ∷ []) nobody

length-node_set_str_example : length (node_set_str 4 two) < 4 * 4 + 2
length-node_set_str_example = length-node_set_str 4 two (omega arith) (omega arith)

parse_nodes-node_set_str_example :
    (body : List ℕ) × (node_set_str 4 two ≡ b'[' ∷ (body ++ (b']' ∷ [])))
    × (((body ≡ []) × ((n : ℤ) → contains 4 two n ≡ 0))
        ⊎ (((parse_nodes 4 body nobody).1 ≡ returned (pos 1))
            × ((n : ℤ) → contains 4 (parse_nodes 4 body nobody).0 n ≡ contains 4 two n)))
parse_nodes-node_set_str_example =
    parse_nodes-node_set_str 4 two nobody (omega arith) two-IsValid nobody-IsFresh

abbrev unset_globals : Globals
unset_globals = record { kerrighed_max_nodes = minus_one; kerrighed_max_clusters = minus_one }

four_nodes : (log : Log) → nodes_of cluster unset_globals log ≡ 4
unfolding hotplug_init get_max_nodes get_max_clusters call_kerrighed_services
four_nodes log = refl

deletes : nodes_action ("del" ∷ []) ≡ del
unfolding nodes_action
deletes = refl

-- "1-2"
bounded : endless (b'1' ∷ b'-' ∷ b'2' ∷ []) ≡ false
unfolding whole_number strtol scan split after_first
bounded = refl

nodes-del_example :
    (log₀ : Log) × (removals log₀ ≡ removals [])
    × Ends cluster
        (nodes_of cluster unset_globals (check_hotplug cluster []).1)
        (pos 0)
        cluster-Knows
        log₀
        (nodes cluster 0 ("del" ∷ []) (nodes_opt (b'1' ∷ b'-' ∷ b'2' ∷ []) ∷ []) unset_globals [])
nodes-del_example =
    nodes-del cluster (pos 0) cluster-Knows cluster-Allocates 0 ("del" ∷ [])
      (nodes_opt (b'1' ∷ b'-' ∷ b'2' ∷ []) ∷ []) unset_globals [] deletes (bounded, tt)
      (λ log. rw (four_nodes log) (omega arith))
