-- ===== src/Krgadm/Remove.antt =====
-- `nodes_remove` of tools/krgadm.c: which nodes each mode takes out of the cluster.
pub mod Selection
pub mod Counting
pub mod First
pub mod Safety
pub mod Modes
pub mod Requests
pub mod Finishing
use kerrighed_tools.Base.{
  ℕ, ◌+◌, Bool, true, false, Option, none, some, ℤ, pos, negsuc, pos_part, neg_part, sub_ℕ, eqb_ℤ,
  ltb_ℤ, if◌then◌else◌,
}
use kerrighed_tools.Base.Loops.{each_from}
use kerrighed_tools.Kernel.{World, M, Log, ◌>>=◌, return, truthy}
use kerrighed_tools.Hotplug.NodeSet
use kerrighed_tools.Hotplug.NodeSet.{NodeSet}
use kerrighed_tools.Hotplug.NodeSet.Iteration.{walk_nodes}
use kerrighed_tools.Hotplug.NodeSet.Loops.{fill}
use kerrighed_tools.Hotplug.Nodes
use kerrighed_tools.Hotplug.Nodes.{Nodes}
use kerrighed_tools.Hotplug.Services
use kerrighed_tools.Proc.{get_node_id}
use kerrighed_tools.Krgadm.{
  Mode, unset, all, count, total, list, Chosen, chosen, refused, crashed, with_new_set, Done,
  returned, act_on,
}
use kerrighed_tools.Hotplug.{online}

-- a - b
abbrev pub minus : ℕ → ℤ → ℤ
minus a b = sub_ℕ (a + neg_part b) (pos_part b)

module _ (w : World) (max_nodes : ℕ) (status : Nodes) where
  -- A loop's state is the set beside the calls made so far.
  abbrev pub Walk : Type 0
  Walk = record { set : NodeSet; log : Log }

  abbrev pub drop_node : ℕ → NodeSet → NodeSet
  drop_node node s = (NodeSet.remove max_nodes s (pos node)).0

  -- The body of the loop of NODES_MODE_ALL.
  all_body : ℕ → Walk → Walk
  all_body bcl s =
      if truthy (Nodes.is_online max_nodes status (pos bcl))
      then (let (self, log') = get_node_id w s.log in
          record {
            set =
                (if eqb_ℤ self (pos bcl) then s.set else (NodeSet.add max_nodes s.set (pos bcl)).0);
            log = log';
          })
      else s

  -- The body of the loop of NODES_MODE_LIST.
  list_body : ℕ → Walk → Walk
  list_body node s =
      if truthy (Nodes.is_online max_nodes status (pos node))
      then (let (self, log') = get_node_id w s.log in
          record {
            set = (if eqb_ℤ self (pos node) then drop_node node s.set else s.set);
            log = log';
          })
      else record s { set = drop_node node s.set }

  abbrev pub Counted : Type 0
  Counted = record { set : NodeSet; log : Log; bcl : ℕ }

  -- The body of the loop of NODES_MODE_COUNT, which keeps the first `n` nodes but the current one.
  pub count_body : ℤ → ℕ → Counted → Counted
  count_body n node s =
      if ltb_ℤ (pos s.bcl) n
      then (let (self, log') = get_node_id w s.log in
          if eqb_ℤ self (pos node)
          then record { set = drop_node node s.set; log = log'; bcl = s.bcl }
          else record { set = s.set; log = log'; bcl = s.bcl + 1 })
      else record s { set = drop_node node s.set }

  unfoldable pub select_all : NodeSet → M Chosen
  unfolding all_body
  select_all s log =
      let r = each_from (λ bcl t. true) all_body max_nodes 0 (record { set = s; log = log }) in
      (chosen r.set, r.log)

  unfoldable pub select_list : NodeSet → M Chosen
  unfolding list_body
  select_list s log =
      let r = walk_nodes max_nodes (λ t. t.set) list_body (record { set = s; log = log }) in
      (chosen r.set, r.log)

  unfoldable pub select_count : ℤ → NodeSet → M Chosen
  unfolding count_body
  select_count n s log =
      if ltb_ℤ n (pos (NodeSet.weight max_nodes s))
      then (let r =
            walk_nodes max_nodes (λ t. t.set) (count_body n)
              (record { set = s; log = log; bcl = 0 }) in
          (chosen r.set, r.log))
      else (refused, log)

  -- `krg_nodes_get_online` on the set that it allocates.
  unfoldable pub get_online : NodeSet → NodeSet
  get_online s = fill max_nodes (Nodes.has status online) s

  -- The switch over the mode; `given` is the set of `--nodes`.
  unfoldable pub select : Option NodeSet → ℤ → Mode → M Chosen
  unfolding select_all select_list select_count get_online
  select given n all = with_new_set w max_nodes select_all
  select none n list = return crashed
  select (some s) n list = select_list s
  select given n total =
      with_new_set w max_nodes
        (λ s. select_count (minus (Nodes.num_online max_nodes status) n) (get_online s))
  select given n count = with_new_set w max_nodes (λ s. select_count n (get_online s))
  select given n unset = return refused

module _ (w : World) (max_nodes : ℕ) where
  unfoldable pub nodes_remove : Option NodeSet → ℤ → Mode → M Done
  unfolding select
  nodes_remove given n mode = do
    status ← Services.nodes_status w max_nodes
    elim status [
      | none ↦ return (returned (negsuc 0))
      | some table ↦ do
        picked ← select w max_nodes table given n mode
        act_on w max_nodes (Services.nodes_remove w max_nodes) picked
    ]
