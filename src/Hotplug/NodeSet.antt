-- ===== src/Hotplug/NodeSet.antt =====
-- `struct krg_node_set` and its operations, of libs/libkerrighed/libhotplug.c. The array has
-- `kerrighed_max_nodes` bytes, each 0 or 1; a node number is a C int.
pub mod Members
pub mod Iteration
pub mod Weight
pub mod Loops
use kerrighed_tools.Base.{
  ℕ, zero, suc, ◌+◌, ◌-◌, ◌≡◌, Bool, not, Option, none, some, List, ℤ, pos, negsuc, pos_part,
  minus_one, length, get_or, set, ◌==◌, if◌then◌else◌,
}
use kerrighed_tools.Base.Loops.{find_from, count_from}
use kerrighed_tools.Hotplug.{in_range, after}

pub record NodeSet : Type 0 where
  pub subclusterid : ℤ
  pub v : List ℕ

-- The test `node_set->v[bcl]` of the loops.
abbrev pub marked : NodeSet → ℕ → Bool
marked item bcl = not (get_or item.v bcl 0 == 0)

-- for (bcl...; rounds are left; bcl++) item->v[bcl] = 0;
clear_from : ℕ → ℕ → List ℕ → List ℕ
clear_from zero bcl v = v
clear_from (suc rounds) bcl v = clear_from rounds (bcl + 1) (set v bcl 0)

-- `max_nodes` is the global `kerrighed_max_nodes`, as `krg_hotplug_init` leaves it on success.
module _ (max_nodes : ℕ) where
  unfoldable pub clear : NodeSet → NodeSet
  unfolding clear_from
  clear item = record { subclusterid = pos 0; v = clear_from max_nodes 0 item.v }

  -- `item` is the struct of the first `malloc` and `block` the bytes of the second, with whatever
  -- they hold; `none` is NULL.
  unfoldable pub create : Option ℤ → Option (List ℕ) → Option NodeSet
  create none block = none
  create (some id) none = none
  create (some id) (some block) = some (clear (record { subclusterid = id; v = block }))

  unfoldable pub add : NodeSet → ℤ → NodeSet × ℤ
  add item n =
      if in_range max_nodes n
      then (record item { v = set item.v (pos_part n) 1 }, pos 0)
      else (item, minus_one)

  unfoldable pub remove : NodeSet → ℤ → NodeSet × ℤ
  remove item n =
      if in_range max_nodes n
      then (record item { v = set item.v (pos_part n) 0 }, pos 0)
      else (item, minus_one)

  unfoldable pub contains : NodeSet → ℤ → ℕ
  contains node_set n = if in_range max_nodes n then get_or node_set.v (pos_part n) 0 else 0

  unfoldable pub weight : NodeSet → ℕ
  weight node_set = count_from (marked node_set) max_nodes 0 0

  unfoldable pub next : NodeSet → ℤ → ℤ
  next node_set node = find_from (marked node_set) (max_nodes - after node) (after node)
