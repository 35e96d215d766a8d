-- ===== src/Hotplug/Nodes/Select.antt =====
-- What the status queries of libs/libkerrighed/libhotplug.c select.
use kerrighed_tools.Base.{
  ℕ, zero, suc, ◌+◌, ◌-◌, ◌≡◌, refl, ◌∙◌, ◌≤◌, Bool, true, false, ltb, some, List, ℤ, pos, length,
  get_or, if◌then◌else◌, arith,
}
use kerrighed_tools.Base.Loops.{count_from, count_from-add, Found, find_from-Found}
use kerrighed_tools.Hotplug.{Status, invalid, possible, present, online, after}
use kerrighed_tools.Hotplug.NodeSet
use kerrighed_tools.Hotplug.NodeSet.{NodeSet}
use kerrighed_tools.Hotplug.NodeSet.Members.{IsValid, create_lem}
use kerrighed_tools.Hotplug.NodeSet.Loops.{fill, fill-IsValid, contains-fill, weight-test}
use kerrighed_tools.Hotplug.Nodes.{Nodes, has, num, get, next}

-- Four counts over one range, where each index passes exactly one of the tests.
count_partition :
    (f g h k : ℕ → Bool) (rounds i : ℕ)
    → ((j : ℕ)
        → (if f j then 1 else 0)
            + (if g j then 1 else 0)
            + (if h j then 1 else 0)
            + (if k j then 1 else 0)
          ≡ 1)
    → count_from f rounds i 0
        + count_from g rounds i 0
        + count_from h rounds i 0
        + count_from k rounds i 0
      ≡ rounds
unfolding count_from
count_partition f g h k zero i e = omega arith
count_partition f g h k (suc rounds) i e = omega (
  arith,
  e i,
  count_partition f g h k rounds (i + 1) e,
  count_from-add f rounds (i + 1) (if f i then 0 + 1 else 0),
  count_from-add g rounds (i + 1) (if g i then 0 + 1 else 0),
  count_from-add h rounds (i + 1) (if h i then 0 + 1 else 0),
  count_from-add k rounds (i + 1) (if k i then 0 + 1 else 0),
  one (f i),
  one (g i),
  one (h i),
  one (k i),
)
  where
    one : (b : Bool) → (if b then 0 + 1 else 0) ≡ (if b then 1 else 0)
    one true = omega arith
    one false = refl

module _ (max_nodes : ℕ) where
  -- Where every status byte is one of the four statuses, the counts of `krg_nodes_num` add up to
  -- the number of nodes.
  pub num-partition :
      (nodes : Nodes)
      → ((j : ℕ) → get_or nodes.nodes j 0 ≤ 3)
      → num max_nodes nodes invalid
          + num max_nodes nodes possible
          + num max_nodes nodes present
          + num max_nodes nodes online
        ≡ max_nodes
  unfolding num
  num-partition nodes h =
      count_partition (has nodes invalid) (has nodes possible) (has nodes present)
        (has nodes online) max_nodes 0 (λ j. ground (arith, h j))

  -- When the allocations succeed, `krg_nodes_get` returns the well-formed set of exactly the nodes
  -- that have the given status, and it weighs what `krg_nodes_num` counts.
  pub get_lem :
      (nodes : Nodes) (s : Status) (id : ℤ) (block : List ℕ)
      → length block ≡ max_nodes
      → (r : NodeSet) × (get max_nodes nodes s (some id) (some block) ≡ some r)
        × IsValid max_nodes r
        × ((m : ℕ)
            → NodeSet.contains max_nodes r (pos m)
              ≡ (if ltb m max_nodes then (if has nodes s m then 1 else 0) else 0))
        × (NodeSet.weight max_nodes r ≡ num max_nodes nodes s)
  unfolding get num
  get_lem nodes s id block e =
      let (item, made, v, sub, empty) = create_lem max_nodes id block e in
      let r = fill max_nodes (has nodes s) item in
      let members : (m : ℕ)
          → NodeSet.contains max_nodes r (pos m)
            ≡ (if ltb m max_nodes then (if has nodes s m then 1 else 0) else 0) =
        λ m. contains-fill max_nodes (has nodes s) item m v ∙ ground (arith, empty (pos m)) in
      let v' = fill-IsValid max_nodes (has nodes s) item v in
      (
        r,
        rw (made, get),
        v',
        members,
        weight-test max_nodes (has nodes s) r v' (λ i h. members i ∙ ground arith),
      )

  -- `krg_nodes_next` returns the least node above `node` that has the given status, and -1 when
  -- there is none.
  next-Found :
      (nodes : Nodes) (node : ℤ) (s : Status)
      → Found
          (has nodes s)
          (after node)
          (after node + (max_nodes - after node))
          (next max_nodes nodes node s)
  unfolding next
  next-Found nodes node s =
      find_from-Found (has nodes s) (max_nodes - after node) (after node) _ refl
