-- ===== src/Krgadm/Remove/First.antt =====
-- The modes of `nodes_remove` (tools/krgadm.c) that take the first nodes out of the cluster.
use kerrighed_tools.Base.{
  ℕ, ◌≡◌, refl, ◌∙◌, Bool, true, false, ◌&&◌, ℤ, pos, pos_part, ltb_ℤ, ltb, if◌then◌else◌, arith,
  Bool-cases, inl, inr, ◌⊎◌,
}
use kerrighed_tools.Base.Loops.{count_from}
use kerrighed_tools.Base.Ranks.{first_of, rank-first_of}
use kerrighed_tools.Kernel.{World, Log}
use kerrighed_tools.Hotplug.{online}
use kerrighed_tools.Hotplug.NodeSet.{NodeSet, contains, weight}
use kerrighed_tools.Hotplug.NodeSet.Members.{IsValid, marked-contains}
use kerrighed_tools.Hotplug.NodeSet.Iteration.{walk_nodes, walk_nodes-each_from}
use kerrighed_tools.Hotplug.NodeSet.Loops.{weight-test}
use kerrighed_tools.Hotplug.Nodes.{Nodes, has}
use kerrighed_tools.Krgadm.{chosen, refused}
use kerrighed_tools.Krgadm.Remove.{Counted, count_body, select_count}
use kerrighed_tools.Krgadm.Remove.Selection.{Knows, removable}
use kerrighed_tools.Krgadm.Remove.Counting.{online-le-removable, Before, loop_lem}

module _ (w : World) (max_nodes : ℕ) (status : Nodes) (self : ℤ) (knows : Knows w self)
    (n : ℤ) where
  abbrev State : Type 0
  State = Counted w max_nodes status

  abbrev kept : ℕ → Bool
  kept = first_of (removable status self) (pos_part n)

  abbrev pub IsOnlineSet : NodeSet → Type 0
  IsOnlineSet s =
      (m : ℕ)
      → contains max_nodes s (pos m)
        ≡ (if ltb m max_nodes then (if has status online m then 1 else 0) else 0)

  abbrev start : NodeSet → Log → State
  start s log = record { set = s; log = log; bcl = 0 }

  start-Before :
      (s : NodeSet) (log : Log)
      → IsValid max_nodes s
      → IsOnlineSet s
      → Before w max_nodes status self knows n 0 (start s log)
  start-Before s log v members = record {
    valid = v;
    ahead = λ j lo hi. ground (arith, members j, marked-contains max_nodes s j hi v);
    counted = unfold count_from in omega arith;
  }

  abbrev end_of : NodeSet → Log → State
  end_of s log = walk_nodes max_nodes (λ t. t.set) (count_body w max_nodes status n) (start s log)

  end_lem :
      (s : NodeSet) (log : Log)
      → IsValid max_nodes s
      → IsOnlineSet s
      → IsValid max_nodes (end_of s log).set
        × ((m : ℕ)
            → contains max_nodes (end_of s log).set (pos m)
              ≡ (if ltb m max_nodes && kept m then 1 else 0))
  end_lem s log v members =
      rw
        (walk_nodes-each_from max_nodes (λ t. t.set) (count_body w max_nodes status n)
          (start s log))
        (let (v', h) =
            loop_lem w max_nodes status self knows n max_nodes 0 (start s log) (omega arith)
              (start-Before s log v members) in
          (v', λ m. h m ∙ ground (arith, members m)))

  weight_lem :
      (s r : NodeSet)
      → IsValid max_nodes s
      → IsOnlineSet s
      → IsValid max_nodes r
      → ((m : ℕ) → contains max_nodes r (pos m) ≡ (if ltb m max_nodes && kept m then 1 else 0))
      → ltb_ℤ n (pos (weight max_nodes s)) ≡ true
      → weight max_nodes r ≡ pos_part n
  weight_lem s r v members v' members' enough =
      weight-test max_nodes kept r v' (λ i h. members' i ∙ ground arith)
      ∙ rank-first_of (removable status self) (pos_part n) max_nodes
      ∙ ground (
        arith,
        online-le-removable status self max_nodes,
        weight-test max_nodes (has status online) s v (λ i h. members i ∙ ground arith),
      )

  -- In the modes of `--count` and `--total`, where `s` is the well-formed set of the online nodes and
  -- the kernel always tells the same node number: with no more than `n` online nodes, it refuses. With
  -- more, exactly the first `n` online nodes that are not the current one are selected (none for a
  -- negative `n`), and these are `n` nodes.
  pub select_count_lem :
      (s : NodeSet) (log : Log)
      → IsValid max_nodes s
      → IsOnlineSet s
      → ((ltb_ℤ n (pos (weight max_nodes s)) ≡ false)
          × (select_count w max_nodes status n s log ≡ (refused, log)))
        ⊎ ((r : NodeSet) × (log' : Log) × (select_count w max_nodes status n s log
              ≡ (chosen r, log'))
            × IsValid max_nodes r
            × ((m : ℕ)
                → contains max_nodes r (pos m) ≡ (
                    if ltb m max_nodes && first_of (removable status self) (pos_part n) m
                    then 1
                    else 0))
            × (weight max_nodes r ≡ pos_part n)
            × (ltb_ℤ n (pos (weight max_nodes s)) ≡ true))
  unfolding select_count
  select_count_lem s log v members = elim (Bool-cases (ltb_ℤ n (pos (weight max_nodes s)))) [
    | inr few ↦ inl (few, rw few refl)
    | inl enough ↦
        let (v', h) = end_lem s log v members in
        inr (
          (end_of s log).set,
          (end_of s log).log,
          rw enough refl,
          v',
          h,
          weight_lem s (end_of s log).set v members v' h enough,
          enough,
        )
  ]
