-- ===== src/Hotplug/NodeSet/Iteration.antt =====
-- `krg_node_set_next`, and the loop of its callers:
-- node = next(set, -1); while (node != -1) { body; node = next(set, node); }
use kerrighed_tools.Base.{
  ℕ, zero, suc, ◌+◌, ◌-◌, ◌≡◌, refl, ◌<◌, ◌≤◌, false, ℤ, pos, negsuc, minus_one, arith, Bool-cases,
  inl, inr,
}
use native.Mathlib.Decide.{dec_lt}
use kerrighed_tools.Base.Loops.{find_from, find_from-Found, Found, hit, miss, each_from}
use kerrighed_tools.Hotplug.{after}
use kerrighed_tools.Hotplug.NodeSet.{NodeSet, marked, contains, next}
use kerrighed_tools.Hotplug.NodeSet.Members.{IsValid, marked-contains}

-- The least member above `node`, or -1 and no member above `node`.
pub data IsNext (max_nodes : ℕ) (item : NodeSet) (node : ℤ) (r : ℤ) : Type 0 where
  member :
      (i : ℕ)
      → r ≡ pos i
      → after node ≤ i
      → contains max_nodes item (pos i) ≡ 1
      → ((j : ℕ) → after node ≤ j → j < i → contains max_nodes item (pos j) ≡ 0)
      → IsNext max_nodes item node r
  none_left :
      r ≡ minus_one
      → ((j : ℕ) → after node ≤ j → contains max_nodes item (pos j) ≡ 0)
      → IsNext max_nodes item node r

module _ (max_nodes : ℕ) where
  unmarked :
      (item : NodeSet) (j : ℕ)
      → IsValid max_nodes item
      → marked item j ≡ false
      → contains max_nodes item (pos j) ≡ 0
  unfolding contains
  unmarked item j v e = ground arith

  unmarked_above :
      (item : NodeSet) (j k : ℕ)
      → IsValid max_nodes item
      → k ≤ j
      → ((j : ℕ) → k ≤ j → j < k + (max_nodes - k) → marked item j ≡ false)
      → contains max_nodes item (pos j) ≡ 0
  unmarked_above item j k v lo before = elim (dec_lt j max_nodes) [
    | yes p ↦ unmarked item j v (before j lo (omega arith))
    | no p ↦ unfold contains in ground arith
  ]

  Found-IsNext :
      (item : NodeSet) (node : ℤ) (r : ℤ)
      → IsValid max_nodes item
      → Found (marked item) (after node) (after node + (max_nodes - after node)) r
      → IsNext max_nodes item node r
  Found-IsNext item node r v (hit i e lo hi t before) =
      member i e lo (rw (marked-contains max_nodes item i (omega arith) v, t))
        (λ j p q. unmarked item j v (before j p q))
  Found-IsNext item node r v (miss e before) =
      none_left e (λ j lo. unmarked_above item j (after node) v lo before)

  -- On a well-formed set, `krg_node_set_next` returns the least member above `node`, or -1 when there
  -- is none.
  next-IsNext :
      (item : NodeSet) (node : ℤ)
      → IsValid max_nodes item
      → IsNext max_nodes item node (next max_nodes item node)
  unfolding next
  next-IsNext item node v =
      Found-IsNext item node _ v
        (find_from-Found (marked item) (max_nodes - after node) (after node) _ refl)

module _ {S : Type 0} (max_nodes : ℕ) (view : S → NodeSet) (body : ℕ → S → S) where
  -- The loop, on fuel. The body may change the set that is walked.
  pub walk : ℕ → ℤ → S → S
  walk zero node s = s
  walk (suc fuel) (negsuc n) s = s
  walk (suc fuel) (pos node) s =
      let s' = body node s in walk fuel (next max_nodes (view s') (pos node)) s'

  unfoldable pub walk_nodes : S → S
  walk_nodes s = walk (suc max_nodes) (next max_nodes (view s) minus_one) s

  walk-find_from :
      (rounds i fuel : ℕ) (s : S)
      → i + rounds ≡ max_nodes
      → rounds < fuel
      → walk fuel (find_from (marked (view s)) rounds i) s
        ≡ each_from (λ j t. marked (view t) j) body rounds i s
  unfolding walk find_from each_from next
  walk-find_from rounds i zero s e h = absurd (omega arith)
  walk-find_from zero i (suc fuel) s e h = refl
  walk-find_from (suc rounds) i (suc fuel) s e h = elim (Bool-cases (marked (view s) i)) [
    | inl t ↦ rw t (
        let q : max_nodes - (i + 1) ≡ rounds = omega arith in
        rw (next, q) (walk-find_from rounds (i + 1) fuel (body i s) (omega arith) (omega arith)))
    | inr t ↦ rw t (walk-find_from rounds (i + 1) (suc fuel) s (omega arith) (omega arith))
  ]

  -- The loop of the callers, which asks `next` again after each round, is the loop over all node
  -- numbers that runs the body on the members: it ends within its fuel, visits each member once
  -- and in ascending order, and sees what the body does to the part of the set that lies ahead.
  pub walk_nodes-each_from :
      (s : S) → walk_nodes s ≡ each_from (λ j t. marked (view t) j) body max_nodes 0 s
  unfolding walk_nodes next
  walk_nodes-each_from s =
      let q : max_nodes - 0 ≡ max_nodes = omega arith in
      rw (walk_nodes, next, q)
        (walk-find_from max_nodes 0 (suc max_nodes) s (omega arith) (omega arith))
