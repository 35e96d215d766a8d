-- ===== src/Hotplug/NodeSet/Weight.antt =====
-- `krg_node_set_weight`: how many nodes a set has, and what an operation does to that.
use kerrighed_tools.Base.{
  ℕ, ◌+◌, ◌≡◌, ◌≢◌, refl, ◌<◌, ◌≤◌, true, false, ℤ, pos, negsuc, if◌then◌else◌, arith, ltb, ltb→lt,
  ◌==◌, ==_refl, length, set, not, ◌&&◌, sym, Bool-cases, inl, inr,
}
use kerrighed_tools.Base.Loops.{count_from_flip, count_from_congr, count_from-le}
use kerrighed_tools.Hotplug.{in_range}
use kerrighed_tools.Hotplug.NodeSet.{NodeSet, marked, contains, add, remove, weight}
use kerrighed_tools.Hotplug.NodeSet.Members.{IsValid, get_or-set}

module _ (max_nodes : ℕ) where
  pub weight-le : (item : NodeSet) → weight max_nodes item ≤ max_nodes
  unfolding weight
  weight-le item = count_from-le (marked item) max_nodes 0

  pub weight_congr :
      (a b : NodeSet)
      → ((i : ℕ) → i < max_nodes → marked a i ≡ marked b i)
      → weight max_nodes a ≡ weight max_nodes b
  unfolding weight
  weight_congr a b h =
      count_from_congr (marked a) (marked b) max_nodes 0 0 (λ j p q. h j (omega arith))

  pub weight_flip :
      (a b : NodeSet) (n : ℕ)
      → n < max_nodes
      → marked a n ≡ false
      → marked b n ≡ true
      → ((j : ℕ) → j ≢ n → marked a j ≡ marked b j)
      → weight max_nodes b ≡ weight max_nodes a + 1
  unfolding weight
  weight_flip a b n h ea eb rest =
      count_from_flip (marked a) (marked b) max_nodes 0 n (omega arith) (omega arith) ea eb rest

  -- What writing a flag does to the test of the loops.
  marked-set :
      (item : NodeSet) (n j flag : ℕ)
      → n < length item.v
      → marked (record item { v = set item.v n flag }) j
        ≡ (if n == j then not (flag == 0) else marked item j)
  marked-set item n j flag h = rw (get_or-set item.v n j flag h) (ground arith)

  weight_raise :
      (item : NodeSet) (n : ℕ)
      → n < max_nodes
      → IsValid max_nodes item
      → weight max_nodes (record item { v = set item.v n 1 })
        ≡ (if marked item n then weight max_nodes item else weight max_nodes item + 1)
  weight_raise item n h v = elim (Bool-cases (marked item n)) [
    | inl m ↦ rw m (
        weight_congr _ item
          (λ i p. rw (marked-set item n i 1 (omega (arith, v.size))) (ground arith)))
    | inr m ↦ rw m (
        weight_flip item _ n h m (rw (marked-set item n n 1 (omega (arith, v.size)), ==_refl n))
          (λ j ne. rw (marked-set item n j 1 (omega (arith, v.size))) (ground arith)))
  ]

  weight_lower :
      (item : NodeSet) (n : ℕ)
      → n < max_nodes
      → IsValid max_nodes item
      → weight max_nodes (record item { v = set item.v n 0 }) + (if marked item n then 1 else 0)
        ≡ weight max_nodes item
  weight_lower item n h v = elim (Bool-cases (marked item n)) [
    | inl m ↦ rw m (
        sym (
          weight_flip _ item n h (rw (marked-set item n n 0 (omega (arith, v.size)), ==_refl n)) m
            (λ j ne. rw (marked-set item n j 0 (omega (arith, v.size))) (ground arith))))
    | inr m ↦ rw m (
        omega (
          arith,
          weight_congr (record item { v = set item.v n 0 }) item
              (λ i p. rw (marked-set item n i 0 (omega (arith, v.size))) (ground arith)),
        ))
  ]

  -- Adding a node makes a well-formed set heavier by one if the node is in range and was no
  -- member, and leaves the weight alone otherwise.
  weight-add :
      (item : NodeSet) (n : ℤ)
      → IsValid max_nodes item
      → weight max_nodes (add max_nodes item n).0 ≡ (
          if in_range max_nodes n && contains max_nodes item n == 0
          then weight max_nodes item + 1
          else weight max_nodes item)
  unfolding add contains
  weight-add item (negsuc n) v = refl
  weight-add item (pos n) v = elim (Bool-cases (ltb n max_nodes)) [
    | inl t ↦ rw (t, weight_raise item n (ltb→lt n max_nodes t) v) (ground arith)
    | inr t ↦ rw t refl
  ]

  -- Removing a node from a well-formed set makes it lighter by one if the node was a member, and
  -- leaves the weight alone otherwise.
  weight-remove :
      (item : NodeSet) (n : ℤ)
      → IsValid max_nodes item
      → weight max_nodes (remove max_nodes item n).0 + contains max_nodes item n
        ≡ weight max_nodes item
  unfolding remove contains
  weight-remove item (negsuc n) v = omega arith
  weight-remove item (pos n) v = elim (Bool-cases (ltb n max_nodes)) [
    | inl t ↦ rw t (ground (arith, weight_lower item n (ltb→lt n max_nodes t) v, v.flags n))
    | inr t ↦ rw t (omega arith)
  ]
