-- ===== src/Hotplug/NodeSet/Loops.antt =====
-- What the loops that fill or thin a node set leave in it.
use kerrighed_tools.Base.{
  ℕ, zero, suc, ◌+◌, ◌≡◌, ◌<◌, Bool, true, pos, if◌then◌else◌, arith, ltb, leb, ◌&&◌, ◌==◌,
  Bool-cases, inl, inr, ◌∙◌,
}
use kerrighed_tools.Base.Loops.{each_from, count_from, count_from_congr}
use kerrighed_tools.Hotplug.NodeSet.{NodeSet, marked, contains, add, remove, weight}
use kerrighed_tools.Hotplug.NodeSet.Iteration.{walk_nodes, walk_nodes-each_from}
use kerrighed_tools.Hotplug.NodeSet.Members.{
  IsValid, contains-add, contains-remove, add-IsValid, remove-IsValid, marked-contains,
}

module _ (max_nodes : ℕ) where
  -- for (bcl = 0; bcl < kerrighed_max_nodes; bcl++) if (test(bcl)) krg_node_set_add(item, bcl);
  unfoldable pub fill : (ℕ → Bool) → NodeSet → NodeSet
  fill test item =
      each_from (λ bcl s. test bcl) (λ bcl s. (add max_nodes s (pos bcl)).0) max_nodes 0 item

  fill_from :
      (test : ℕ → Bool) (rounds i : ℕ) (item : NodeSet)
      → i + rounds ≡ max_nodes
      → IsValid max_nodes item
      → let r =
          each_from (λ bcl s. test bcl) (λ bcl s. (add max_nodes s (pos bcl)).0) rounds i item in
        IsValid max_nodes r
        × ((m : ℕ)
            → contains max_nodes r (pos m) ≡ (
                if leb i m && ltb m max_nodes && test m
                then 1
                else contains max_nodes item (pos m)))
  unfolding each_from
  fill_from test zero i item e v = (v, λ m. ground arith)
  fill_from test (suc rounds) i item e v = elim (Bool-cases (test i)) [
    | inl t ↦ rw t (
        let (v', h) =
          fill_from test rounds (i + 1) (add max_nodes item (pos i)).0 (omega arith)
            (add-IsValid max_nodes item (pos i) v) in
        (v', λ m. h m ∙ ground (arith, contains-add max_nodes item (pos i) (pos m) v)))
    | inr t ↦ rw t (
        let (v', h) = fill_from test rounds (i + 1) item (omega arith) v in
        (v', λ m. h m ∙ ground arith))
  ]

  pub fill-IsValid :
      (test : ℕ → Bool) (item : NodeSet)
      → IsValid max_nodes item
      → IsValid max_nodes (fill test item)
  unfolding fill
  fill-IsValid test item v = (fill_from test max_nodes 0 item (omega arith) v).0

  pub contains-fill :
      (test : ℕ → Bool) (item : NodeSet) (m : ℕ)
      → IsValid max_nodes item
      → contains max_nodes (fill test item) (pos m)
        ≡ (if ltb m max_nodes && test m then 1 else contains max_nodes item (pos m))
  unfolding fill
  contains-fill test item m v = (fill_from test max_nodes 0 item (omega arith) v).1 m ∙ ground arith

  -- A set weighs as many nodes as pass a test, if they are its members.
  pub weight-test :
      (test : ℕ → Bool) (item : NodeSet)
      → IsValid max_nodes item
      → ((i : ℕ) → i < max_nodes → contains max_nodes item (pos i) ≡ (if test i then 1 else 0))
      → weight max_nodes item ≡ count_from test max_nodes 0 0
  unfolding weight
  weight-test test item v h =
      count_from_congr (marked item) test max_nodes 0 0 (λ j p q.
        ground (arith, h j (omega arith), marked-contains max_nodes item j (omega arith) v))

-- A loop over the members whose body may remove the member that it is at, and leaves the rest.
module _ {S : Type 0} (max_nodes : ℕ) (view : S → NodeSet) (body : ℕ → S → S)
    (drop : ℕ → Bool) where
  module _
      (keep : (j : ℕ) (s : S)
        → view (body j s)
          ≡ (if drop j then (remove max_nodes (view s) (pos j)).0 else view s)) where
    thin_one :
        (i : ℕ) (s : S)
        → IsValid max_nodes (view s)
        → let r = view (if marked (view s) i then body i s else s) in
          IsValid max_nodes r
          × ((m : ℕ)
              → contains max_nodes r (pos m)
                ≡ (if i == m && drop m then 0 else contains max_nodes (view s) (pos m)))
    thin_one i s v = elim (Bool-cases (marked (view s) i)) [
      | inl t ↦
          rw (t, keep i s)
            (elim (Bool-cases (drop i)) [
              | inl d ↦ rw d (
                remove-IsValid max_nodes (view s) (pos i) v,
                λ m. contains-remove max_nodes (view s) (pos i) (pos m) v ∙ ground arith,
              )
              | inr d ↦ rw d (v, λ m. ground arith)
            ])
      | inr t ↦ rw t (v, λ m. unfold contains in ground (arith, v.flags i))
    ]

    thin_from :
        (rounds i : ℕ) (s : S)
        → i + rounds ≡ max_nodes
        → IsValid max_nodes (view s)
        → let r = view (each_from (λ j t. marked (view t) j) body rounds i s) in
          IsValid max_nodes r
          × ((m : ℕ)
              → contains max_nodes r (pos m)
                ≡ (if leb i m && drop m then 0 else contains max_nodes (view s) (pos m)))
    unfolding each_from
    thin_from zero i s e v = (v, λ m. unfold contains in ground arith)
    thin_from (suc rounds) i s e v =
        let (v1, h1) = thin_one i s v in
        let (v2, h2) =
          thin_from rounds (i + 1) (if marked (view s) i then body i s else s) (omega arith) v1 in
        (v2, λ m. h2 m ∙ ground (arith, h1 m))

    -- The loop over the members drops exactly those that its body drops.
    pub thin :
        (s : S)
        → IsValid max_nodes (view s)
        → let r = view (walk_nodes max_nodes view body s) in
          IsValid max_nodes r
          × ((m : ℕ)
              → contains max_nodes r (pos m)
                ≡ (if drop m then 0 else contains max_nodes (view s) (pos m)))
    thin s v =
        rw (walk_nodes-each_from max_nodes view body s)
          (let (v1, h1) = thin_from max_nodes 0 s (omega arith) v in (v1, λ m. h1 m ∙ ground arith))

-- A loop over all node numbers whose body may add the number that it is at.
module _ {S : Type 0} (max_nodes : ℕ) (view : S → NodeSet) (body : ℕ → S → S)
    (wanted : ℕ → Bool) where
  module _
      (keep : (j : ℕ) (s : S)
        → j < max_nodes
        → view (body j s) ≡ (if wanted j then (add max_nodes (view s) (pos j)).0 else view s)) where
    gather_from :
        (rounds i : ℕ) (s : S)
        → i + rounds ≡ max_nodes
        → IsValid max_nodes (view s)
        → let r = view (each_from (λ j t. true) body rounds i s) in
          IsValid max_nodes r
          × ((m : ℕ)
              → contains max_nodes r (pos m) ≡ (
                  if leb i m && ltb m max_nodes && wanted m
                  then 1
                  else contains max_nodes (view s) (pos m)))
    unfolding each_from
    gather_from zero i s e v = (v, λ m. ground arith)
    gather_from (suc rounds) i s e v = elim (Bool-cases (wanted i)) [
      | inl t ↦
          let added : view (body i s) ≡ (add max_nodes (view s) (pos i)).0 =
            rw (keep i s (omega arith), t) in
          let (v', h) =
            gather_from rounds (i + 1) (body i s) (omega arith)
              (rw added (add-IsValid max_nodes (view s) (pos i) v)) in
          (
            v',
            λ m. h m ∙ rw added (ground (arith, contains-add max_nodes (view s) (pos i) (pos m) v)),
          )
      | inr t ↦
          let same : view (body i s) ≡ view s = rw (keep i s (omega arith), t) in
          let (v', h) = gather_from rounds (i + 1) (body i s) (omega arith) (rw same v) in
          (v', λ m. h m ∙ rw same (ground arith))
    ]

    -- The loop adds exactly the numbers that its body adds.
    pub gather :
        (s : S)
        → IsValid max_nodes (view s)
        → let r = view (each_from (λ j t. true) body max_nodes 0 s) in
          IsValid max_nodes r
          × ((m : ℕ)
              → contains max_nodes r (pos m)
                ≡ (if ltb m max_nodes && wanted m then 1 else contains max_nodes (view s) (pos m)))
    gather s v =
        let (v', h) = gather_from max_nodes 0 s (omega arith) v in (v', λ m. h m ∙ ground arith)
