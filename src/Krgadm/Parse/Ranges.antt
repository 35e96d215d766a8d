-- ===== src/Krgadm/Parse/Ranges.antt =====
-- When the loop over a range of tools/krgadm.c has no end: only for a range up to the greatest int.
use kerrighed_tools.Base.{
  ℕ, zero, suc, ◌+◌, ◌≡◌, ◌≢◌, ◌≤◌, Bool, false, ◌||◌, List, [], ◌∷◌, Option, none, some, ℤ, pos,
  negsuc, minus_one, pos_part, neg_part, eqb_ℤ, int_of_long, leb, ◌==◌, if◌then◌else◌, arith,
  Bool-cases, inl, inr,
}
use kerrighed_tools.Text.{strtol, at_last, after_first}
use kerrighed_tools.Text.Split.{split}
use kerrighed_tools.Hotplug.NodeSet
use kerrighed_tools.Hotplug.NodeSet.{NodeSet}
use kerrighed_tools.Krgadm.{Done, returned, crash, no_end}
use kerrighed_tools.Krgadm.Parse.{
  whole_number, rounds, suc_ℤ, int_max, then_parse, add_range, parse_end, parse_node,
  parse_nodes_interval, parse_item, parse_nodes,
}
use kerrighed_tools.Krgadm.Parse.Items.{parse_items, add_range-Result, parse_nodes-parse_items}

-- A loop that ended.
abbrev pub Returned : Done → Type 0
Returned (returned r) = Unit
Returned crash = ⊥
Returned no_end = ⊥

-- Whether the text behind the first '-' is the greatest int.
abbrev pub reaches : Option ℤ → Bool
reaches none = false
reaches (some node) = leb 2147483647 (pos_part node)

abbrev pub endless_behind : Option (List ℕ) → Bool
endless_behind none = false
endless_behind (some index) = reaches (whole_number index)

abbrev pub endless_item : List ℕ → Bool
endless_item ch = endless_behind (after_first b'-' ch)

abbrev pub endless_items : List (List ℕ) → Bool
endless_items [] = false
endless_items (item ∷ items) = endless_item item || endless_items items

-- Whether an item of a list of nodes is a range up to the greatest int.
abbrev pub endless : List ℕ → Bool
endless ch = endless_items (split b',' ch)

module _ (max_nodes : ℕ) where
  suc_parts : (n : ℤ) → pos_part (suc_ℤ n) + neg_part n ≡ pos_part n + neg_part (suc_ℤ n) + 1
  suc_parts (pos n) = omega arith
  suc_parts (negsuc n) = ground arith

  -- The loop has no end only where a round is for the greatest int.
  add_range-no_end :
      (k : ℕ) (node : ℤ) (s : NodeSet)
      → (add_range max_nodes k node s).1 ≡ no_end
      → (1 ≤ k) × (2147483648 + neg_part node ≤ pos_part node + k)
  unfolding add_range
  add_range-no_end zero node s e = absurd (cc)
  add_range-no_end (suc k) node s e = elim (Bool-cases (eqb_ℤ node int_max)) [
    | inl t ↦ ground arith
    | inr t ↦
        let rest = add_range-no_end k (suc_ℤ node) (NodeSet.add max_nodes s node).0 (rw t at e) in
        omega (arith, suc_parts node)
  ]

  add_range-Returned :
      (k : ℕ) (node : ℤ) (s : NodeSet)
      → (add_range max_nodes k node s).1 ≢ no_end
      → Returned (add_range max_nodes k node s).1
  add_range-Returned k node s h = elim (add_range-Result max_nodes k node s) [
    | inl e ↦ rw e tt
    | inr (inl e) ↦ rw e tt
    | inr (inr e) ↦ absurd (h e)
  ]

  parse_end-Returned :
      (node1 : ℤ) (index : Option (List ℕ)) (s : NodeSet)
      → endless_behind index ≡ false
      → Returned (parse_end max_nodes node1 index s).1
  unfolding parse_end
  parse_end-Returned node1 none s h = tt
  parse_end-Returned node1 (some index) s h = number (whole_number index) h
    where
      number :
          (n : Option ℤ)
          → reaches n ≡ false
          → Returned
              (elim n as (λ _. NodeSet × Done) [
                | some node2 ↦ add_range max_nodes (rounds node1 node2) node1 s
                | none ↦ (s, returned minus_one)
              ]).1
      number none h = tt
      number (some node2) h =
          add_range-Returned (rounds node1 node2) node1 s
            (λ e. ground (arith, add_range-no_end (rounds node1 node2) node1 s e))

  parse_nodes_interval-Returned :
      (ch : List ℕ) (s : NodeSet)
      → endless_item ch ≡ false
      → Returned (parse_nodes_interval max_nodes ch s).1
  unfolding parse_nodes_interval
  parse_nodes_interval-Returned ch s h = first (strtol ch)
    where
      first :
          (n : Option (ℤ × List ℕ))
          → Returned
              (elim n as (λ _. NodeSet × Done) [
                | some (node1, c ∷ rest) ↦
                    if c == b'-'
                    then parse_end max_nodes (int_of_long node1) (after_first b'-' ch) s
                    else (s, returned minus_one)
                | some (node1, []) ↦ (s, returned minus_one)
                | none ↦ (s, returned minus_one)
              ]).1
      first none = tt
      first (some (node1, [])) = tt
      first (some (node1, c ∷ rest)) = elim (Bool-cases (c == b'-')) [
        | inl t ↦ rw t (parse_end-Returned (int_of_long node1) (after_first b'-' ch) s h)
        | inr t ↦ rw t (tt)
      ]

  parse_item-Returned :
      (ch : List ℕ) (s : NodeSet) → endless_item ch ≡ false → Returned (parse_item max_nodes ch s).1
  unfolding parse_item parse_node
  parse_item-Returned ch s h = dash (at_last b'-' ch) (whole_number ch)
    where
      dash :
          (d : Option (List ℕ × List ℕ)) (n : Option ℤ)
          → Returned
              (elim d as (λ _. NodeSet × Done) [
                | some _ ↦ parse_nodes_interval max_nodes ch s
                | none ↦ elim n as (λ _. NodeSet × Done) [
                  | some node ↦ ((NodeSet.add max_nodes s node).0, returned (pos 1))
                  | none ↦ (s, returned minus_one)
                ]
              ]).1
      dash none none = tt
      dash none (some n) = tt
      dash (some _) n = parse_nodes_interval-Returned ch s h

  then_parse-Returned :
      (p : NodeSet × Done) (k : NodeSet → NodeSet × Done)
      → Returned p.1
      → ((s : NodeSet) → Returned (k s).1)
      → Returned (then_parse max_nodes p k).1
  then_parse-Returned (s, no_end) k h rest = h
  then_parse-Returned (s, crash) k h rest = h
  then_parse-Returned (s, returned r) k h rest = elim (Bool-cases (eqb_ℤ r minus_one)) [
    | inl t ↦ rw t h
    | inr t ↦ rw t (rest s)
  ]

  parse_items-Returned :
      (items : List (List ℕ)) (s : NodeSet)
      → endless_items items ≡ false
      → Returned (parse_items max_nodes items s).1
  parse_items-Returned [] s h = tt
  parse_items-Returned (item ∷ items) s h =
      then_parse-Returned (parse_item max_nodes item s) (parse_items max_nodes items)
        (parse_item-Returned item s (ground arith))
        (λ t. parse_items-Returned items t (ground arith))

  -- Without a range up to the greatest int, `parse_nodes` returns.
  pub parse_nodes-Returned :
      (ch : List ℕ) (s : NodeSet) → endless ch ≡ false → Returned (parse_nodes max_nodes ch s).1
  parse_nodes-Returned ch s h =
      rw (parse_nodes-parse_items max_nodes ch s) (parse_items-Returned (split b',' ch) s h)
