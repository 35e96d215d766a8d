-- ===== src/Krgadm/Parse/Valid.antt =====
-- Whatever the text, `parse_nodes` of tools/krgadm.c leaves a well-formed set.
use kerrighed_tools.Base.{
  ℕ, zero, suc, List, [], ◌∷◌, Option, none, some, ℤ, pos, minus_one, eqb_ℤ, int_of_long, ◌==◌,
  if◌then◌else◌, Bool-cases, inl, inr,
}
use kerrighed_tools.Text.{strtol, at_last, after_first}
use kerrighed_tools.Text.Split.{split}
use kerrighed_tools.Hotplug.NodeSet
use kerrighed_tools.Hotplug.NodeSet.{NodeSet}
use kerrighed_tools.Hotplug.NodeSet.Members.{IsValid, add-IsValid}
use kerrighed_tools.Krgadm.{Done, returned, crash, no_end}
use kerrighed_tools.Krgadm.Parse.{
  whole_number, rounds, suc_ℤ, int_max, then_parse, add_range, parse_end, parse_node,
  parse_nodes_interval, parse_item, parse_nodes,
}
use kerrighed_tools.Krgadm.Parse.Items.{parse_items, parse_nodes-parse_items}

module _ (max_nodes : ℕ) where
  add_range-IsValid :
      (k : ℕ) (node : ℤ) (s : NodeSet)
      → IsValid max_nodes s
      → IsValid max_nodes (add_range max_nodes k node s).0
  unfolding add_range
  add_range-IsValid zero node s v = v
  add_range-IsValid (suc k) node s v =
      let v' = add-IsValid max_nodes s node v in
      elim (Bool-cases (eqb_ℤ node int_max)) [
        | inl t ↦ rw t v'
        | inr t ↦ rw t (add_range-IsValid k (suc_ℤ node) (NodeSet.add max_nodes s node).0 v')
      ]

  -- What is made of a number, where each number leaves a well-formed set.
  module _ (s : NodeSet) (v : IsValid max_nodes s) (made : ℤ → NodeSet × Done)
      (valid : (n : ℤ) → IsValid max_nodes (made n).0) where
    number-IsValid :
        (n : Option ℤ)
        → IsValid max_nodes
            (elim n as (λ _. NodeSet × Done) [
              | some node ↦ made node
              | none ↦ (s, returned minus_one)
            ]).0
    number-IsValid (some n) = valid n
    number-IsValid none = v

  parse_node-IsValid :
      (ch : List ℕ) (s : NodeSet)
      → IsValid max_nodes s
      → IsValid max_nodes (parse_node max_nodes ch s).0
  unfolding parse_node
  parse_node-IsValid ch s v =
      number-IsValid s v (λ n. ((NodeSet.add max_nodes s n).0, returned (pos 1)))
        (λ n. add-IsValid max_nodes s n v) (whole_number ch)

  parse_end-IsValid :
      (node1 : ℤ) (index : Option (List ℕ)) (s : NodeSet)
      → IsValid max_nodes s
      → IsValid max_nodes (parse_end max_nodes node1 index s).0
  unfolding parse_end
  parse_end-IsValid node1 none s v = v
  parse_end-IsValid node1 (some index) s v =
      number-IsValid s v (λ n. add_range max_nodes (rounds node1 n) node1 s)
        (λ n. add_range-IsValid (rounds node1 n) node1 s v) (whole_number index)

  parse_nodes_interval-IsValid :
      (ch : List ℕ) (s : NodeSet)
      → IsValid max_nodes s
      → IsValid max_nodes (parse_nodes_interval max_nodes ch s).0
  unfolding parse_nodes_interval
  parse_nodes_interval-IsValid ch s v = first (strtol ch)
    where
      first :
          (n : Option (ℤ × List ℕ))
          → IsValid max_nodes
              (elim n as (λ _. NodeSet × Done) [
                | some (node1, c ∷ rest) ↦
                    if c == b'-'
                    then parse_end max_nodes (int_of_long node1) (after_first b'-' ch) s
                    else (s, returned minus_one)
                | some (node1, []) ↦ (s, returned minus_one)
                | none ↦ (s, returned minus_one)
              ]).0
      first none = v
      first (some (node1, [])) = v
      first (some (node1, c ∷ rest)) = elim (Bool-cases (c == b'-')) [
        | inl t ↦ rw t (parse_end-IsValid (int_of_long node1) (after_first b'-' ch) s v)
        | inr t ↦ rw t v
      ]

  parse_item-IsValid :
      (ch : List ℕ) (s : NodeSet)
      → IsValid max_nodes s
      → IsValid max_nodes (parse_item max_nodes ch s).0
  unfolding parse_item
  parse_item-IsValid ch s v = dash (at_last b'-' ch)
    where
      dash :
          (d : Option (List ℕ × List ℕ))
          → IsValid max_nodes
              (elim d as (λ _. NodeSet × Done) [
                | some _ ↦ parse_nodes_interval max_nodes ch s
                | none ↦ parse_node max_nodes ch s
              ]).0
      dash none = parse_node-IsValid ch s v
      dash (some _) = parse_nodes_interval-IsValid ch s v

  parse_items-IsValid :
      (items : List (List ℕ)) (s : NodeSet)
      → IsValid max_nodes s
      → IsValid max_nodes (parse_items max_nodes items s).0
  parse_items-IsValid [] s v = v
  parse_items-IsValid (item ∷ items) s v =
      let v' = parse_item-IsValid item s v in
      go (parse_item max_nodes item s) v'
        (parse_items-IsValid items (parse_item max_nodes item s).0 v')
    where
      go :
          (p : NodeSet × Done)
          → IsValid max_nodes p.0
          → IsValid max_nodes (parse_items max_nodes items p.0).0
          → IsValid max_nodes (then_parse max_nodes p (parse_items max_nodes items)).0
      go (t, crash) here rest = here
      go (t, no_end) here rest = here
      go (t, returned r) here rest = elim (Bool-cases (eqb_ℤ r minus_one)) [
        | inl failed ↦ rw failed here
        | inr went_on ↦ rw went_on rest
      ]

  pub parse_nodes-IsValid :
      (ch : List ℕ) (s : NodeSet)
      → IsValid max_nodes s
      → IsValid max_nodes (parse_nodes max_nodes ch s).0
  parse_nodes-IsValid ch s v =
      rw (parse_nodes-parse_items max_nodes ch s) (parse_items-IsValid (split b',' ch) s v)
