-- ===== src/Krgadm/Parse/Items.antt =====
-- `parse_nodes` of tools/krgadm.c against its specification: the items between the commas, from left
-- to right, up to the first that is refused.
use mathlib.Core.Path.{fun_ext}
use kerrighed_tools.Base.{
  ◌⊎◌, ℕ, zero, suc, ◌≡◌, refl, ap, ◌∙◌, sym, ◌<◌, List, [], ◌∷◌, ◌++◌, Option, none, some, ℤ, pos,
  minus_one, eqb_ℤ, int_of_long, ◌==◌, length, if◌then◌else◌, arith, Bool-cases, inl, inr,
}
use kerrighed_tools.Text.{at_last, strtol, after_first}
use kerrighed_tools.Text.Split.{split, split-absent, Last, absent, found, at_last-Last}
use kerrighed_tools.Hotplug.NodeSet
use kerrighed_tools.Hotplug.NodeSet.{NodeSet}
use kerrighed_tools.Krgadm.{Done, returned, crash, no_end}
use kerrighed_tools.Krgadm.Parse.{
  whole_number, rounds, suc_ℤ, int_max, add_range, parse_end, parse_node, parse_nodes_interval,
  parse_item, parse_at, parse_nodes, then_parse,
}

module _ (max_nodes : ℕ) where
  abbrev pub parse_items : List (List ℕ) → NodeSet → NodeSet × Done
  parse_items [] s = (s, returned (pos 1))
  parse_items (item ∷ items) s =
      then_parse max_nodes (parse_item max_nodes item s) (parse_items items)

  then_parse_assoc :
      (p : NodeSet × Done) (f g : NodeSet → NodeSet × Done)
      → then_parse max_nodes (then_parse max_nodes p f) g
        ≡ then_parse max_nodes p (λ t. then_parse max_nodes (f t) g)
  then_parse_assoc (s, crash) f g = refl
  then_parse_assoc (s, no_end) f g = refl
  then_parse_assoc (s, returned r) f g = elim (Bool-cases (eqb_ℤ r minus_one)) [
    | inl failed ↦ rw failed (rw failed refl)
    | inr went_on ↦ rw went_on refl
  ]

  parse_items-append :
      (xs ys : List (List ℕ)) (s : NodeSet)
      → parse_items (xs ++ ys) s ≡ then_parse max_nodes (parse_items xs s) (parse_items ys)
  parse_items-append [] ys s = refl
  parse_items-append (x ∷ xs) ys s =
      ap (then_parse max_nodes (parse_item max_nodes x s)) (fun_ext (parse_items-append xs ys))
      ∙ sym (then_parse_assoc (parse_item max_nodes x s) (parse_items xs) (parse_items ys))

  abbrev pub Result : NodeSet × Done → Type 0
  Result r = (r.1 ≡ returned (pos 1)) ⊎ ((r.1 ≡ returned minus_one) ⊎ (r.1 ≡ no_end))

  pub add_range-Result : (k : ℕ) (node : ℤ) (s : NodeSet) → Result (add_range max_nodes k node s)
  unfolding add_range
  add_range-Result zero node s = inl refl
  add_range-Result (suc k) node s = elim (Bool-cases (eqb_ℤ node int_max)) [
    | inl t ↦ rw t (inr (inr refl))
    | inr t ↦ rw t (add_range-Result k (suc_ℤ node) (NodeSet.add max_nodes s node).0)
  ]

  parse_node-Result : (ch : List ℕ) (s : NodeSet) → Result (parse_node max_nodes ch s)
  unfolding parse_node
  parse_node-Result ch s = number (whole_number ch)
    where
      number :
          (n : Option ℤ)
          → Result (elim n [
            | some node ↦ ((NodeSet.add max_nodes s node).0, returned (pos 1))
            | none ↦ (s, returned minus_one)
          ])
      number (some n) = inl refl
      number none = inr (inl refl)

  parse_end-Result :
      (node1 : ℤ) (index : Option (List ℕ)) (s : NodeSet)
      → Result (parse_end max_nodes node1 index s)
  unfolding parse_end
  parse_end-Result node1 none s = inr (inl refl)
  parse_end-Result node1 (some index) s = number (whole_number index)
    where
      number :
          (n : Option ℤ)
          → Result (elim n [
            | some node2 ↦ add_range max_nodes (rounds node1 node2) node1 s
            | none ↦ (s, returned minus_one)
          ])
      number (some n) = add_range-Result (rounds node1 n) node1 s
      number none = inr (inl refl)

  parse_nodes_interval-Result :
      (ch : List ℕ) (s : NodeSet) → Result (parse_nodes_interval max_nodes ch s)
  unfolding parse_nodes_interval
  parse_nodes_interval-Result ch s = first (strtol ch)
    where
      first :
          (n : Option (ℤ × List ℕ))
          → Result (elim n [
            | some (node1, c ∷ rest) ↦
                if c == b'-'
                then parse_end max_nodes (int_of_long node1) (after_first b'-' ch) s
                else (s, returned minus_one)
            | some (node1, []) ↦ (s, returned minus_one)
            | none ↦ (s, returned minus_one)
          ])
      first none = inr (inl refl)
      first (some (node1, [])) = inr (inl refl)
      first (some (node1, c ∷ rest)) = elim (Bool-cases (c == b'-')) [
        | inl t ↦ rw t (parse_end-Result (int_of_long node1) (after_first b'-' ch) s)
        | inr t ↦ rw t (inr (inl refl))
      ]

  parse_item-Result : (ch : List ℕ) (s : NodeSet) → Result (parse_item max_nodes ch s)
  unfolding parse_item
  parse_item-Result ch s = dash (at_last b'-' ch)
    where
      dash :
          (d : Option (List ℕ × List ℕ))
          → Result (elim d [
            | some _ ↦ parse_nodes_interval max_nodes ch s
            | none ↦ parse_node max_nodes ch s
          ])
      dash none = parse_node-Result ch s
      dash (some _) = parse_nodes_interval-Result ch s

  parse_items-one :
      (item : List ℕ) (s : NodeSet) → parse_items (item ∷ []) s ≡ parse_item max_nodes item s
  parse_items-one item s = one (parse_item max_nodes item s) (parse_item-Result item s)
    where
      one :
          (p : NodeSet × Done) → Result p → then_parse max_nodes p (λ t. (t, returned (pos 1))) ≡ p
      one (t, _) (inl e) = rw e refl
      one (t, _) (inr (inl e)) = rw e refl
      one (t, _) (inr (inr e)) = rw e refl

  -- The recursion of `parse_nodes` is the loop over the items between the commas.
  parse_at-parse_items :
      (fuel : ℕ) (ch : List ℕ) (s : NodeSet)
      → length ch < fuel
      → parse_at max_nodes fuel ch s ≡ parse_items (split b',' ch) s
  unfolding parse_at
  parse_at-parse_items zero ch s h = absurd (omega arith)
  parse_at-parse_items (suc fuel) ch s h =
      go (at_last b',' ch) (at_last-Last b',' ch) (parse_at-parse_items fuel)
    where
      go :
          (l : Option (List ℕ × List ℕ))
          → Last b',' ch l
          → ((t : List ℕ) (s : NodeSet)
              → length t < fuel
              → parse_at max_nodes fuel t s ≡ parse_items (split b',' t) s)
          → (elim l [
            | some (before, behind) ↦
                then_parse max_nodes
                  (parse_at max_nodes fuel before s)
                  (parse_at max_nodes fuel behind)
            | none ↦ parse_item max_nodes ch s
          ])
            ≡ parse_items (split b',' ch) s
      go _ (absent free) ih = rw (split-absent b',' ch free) (sym (parse_items-one ch s))
      go _ (found a b e shorter shorter_too free) ih =
          let first = ih a s (omega (arith, h, shorter)) in
          let last = λ (t : NodeSet).
            ih b t (omega (arith, h, shorter_too))
            ∙ ap (λ (p : List (List ℕ)). parse_items p t) (split-absent b',' b free) in
          rw (e, parse_items-append (split b',' a) (b ∷ []) s, first)
            (ap (then_parse max_nodes (parse_items (split b',' a) s)) (fun_ext last))

  -- `parse_nodes` parses the items between the commas from left to right, each for itself, up to the
  -- first that is refused, where it returns -1 and the set holds the nodes of the items before, or
  -- that has a range without an end.
  pub parse_nodes-parse_items :
      (ch : List ℕ) (s : NodeSet) → parse_nodes max_nodes ch s ≡ parse_items (split b',' ch) s
  unfolding parse_nodes
  parse_nodes-parse_items ch s = parse_at-parse_items (suc (length ch)) ch s (omega arith)
