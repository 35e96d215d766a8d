-- ===== src/Krgadm/Parse/RoundTrip.antt =====
-- Lists of nodes as `krgadm --help` describes them, "2,3,6-10,42-45": `parse_nodes` of
-- tools/krgadm.c reads them as they are meant.
use kerrighed_tools.Base.{
  ℕ, zero, suc, ◌+◌, ◌≡◌, refl, ap, ◌∙◌, ◌<◌, ◌≤◌, Bool, false, ◌&&◌, ◌||◌, List, [], ◌∷◌, ◌++◌,
  map, some, pos, eqb_ℤ, ltb, leb, ◌==◌, if◌then◌else◌, arith,
}
use mathlib.Core.List.{append-nil}
use kerrighed_tools.Text.{strtol, decimal}
use kerrighed_tools.Text.Decimal.{strtol-decimal}
use kerrighed_tools.Text.Split.{
  split, split-absent, split-append, occurs, occurs-decimal, occurs-append, after_first-append,
  at_last-absent, at_last-append,
}
use kerrighed_tools.Hotplug.NodeSet
use kerrighed_tools.Hotplug.NodeSet.{NodeSet, contains}
use kerrighed_tools.Hotplug.NodeSet.Members.{IsValid, add-IsValid, contains-add}
use kerrighed_tools.Krgadm.{Done, returned}
use kerrighed_tools.Krgadm.Parse.{
  whole_number, rounds, int_max, add_range, parse_end, parse_node, parse_nodes_interval, parse_item,
  parse_nodes,
}
use kerrighed_tools.Krgadm.Parse.Items.{parse_items, parse_nodes-parse_items}

-- An item of a list: a node, or a range with its first and last node.
pub data Item : Type 0 where
  single : ℕ → Item
  range : ℕ → ℕ → Item

abbrev pub print : Item → List ℕ
print (single n) = decimal n
print (range a b) = decimal a ++ (b'-' ∷ decimal b)

abbrev pub print_all : Item → List Item → List ℕ
print_all item [] = print item
print_all item (next ∷ items) = print item ++ (b',' ∷ print_all next items)

abbrev pub covers : Item → ℕ → Bool
covers (single n) m = n == m
covers (range a b) m = leb a m && leb m b

abbrev pub covered : List Item → ℕ → Bool
covered [] m = false
covered (item ∷ items) m = covers item m || covered items m

-- The numbers of the item are ints, and a range does not end at the greatest int.
abbrev pub IsInt : Item → Type 0
IsInt (single n) = n < 2147483648
IsInt (range a b) = (a < 2147483648) × (b < 2147483647)

abbrev pub AllInt : List Item → Type 0
AllInt [] = Unit
AllInt (item ∷ items) = IsInt item × AllInt items

whole_number-decimal : (n : ℕ) → n < 2147483648 → whole_number (decimal n) ≡ some (pos n)
unfolding whole_number
whole_number-decimal n h =
    let e : strtol (decimal n) ≡ some (pos n, []) =
      rw⁻¹ (append-nil (decimal n)) (strtol-decimal n [] (omega arith) refl) in
    rw (e, whole_number) (ground arith)

no_comma : (item : Item) → occurs b',' (print item) ≡ false
no_comma (single n) = occurs-decimal b',' n refl
no_comma (range a b) = ground (
  arith,
  occurs-append b',' (decimal a) (b'-' ∷ decimal b),
  occurs-decimal b',' a refl,
  occurs-decimal b',' b refl,
)

module _ (max_nodes : ℕ) where
  -- A well-formed set with the nodes of `s` and those in range that pass the test.
  abbrev pub Extends : (ℕ → Bool) → NodeSet → NodeSet → Type 0
  Extends test s r =
      IsValid max_nodes r
      × ((m : ℕ)
          → contains max_nodes r (pos m)
            ≡ (if ltb m max_nodes && test m then 1 else contains max_nodes s (pos m)))

  add-Extends :
      (s : NodeSet) (n : ℕ)
      → IsValid max_nodes s
      → Extends (λ m. n == m) s (NodeSet.add max_nodes s (pos n)).0
  add-Extends s n v = (
    add-IsValid max_nodes s (pos n) v,
    λ m. contains-add max_nodes s (pos n) (pos m) v ∙ ground arith,
  )

  add_range-Extends :
      (k a : ℕ) (s : NodeSet)
      → a + k ≤ 2147483647
      → IsValid max_nodes s
      → (add_range max_nodes k (pos a) s ≡ ((add_range max_nodes k (pos a) s).0, returned (pos 1)))
        × Extends (λ m. leb a m && ltb m (a + k)) s (add_range max_nodes k (pos a) s).0
  unfolding add_range
  add_range-Extends zero a s small v = (refl, (v, λ m. ground arith))
  add_range-Extends (suc k) a s small v =
      let inside : eqb_ℤ (pos a) int_max ≡ false = ground arith in
      let (e, (v', h)) =
        add_range-Extends k (a + 1) (NodeSet.add max_nodes s (pos a)).0 (omega arith)
          (add-IsValid max_nodes s (pos a) v) in
      rw inside (e, (v', λ m. h m ∙ ground (arith, contains-add max_nodes s (pos a) (pos m) v)))

  parse_item-single :
      (n : ℕ) (s : NodeSet)
      → n < 2147483648
      → parse_item max_nodes (print (single n)) s
        ≡ ((NodeSet.add max_nodes s (pos n)).0, returned (pos 1))
  unfolding parse_item parse_node
  parse_item-single n s h =
      rw
        (
          at_last-absent b'-' (decimal n) (occurs-decimal b'-' n refl),
          parse_item,
          whole_number-decimal n h,
          parse_node,
        )
        refl

  parse_item-range :
      (a b : ℕ) (s : NodeSet)
      → a < 2147483648
      → b < 2147483648
      → parse_item max_nodes (print (range a b)) s
        ≡ add_range max_nodes (rounds (pos a) (pos b)) (pos a) s
  unfolding parse_item parse_nodes_interval parse_end
  parse_item-range a b s ha hb =
      let dash = occurs-decimal b'-' in
      let first = strtol-decimal a (b'-' ∷ decimal b) (omega arith) refl in
      rw
        (
          at_last-append b'-' (decimal a) (decimal b) (dash b refl),
          parse_item,
          first,
          parse_nodes_interval,
          after_first-append b'-' (decimal a) (decimal b) (dash a refl),
          whole_number-decimal b hb,
          parse_end,
        )
        (ground arith)

  -- The range is as long as the loop.
  range_rounds :
      (a b m : ℕ) → (leb a m && ltb m (a + rounds (pos a) (pos b))) ≡ (leb a m && leb m b)
  range_rounds a b m = ground arith

  parse_item-Extends :
      (item : Item) (s : NodeSet)
      → IsInt item
      → IsValid max_nodes s
      → ((parse_item max_nodes (print item) s).1 ≡ returned (pos 1))
        × Extends (covers item) s (parse_item max_nodes (print item) s).0
  parse_item-Extends (single n) s h v = rw (parse_item-single n s h) (refl, add-Extends s n v)
  parse_item-Extends (range a b) s (ha, hb) v =
      let (e, (v', h)) = add_range-Extends (rounds (pos a) (pos b)) a s (ground arith) v in
      rw (parse_item-range a b s ha (omega arith))
        (ap (λ (p : NodeSet × Done). p.1) e, (v', λ m. h m ∙ ground (arith, range_rounds a b m)))

  split-print_all :
      (item : Item) (items : List Item)
      → split b',' (print_all item items) ≡ map print (item ∷ items)
  split-print_all item [] = split-absent b',' (print item) (no_comma item)
  split-print_all item (next ∷ items) =
      split-append b',' (print item) (print_all next items) (no_comma item)
      ∙ ap (λ r. print item ∷ r) (split-print_all next items)

  parse_items-Extends :
      (items : List Item) (s : NodeSet)
      → AllInt items
      → IsValid max_nodes s
      → ((parse_items max_nodes (map print items) s).1 ≡ returned (pos 1))
        × Extends (covered items) s (parse_items max_nodes (map print items) s).0
  parse_items-Extends [] s all v = (refl, (v, λ m. ground arith))
  parse_items-Extends (item ∷ items) s (here, all) v =
      let (one, (v₁, h₁)) = parse_item-Extends item s here v in
      let (r, (v₂, h₂)) =
        parse_items-Extends items (parse_item max_nodes (print item) s).0 all v₁ in
      rw one (r, (v₂, λ m. h₂ m ∙ ground (arith, h₁ m)))

  -- The text of a list of nodes and ranges, with numbers that are ints and no range up to the greatest
  -- int, is parsed with the result 1, and a well-formed set then holds what it held and, of the nodes in range, exactly those that
  -- the list names.
  pub parse_nodes-print_all :
      (item : Item) (items : List Item) (s : NodeSet)
      → AllInt (item ∷ items)
      → IsValid max_nodes s
      → ((parse_nodes max_nodes (print_all item items) s).1 ≡ returned (pos 1))
        × Extends (covered (item ∷ items)) s (parse_nodes max_nodes (print_all item items) s).0
  parse_nodes-print_all item items s all v =
      rw (parse_nodes-parse_items max_nodes (print_all item items) s, split-print_all item items)
        (parse_items-Extends (item ∷ items) s all v)
