-- ===== src/Krgadm/Parse.antt =====
-- tools/krgadm.c: the lists of nodes on the command line, and the text that the tool prints for a
-- set. The separators are ',' between the items and '-' in a range.
pub mod Items
pub mod RoundTrip
pub mod Valid
pub mod Ranges
pub mod Printing
use kerrighed_tools.Base.{
  ℕ, zero, suc, ◌+◌, ◌-◌, Bool, true, false, List, [], ◌∷◌, ◌++◌, Option, none, some, ℤ, pos,
  negsuc, minus_one, pos_part, neg_part, eqb_ℤ, int_of_long, length, ltb, ◌==◌, if◌then◌else◌,
}
use kerrighed_tools.Text.{strtol, after_first, at_last, decimal}
use kerrighed_tools.Hotplug.NodeSet
use kerrighed_tools.Hotplug.NodeSet.{NodeSet}
use kerrighed_tools.Hotplug.NodeSet.Iteration.{walk_nodes}
use kerrighed_tools.Krgadm.{Done, returned, crash, no_end}

-- node + 1
abbrev pub suc_ℤ : ℤ → ℤ
suc_ℤ (pos n) = pos (n + 1)
suc_ℤ (negsuc n) = if n == 0 then pos 0 else negsuc (n - 1)

abbrev pub int_max : ℤ
int_max = pos 2147483647

-- How many rounds `for (node = a; node <= b; node++)` makes.
abbrev pub rounds : ℤ → ℤ → ℕ
rounds a b = pos_part b + neg_part a + 1 - (pos_part a + neg_part b)

-- The whole string as a number, as the tests on `endptr` want it.
unfoldable pub whole_number : List ℕ → Option ℤ
whole_number ch = elim (strtol ch) [
  | some (value, []) ↦ some (int_of_long value)
  | some (value, c ∷ rest) ↦ none
  | none ↦ none
]

module _ (max_nodes : ℕ) where
  -- The set, and the result 1 or -1 unless a loop does not end.
  unfoldable pub parse_node : List ℕ → NodeSet → NodeSet × Done
  parse_node ch node_set = elim (whole_number ch) [
    | some node ↦ ((NodeSet.add max_nodes node_set node).0, returned (pos 1))
    | none ↦ (node_set, returned minus_one)
  ]

  -- The loop over the nodes of a range, with the rounds that `node <= node2` leaves. Behind INT_MAX
  -- there is no int: `node++` overflows, and the loop does not end.
  unfoldable pub add_range : ℕ → ℤ → NodeSet → NodeSet × Done
  add_range zero node node_set = (node_set, returned (pos 1))
  add_range (suc k) node node_set =
      let added = (NodeSet.add max_nodes node_set node).0 in
      let rest = add_range k (suc_ℤ node) added in
      if eqb_ℤ node int_max then (added, no_end) else rest

  -- After the first number; `index` is the string behind the first '-'.
  unfoldable pub parse_end : ℤ → Option (List ℕ) → NodeSet → NodeSet × Done
  parse_end node1 none node_set = (node_set, returned minus_one)
  parse_end node1 (some index) node_set = elim (whole_number index) [
    | some node2 ↦ add_range (rounds node1 node2) node1 node_set
    | none ↦ (node_set, returned minus_one)
  ]

  unfoldable pub parse_nodes_interval : List ℕ → NodeSet → NodeSet × Done
  parse_nodes_interval ch node_set = elim (strtol ch) [
    | some (node1, c ∷ rest) ↦
        if c == b'-'
        then parse_end (int_of_long node1) (after_first b'-' ch) node_set
        else (node_set, returned minus_one)
    | some (node1, []) ↦ (node_set, returned minus_one)
    | none ↦ (node_set, returned minus_one)
  ]

  -- A string without ','.
  unfoldable pub parse_item : List ℕ → NodeSet → NodeSet × Done
  parse_item ch node_set = elim (at_last b'-' ch) [
    | some _ ↦ parse_nodes_interval ch node_set
    | none ↦ parse_node ch node_set
  ]

  -- `if ((r = f(...)) == -1) goto exit;`
  abbrev pub then_parse : NodeSet × Done → (NodeSet → NodeSet × Done) → NodeSet × Done
  then_parse (node_set, returned r) k =
      if eqb_ℤ r minus_one then (node_set, returned r) else k node_set
  then_parse (node_set, crash) k = (node_set, crash)
  then_parse (node_set, no_end) k = (node_set, no_end)

  -- The recursion, on fuel: the length of the string is a bound on its depth.
  unfoldable pub parse_at : ℕ → List ℕ → NodeSet → NodeSet × Done
  parse_at zero ch node_set = (node_set, returned minus_one)
  parse_at (suc fuel) ch node_set = elim (at_last b',' ch) [
    | some (before, behind) ↦ then_parse (parse_at fuel before node_set) (parse_at fuel behind)
    | none ↦ parse_item ch node_set
  ]

  unfoldable pub parse_nodes : List ℕ → NodeSet → NodeSet × Done
  unfolding parse_at
  parse_nodes ch node_set = parse_at (suc (length ch)) ch node_set

  -- One round of the loop of `node_set_str`. The text is the bytes that are written, `i` of them.
  unfoldable pub print_node : ℕ → NodeSet × List ℕ → NodeSet × List ℕ
  print_node node (node_set, str) =
      (node_set, (if ltb 1 (length str) then str ++ (b',' ∷ []) else str) ++ decimal node)

  -- The bytes from '[' to ']'.
  unfoldable pub node_set_str : NodeSet → List ℕ
  unfolding print_node
  node_set_str node_set =
      (walk_nodes max_nodes (λ s. s.0) print_node (node_set, b'[' ∷ [])).1 ++ (b']' ∷ [])
