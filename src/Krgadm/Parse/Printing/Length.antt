-- ===== src/Krgadm/Parse/Printing/Length.antt =====
-- How long the text is that `node_set_str` of tools/krgadm.c writes.
use kerrighed_tools.Base.{
  ℕ, zero, suc, ◌+◌, ◌-◌, ◌*◌, ◌/◌, ◌%◌, ◌<◌, ◌≤◌, Bool, List, [], ◌∷◌, length, length-append,
  arith, Bool-cases, inl, inr,
}
use kerrighed_tools.Text.{decimal, digits}
use kerrighed_tools.Hotplug.NodeSet.{NodeSet, marked}
use kerrighed_tools.Krgadm.Parse.{node_set_str}
use kerrighed_tools.Krgadm.Parse.Printing.{passing, more, text, text-more, node_set_str-text}

-- Numbers below `b` have at most `k` digits.
abbrev HasDigits : ℕ → ℕ → Type 0
HasDigits b k = (fuel n : ℕ) (out : List ℕ) → n < b → length (digits fuel n out) ≤ k + length out

one_digit : HasDigits 10 1
unfolding digits
one_digit zero n out h = omega arith
one_digit (suc fuel) n out h = ground arith

next_digit : (b k : ℕ) → HasDigits b k → HasDigits (10 * b) (k + 1)
unfolding digits
next_digit b k h zero n out lt = omega arith
next_digit b k h (suc fuel) n out lt =
    ground (arith, h fuel (n / 10) ((b'0' + n % 10) ∷ out) (omega arith))

length-decimal : (n : ℕ) → n < 1000 → length (decimal n) ≤ 3
unfolding decimal
length-decimal n h = next_digit 100 2 (next_digit 10 1 one_digit) (suc n) n [] h

length-more :
    (test : ℕ → Bool) (rounds i : ℕ)
    → i + rounds ≤ 1000
    → length (more (passing test rounds i)) ≤ 4 * rounds
length-more test zero i h = omega arith
length-more test (suc rounds) i h =
    let rest = length-more test rounds (i + 1) (omega arith) in
    elim (Bool-cases (test i)) [
      | inl t ↦ rw (t, length-append) (omega (arith, length-decimal i (omega arith)))
      | inr t ↦ rw t (omega arith)
    ]

length-text :
    (test : ℕ → Bool) (rounds i : ℕ)
    → i + rounds ≤ 1000
    → length (text (passing test rounds i)) ≤ 4 * rounds - 1
length-text test zero i h = omega arith
length-text test (suc rounds) i h = elim (Bool-cases (test i)) [
  | inl t ↦
      rw (t, text-more i (passing test rounds (i + 1)), length-append)
        (omega
          (arith, length-decimal i (omega arith), length-more test rounds (i + 1) (omega arith)))
  | inr t ↦ rw t (omega (arith, length-text test rounds (i + 1) (omega arith)))
]

module _ (max_nodes : ℕ) where
  -- With at least one and at most 1000 nodes, the text that `node_set_str` writes for a set leaves
  -- at least one of the `max_nodes * 4 + 2` bytes that it allocates.
  pub length-node_set_str :
      (s : NodeSet)
      → 1 ≤ max_nodes
      → max_nodes ≤ 1000
      → length (node_set_str max_nodes s) < max_nodes * 4 + 2
  length-node_set_str s some_node few =
      rw (node_set_str-text max_nodes s, length-append)
        (omega (arith, length-text (marked s) max_nodes 0 (omega arith)))
