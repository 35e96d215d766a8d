-- ===== src/Krgadm/Parse/Printing.antt =====
-- The text that tools/krgadm.c prints for a set of nodes: `node_set_str`.
pub mod Length
pub mod ReadBack
use kerrighed_tools.Base.{
  ℕ, zero, suc, ◌+◌, ◌-◌, ◌*◌, ◌/◌, ◌%◌, ◌≡◌, refl, ap, ◌∙◌, sym, ◌<◌, ◌≤◌, Bool, true, false, ◌&&◌,
  List, [], ◌∷◌, ◌++◌, map, length, length-append, ==_iff, ℤ, pos, negsuc, ltb, leb, ◌==◌,
  if◌then◌else◌, arith, Bool-cases, inl, inr, ◌⊎◌,
}
use mathlib.Core.List.{append-nil, append_assoc}
use kerrighed_tools.Base.Loops.{each_from}
use kerrighed_tools.Text.{decimal, digits}
use kerrighed_tools.Text.Decimal.{starts, starts-decimal}
use kerrighed_tools.Hotplug.NodeSet.{NodeSet, marked, contains}
use kerrighed_tools.Hotplug.NodeSet.Members.{IsValid, marked-contains}
use kerrighed_tools.Hotplug.NodeSet.Iteration.{walk_nodes-each_from}
use kerrighed_tools.Hotplug.Services.Allocation.{IsFresh}
use kerrighed_tools.Krgadm.Parse.{parse_nodes, print_node, node_set_str}
use kerrighed_tools.Krgadm.Parse.RoundTrip.{
  single, print_all, covered, AllInt, Extends, parse_nodes-print_all,
}

-- The numbers from `i` on that pass the test, in ascending order.
abbrev pub passing : (ℕ → Bool) → ℕ → ℕ → List ℕ
passing test zero i = []
passing test (suc k) i = let rest = passing test k (i + 1) in if test i then i ∷ rest else rest

-- The nodes behind the first.
abbrev pub more : List ℕ → List ℕ
more [] = []
more (m ∷ ms) = b',' ∷ (decimal m ++ more ms)

-- The text of a list of nodes.
abbrev pub text : List ℕ → List ℕ
text [] = []
text (m ∷ ms) = print_all (single m) (map single ms)

pub text-more : (m : ℕ) (ms : List ℕ) → text (m ∷ ms) ≡ decimal m ++ more ms
text-more m [] = sym (append-nil (decimal m))
text-more m (n ∷ ms) = ap (λ r. decimal m ++ (b',' ∷ r)) (text-more n ms)

not_empty : (m : ℕ) → 1 ≤ length (decimal m)
not_empty m = go (decimal m) (starts-decimal m)
  where
    go : (s : List ℕ) → starts s ≡ true → 1 ≤ length s
    go [] e = absurd (ground arith)
    go (c ∷ s) e = omega arith

module _ (max_nodes : ℕ) (s : NodeSet) where
  abbrev run : ℕ → ℕ → NodeSet × List ℕ → List ℕ
  run rounds i t = (each_from (λ j u. marked u.0 j) (print_node max_nodes) rounds i t).1

  abbrev loop : ℕ → ℕ → List ℕ → List ℕ
  loop rounds i str = run rounds i (s, str)

  print_node-more :
      (i : ℕ) (str : List ℕ)
      → 1 < length str
      → print_node max_nodes i (s, str) ≡ (s, str ++ (b',' ∷ decimal i))
  unfolding print_node
  print_node-more i str h =
      let long : ltb 1 (length str) ≡ true = ground arith in
      rw long (ap (λ (r : List ℕ). (s, r)) (append_assoc str (b',' ∷ []) (decimal i)))

  print_node-first : (i : ℕ) → print_node max_nodes i (s, b'[' ∷ []) ≡ (s, b'[' ∷ decimal i)
  unfolding print_node
  print_node-first i = refl

  run-marked :
      (rounds i : ℕ) (str : List ℕ)
      → marked s i ≡ true
      → loop (suc rounds) i str ≡ run rounds (i + 1) (print_node max_nodes i (s, str))
  unfolding each_from
  run-marked rounds i str t =
      ap
        (λ (b : Bool). run rounds (i + 1) (if b then print_node max_nodes i (s, str) else (s, str)))
        t

  run-unmarked :
      (rounds i : ℕ) (str : List ℕ)
      → marked s i ≡ false
      → loop (suc rounds) i str ≡ loop rounds (i + 1) str
  unfolding each_from
  run-unmarked rounds i str t =
      ap
        (λ (b : Bool). run rounds (i + 1) (if b then print_node max_nodes i (s, str) else (s, str)))
        t

  loop-more :
      (rounds i : ℕ) (str : List ℕ)
      → 1 < length str
      → loop rounds i str ≡ str ++ more (passing (marked s) rounds i)
  unfolding each_from
  loop-more zero i str h = sym (append-nil str)
  loop-more (suc rounds) i str h = elim (Bool-cases (marked s i)) [
    | inr t ↦ run-unmarked rounds i str t ∙ rw t (loop-more rounds (i + 1) str h)
    | inl t ↦
        run-marked rounds i str t
        ∙ rw t (
            ap (run rounds (i + 1)) (print_node-more i str h)
            ∙ loop-more rounds (i + 1) (str ++ (b',' ∷ decimal i))
                (omega (arith, length-append str (b',' ∷ decimal i)))
            ∙ append_assoc str (b',' ∷ decimal i) (more (passing (marked s) rounds (i + 1))))
  ]

  loop-text : (rounds i : ℕ) → loop rounds i (b'[' ∷ []) ≡ b'[' ∷ text (passing (marked s) rounds i)
  unfolding each_from
  loop-text zero i = refl
  loop-text (suc rounds) i = elim (Bool-cases (marked s i)) [
    | inr t ↦ run-unmarked rounds i (b'[' ∷ []) t ∙ rw t (loop-text rounds (i + 1))
    | inl t ↦
        run-marked rounds i (b'[' ∷ []) t
        ∙ rw t (
            ap (run rounds (i + 1)) (print_node-first i)
            ∙ loop-more rounds (i + 1) (b'[' ∷ decimal i) (omega (arith, not_empty i))
            ∙ ap (λ r. b'[' ∷ r) (sym (text-more i (passing (marked s) rounds (i + 1)))))
  ]

  -- The members, in ascending order.
  abbrev pub members : List ℕ
  members = passing (marked s) max_nodes 0

  pub node_set_str-text : node_set_str max_nodes s ≡ b'[' ∷ (text members ++ (b']' ∷ []))
  unfolding node_set_str
  node_set_str-text =
      rw
        (
          walk_nodes-each_from max_nodes (λ (t : NodeSet × List ℕ). t.0) (print_node max_nodes)
              (s, b'[' ∷ []),
          node_set_str,
        )
        (ap (λ r. r ++ (b']' ∷ [])) (loop-text max_nodes 0))
