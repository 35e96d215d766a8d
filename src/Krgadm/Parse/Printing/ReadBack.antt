-- ===== src/Krgadm/Parse/Printing/ReadBack.antt =====
-- The text of `node_set_str`, read by `parse_nodes` (tools/krgadm.c).
use kerrighed_tools.Base.{
  ℕ, zero, suc, ◌+◌, ◌≡◌, refl, ap, sym, ◌≤◌, Bool, true, ◌&&◌, List, [], ◌∷◌, ◌++◌, map, ==_iff, ℤ,
  pos, negsuc, ltb, leb, ◌==◌, if◌then◌else◌, arith, Bool-cases, inl, inr, ◌⊎◌,
}
use kerrighed_tools.Hotplug.NodeSet.{NodeSet, marked, contains}
use kerrighed_tools.Hotplug.NodeSet.Members.{IsValid, marked-contains}
use kerrighed_tools.Hotplug.Services.Allocation.{IsFresh}
use kerrighed_tools.Krgadm.{returned}
use kerrighed_tools.Krgadm.Parse.{parse_nodes, node_set_str}
use kerrighed_tools.Krgadm.Parse.RoundTrip.{single, covered, AllInt, Extends, parse_nodes-print_all}
use kerrighed_tools.Krgadm.Parse.Printing.{passing, text, members, node_set_str-text}

-- The numbers that pass are those in range that do.
covered-passing :
    (test : ℕ → Bool) (rounds i m : ℕ)
    → covered (map single (passing test rounds i)) m ≡ (leb i m && ltb m (i + rounds) && test m)
covered-passing test zero i m = ground arith
covered-passing test (suc rounds) i m =
    let ih = covered-passing test rounds (i + 1) m in
    let here : (i == m) ≡ true → test m ≡ test i = λ e. ap test (sym ((==_iff i m).0 e)) in
    elim (Bool-cases (test i)) [
      | inl t ↦ rw (t, ih) (ground (arith, here))
      | inr t ↦ rw (t, ih) (ground (arith, here))
    ]

passing-AllInt :
    (test : ℕ → Bool) (rounds i : ℕ)
    → i + rounds ≤ 2147483648
    → AllInt (map single (passing test rounds i))
passing-AllInt test zero i h = tt
passing-AllInt test (suc rounds) i h = elim (Bool-cases (test i)) [
  | inl t ↦ rw t (omega arith, passing-AllInt test rounds (i + 1) (omega arith))
  | inr t ↦ rw t (passing-AllInt test rounds (i + 1) (omega arith))
]

module _ (max_nodes : ℕ) where
  -- The list has exactly the members.
  abbrev Lists : NodeSet → List ℕ → Type 0
  Lists s ms =
      AllInt (map single ms)
      × ((m : ℕ) → contains max_nodes s (pos m) ≡ (if covered (map single ms) m then 1 else 0))

  members-Lists :
      (s : NodeSet) → max_nodes ≤ 2147483648 → IsValid max_nodes s → Lists s (members max_nodes s)
  unfolding contains
  members-Lists s ints v = (
    passing-AllInt (marked s) max_nodes 0 (omega arith),
    λ m.
        rw (covered-passing (marked s) max_nodes 0 m)
          (ground (arith, marked-contains max_nodes s m)),
  )

  no_members :
      (s : NodeSet)
      → ((m : ℕ) → contains max_nodes s (pos m) ≡ 0)
      → (n : ℤ) → contains max_nodes s n ≡ 0
  unfolding contains
  no_members s h (negsuc n) = refl
  no_members s h (pos m) = h m

  read_back :
      (s t : NodeSet) (ms : List ℕ)
      → Lists s ms
      → IsFresh max_nodes t
      → (r : NodeSet) → Extends max_nodes (covered (map single ms)) t r
      → (n : ℤ) → contains max_nodes r n ≡ contains max_nodes s n
  unfolding contains
  read_back s t ms (ints, h) f r (v', e) (negsuc n) = refl
  read_back s t ms (ints, h) f r (v', e) (pos m) = ground (arith, e m, h m, f.empty (pos m))

  -- `node_set_str` writes a text between brackets. For a well-formed set with members, with node
  -- numbers that are ints, `parse_nodes` reads that text with the result 1, and makes of an empty set one
  -- with the same members; for one without members, the text is empty.
  pub parse_nodes-node_set_str :
      (s t : NodeSet)
      → max_nodes ≤ 2147483648
      → IsValid max_nodes s
      → IsFresh max_nodes t
      → (body : List ℕ) × (node_set_str max_nodes s ≡ b'[' ∷ (body ++ (b']' ∷ [])))
        × (((body ≡ []) × ((n : ℤ) → contains max_nodes s n ≡ 0))
            ⊎ (((parse_nodes max_nodes body t).1 ≡ returned (pos 1))
                × ((n : ℤ)
                    → contains max_nodes (parse_nodes max_nodes body t).0 n
                      ≡ contains max_nodes s n)))
  parse_nodes-node_set_str s t ints v f = (
    text (members max_nodes s),
    node_set_str-text max_nodes s,
    read (members max_nodes s) (members-Lists s ints v),
  )
    where
      read :
          (ms : List ℕ)
          → Lists s ms
          → ((text ms ≡ []) × ((n : ℤ) → contains max_nodes s n ≡ 0))
            ⊎ (((parse_nodes max_nodes (text ms) t).1 ≡ returned (pos 1))
                × ((n : ℤ)
                    → contains max_nodes (parse_nodes max_nodes (text ms) t).0 n
                      ≡ contains max_nodes s n))
      read [] l = inl (refl, no_members s l.1)
      read (m ∷ ms) l =
          let (one, extended) =
            parse_nodes-print_all max_nodes (single m) (map single ms) t l.0 f.valid in
          inr (one, read_back s t (m ∷ ms) l f (parse_nodes max_nodes (text (m ∷ ms)) t).0 extended)
