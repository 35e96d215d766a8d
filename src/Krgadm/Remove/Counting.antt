-- ===== src/Krgadm/Remove/Counting.antt =====
-- The loop of `nodes_remove` (tools/krgadm.c) that keeps the first nodes of a set, round by round.
use Prim.Native.Nat.{min}
use kerrighed_tools.Base.{
  ℕ, zero, suc, ◌+◌, ◌≡◌, ◌∙◌, ◌<◌, ◌≤◌, Bool, ◌&&◌, ℤ, pos, pos_part, eqb_ℤ, ltb_ℤ, ltb, leb, ◌==◌,
  if◌then◌else◌, arith, Bool-cases, inl, inr,
}
use kerrighed_tools.Base.Loops.{each_from, count_from}
use kerrighed_tools.Base.Ranks.{rank, rank-suc, first_of}
use kerrighed_tools.Kernel.{World}
use kerrighed_tools.Hotplug.{online, in_range}
use kerrighed_tools.Hotplug.NodeSet.{NodeSet, marked, contains}
use kerrighed_tools.Hotplug.NodeSet.Members.{
  IsValid, contains-remove, remove-IsValid, marked-contains,
}
use kerrighed_tools.Hotplug.Nodes.{Nodes, has}
use kerrighed_tools.Krgadm.Remove.{Counted, count_body}
use kerrighed_tools.Krgadm.Remove.Selection.{Knows, removable}

-- At most one of the online nodes, the current one, is not removable.
pub online-le-removable :
    (status : Nodes) (self : ℤ) (m : ℕ)
    → rank (has status online) m
      ≤ rank (removable status self) m + (if in_range m self then 1 else 0)
online-le-removable status self zero = unfold count_from in omega arith
online-le-removable status self (suc m) =
    rw (rank-suc (has status online) m, rank-suc (removable status self) m)
      (ground (arith, online-le-removable status self m))

module _ (w : World) (max_nodes : ℕ) (status : Nodes) (self : ℤ) (knows : Knows w self)
    (n : ℤ) where
  abbrev State : Type 0
  State = Counted w max_nodes status

  -- The nodes that the loop keeps.
  abbrev kept : ℕ → Bool
  kept = first_of (removable status self) (pos_part n)

  abbrev pub passed : ℕ → ℕ
  passed i = min (pos_part n) (rank (removable status self) i)

  abbrev pub advance : ℕ → State → State
  advance i s = if marked s.set i then count_body w max_nodes status n i s else s

  pub record Before (i : ℕ) (s : State) : Type 0 where
    pub valid : IsValid max_nodes s.set
    pub ahead : (j : ℕ) → i ≤ j → j < max_nodes → marked s.set j ≡ has status online j
    pub counted : s.bcl ≡ passed i

  pub record After (i : ℕ) (s r : State) : Type 0 where
    pub valid : IsValid max_nodes r.set
    pub members :
        (m : ℕ)
        → contains max_nodes r.set (pos m)
          ≡ (if i == m then (if kept i then 1 else 0) else contains max_nodes s.set (pos m))
    pub counted : r.bcl ≡ passed (suc i)

  compare-n : (b : ℕ) → ltb_ℤ (pos b) n ≡ ltb b (pos_part n)
  compare-n b = ground arith

  advance-After : (i : ℕ) (s : State) → i < max_nodes → Before i s → After i s (advance i s)
  unfolding count_body
  advance-After i s h b =
      let here = b.ahead i (omega arith) h in
      let step = rank-suc (removable status self) i in
      let member = marked-contains max_nodes s.set i h b.valid in
      elim (Bool-cases (marked s.set i)) [
        | inr t ↦
            rw t (record { valid = b.valid; members = λ m. ground arith; counted = ground arith })
        | inl t ↦
            rw (t, compare-n s.bcl)
              (elim (Bool-cases (ltb s.bcl (pos_part n))) [
                | inr full ↦ rw full (record {
                  valid = remove-IsValid max_nodes s.set (pos i) b.valid;
                  members =
                      λ m. contains-remove max_nodes s.set (pos i) (pos m) b.valid ∙ ground arith;
                  counted = ground arith;
                })
                | inl more ↦
                    rw (more, knows s.log)
                      (elim (Bool-cases (eqb_ℤ self (pos i))) [
                        | inl me ↦ rw me (record {
                          valid = remove-IsValid max_nodes s.set (pos i) b.valid;
                          members = λ m.
                              contains-remove max_nodes s.set (pos i) (pos m) b.valid
                              ∙ ground arith;
                          counted = ground arith;
                        })
                        | inr other ↦ rw other (record {
                          valid = b.valid;
                          members = λ m. ground arith;
                          counted = ground arith;
                        })
                      ])
              ])
      ]

  marked_congr :
      (a b : NodeSet) (i : ℕ)
      → i < max_nodes
      → IsValid max_nodes a
      → IsValid max_nodes b
      → contains max_nodes a (pos i) ≡ contains max_nodes b (pos i)
      → marked a i ≡ marked b i
  marked_congr a b i h va vb e =
      ground (arith, marked-contains max_nodes a i h va, marked-contains max_nodes b i h vb)

  After-Before :
      (i : ℕ) (s : State)
      → i < max_nodes
      → Before i s
      → After i s (advance i s)
      → Before (i + 1) (advance i s)
  After-Before i s h b a = record {
    valid = a.valid;
    ahead = λ j lo hi.
        marked_congr (advance i s).set s.set j hi a.valid b.valid (ground (arith, a.members j))
        ∙ b.ahead j (omega arith) hi;
    counted = let e : i + 1 ≡ suc i = omega arith in rw e a.counted;
  }

  pub loop_lem :
      (rounds i : ℕ) (s : State)
      → i + rounds ≡ max_nodes
      → Before i s
      → let r =
          (each_from (λ j t. marked t.set j) (count_body w max_nodes status n) rounds i s).set in
        IsValid max_nodes r
        × ((m : ℕ)
            → contains max_nodes r (pos m) ≡ (
                if leb i m && ltb m max_nodes
                then (if kept m then 1 else 0)
                else contains max_nodes s.set (pos m)))
  unfolding each_from
  loop_lem zero i s e b = (b.valid, λ m. ground arith)
  loop_lem (suc rounds) i s e b =
      let a = advance-After i s (omega arith) b in
      let (v, h) =
        loop_lem rounds (i + 1) (advance i s) (omega arith) (After-Before i s (omega arith) b a) in
      (v, λ m. h m ∙ ground (arith, a.members m))
