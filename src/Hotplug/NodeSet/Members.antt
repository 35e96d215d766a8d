-- ===== src/Hotplug/NodeSet/Members.antt =====
-- Node sets as sets: what each operation does to membership, and the shape that all of them keep.
use kerrighed_tools.Base.{
  ℕ, zero, suc, ◌+◌, ◌≡◌, refl, ◌<◌, ◌≤◌, inl, inr, some, List, [], ◌∷◌, ℤ, pos, negsuc, length,
  get_or, set, if◌then◌else◌, eqb_ℤ, arith, ◌==◌, ◌&&◌, ltb, ◌∙◌, Bool-cases, pos_part,
}
use kerrighed_tools.Base.{length-set, get_or-set_self, get_or-set_ne, ==_iff}
use native.Mathlib.Decide.{dec_lt}
use kerrighed_tools.Hotplug.{in_range}
use kerrighed_tools.Hotplug.NodeSet.{
  NodeSet, marked, clear_from, clear, create, add, remove, contains,
}

-- The array has a byte for each node, and each byte is 0 or 1.
pub record IsValid (max_nodes : ℕ) (item : NodeSet) : Type 0 where
  pub size : length item.v ≡ max_nodes
  pub flags : (i : ℕ) → get_or item.v i 0 ≤ 1

pub get_or-set :
    (xs : List ℕ) (i j v : ℕ)
    → i < length xs
    → get_or (set xs i v) j 0 ≡ (if i == j then v else get_or xs j 0)
get_or-set xs i j v h = elim (Bool-cases (i == j)) [
  | inl same ↦ rw (same, ← ((==_iff i j).0 same)) (get_or-set_self xs i v 0 h)
  | inr other ↦ rw other (get_or-set_ne xs i j v 0 (λ e. ground arith))
]

set-flags :
    (xs : List ℕ) (i v j : ℕ) → v ≤ 1 → ((k : ℕ) → get_or xs k 0 ≤ 1) → get_or (set xs i v) j 0 ≤ 1
set-flags [] i v j h f = f j
set-flags (x ∷ xs) zero v zero h f = h
set-flags (x ∷ xs) zero v (suc j) h f = f (suc j)
set-flags (x ∷ xs) (suc i) v zero h f = f 0
set-flags (x ∷ xs) (suc i) v (suc j) h f = set-flags xs i v j h (λ k. f (suc k))

length-clear_from : (rounds bcl : ℕ) (v : List ℕ) → length (clear_from rounds bcl v) ≡ length v
unfolding clear_from
length-clear_from zero bcl v = refl
length-clear_from (suc rounds) bcl v =
    length-clear_from rounds (bcl + 1) (set v bcl 0) ∙ length-set v bcl 0

get_or_past : (xs : List ℕ) (j : ℕ) → length xs ≤ j → get_or xs j 0 ≡ 0
get_or_past [] j h = refl
get_or_past (x ∷ xs) zero h = absurd (omega arith)
get_or_past (x ∷ xs) (suc j) h = get_or_past xs j (omega arith)

clear_from-zero :
    (rounds bcl : ℕ) (v : List ℕ)
    → bcl + rounds ≡ length v
    → ((j : ℕ) → j < bcl → get_or v j 0 ≡ 0)
    → (j : ℕ) → get_or (clear_from rounds bcl v) j 0 ≡ 0
unfolding clear_from
clear_from-zero zero bcl v e below j = elim (dec_lt j bcl) [
  | yes p ↦ below j p
  | no p ↦ get_or_past v j (omega arith)
]
clear_from-zero (suc rounds) bcl v e below j =
    clear_from-zero rounds (bcl + 1) (set v bcl 0) (rw length-set (omega arith))
      (λ i lt. rw (get_or-set v bcl i 0 (omega arith)) (ground (arith, below i))) j

module _ (max_nodes : ℕ) where
  -- A byte that passes the test of the loops is a member, and the other way round.
  pub marked-contains :
      (item : NodeSet) (i : ℕ)
      → i < max_nodes
      → IsValid max_nodes item
      → contains max_nodes item (pos i) ≡ (if marked item i then 1 else 0)
  unfolding contains
  marked-contains item i h v = ground (arith, v.flags i)

  pub clear-IsValid :
      (item : NodeSet) → length item.v ≡ max_nodes → IsValid max_nodes (clear max_nodes item)
  unfolding clear
  clear-IsValid item e = record {
    size = length-clear_from max_nodes 0 item.v ∙ e;
    flags = λ i.
        omega
          (arith, clear_from-zero max_nodes 0 item.v (omega arith) (λ j h. absurd (omega arith)) i);
  }

  -- When both allocations succeed, whatever bytes they hold, `krg_node_set_create` returns a
  -- well-formed set of subcluster 0 that contains no node.
  pub create_lem :
      (id : ℤ) (block : List ℕ)
      → length block ≡ max_nodes
      → (item : NodeSet) × (create max_nodes (some id) (some block) ≡ some item)
        × IsValid max_nodes item
        × (item.subclusterid ≡ pos 0)
        × ((n : ℤ) → contains max_nodes item n ≡ 0)
  unfolding create
  create_lem id block e =
      (clear max_nodes item, refl, clear-IsValid item e, unfold clear in refl, empty)
    where
      item : NodeSet
      item = record { subclusterid = id; v = block }

      empty : (n : ℤ) → contains max_nodes (clear max_nodes item) n ≡ 0
      empty (negsuc n) = unfold contains in refl
      empty (pos n) =
          unfold contains clear in
          ground (
            arith,
            clear_from-zero max_nodes 0 block (omega arith) (λ j lt. absurd (omega arith)) n,
          )

  -- `krg_node_set_add` keeps a well-formed set well-formed, for any C int.
  pub add-IsValid :
      (item : NodeSet) (n : ℤ) → IsValid max_nodes item → IsValid max_nodes (add max_nodes item n).0
  unfolding add
  add-IsValid item n v = elim (Bool-cases (in_range max_nodes n)) [
    | inl t ↦ rw t (record {
      size = length-set item.v (pos_part n) 1 ∙ v.size;
      flags = λ i. set-flags item.v (pos_part n) 1 i (omega arith) v.flags;
    })
    | inr t ↦ rw t v
  ]

  -- So does `krg_node_set_remove`.
  pub remove-IsValid :
      (item : NodeSet) (n : ℤ)
      → IsValid max_nodes item
      → IsValid max_nodes (remove max_nodes item n).0
  unfolding remove
  remove-IsValid item n v = elim (Bool-cases (in_range max_nodes n)) [
    | inl t ↦ rw t (record {
      size = length-set item.v (pos_part n) 0 ∙ v.size;
      flags = λ i. set-flags item.v (pos_part n) 0 i (omega arith) v.flags;
    })
    | inr t ↦ rw t v
  ]

  -- After `krg_node_set_add(item, n)` a well-formed set contains what it contained and, if `n` is in range,
  -- also `n`; out of range nothing is added. This holds for every queried C int `m`.
  pub contains-add :
      (item : NodeSet) (n m : ℤ)
      → IsValid max_nodes item
      → contains max_nodes (add max_nodes item n).0 m
        ≡ (if in_range max_nodes n && eqb_ℤ n m then 1 else contains max_nodes item m)
  unfolding add contains
  contains-add item (negsuc n) m v = refl
  contains-add item (pos n) (negsuc m) v = ground arith
  contains-add item (pos n) (pos m) v = elim (Bool-cases (ltb n max_nodes)) [
    | inl t ↦ rw (t, get_or-set item.v n m 1 (ground (arith, v.size))) (ground arith)
    | inr t ↦ rw t refl
  ]

  -- After `krg_node_set_remove(item, n)` a well-formed set contains what it contained except `n`; this holds
  -- for every queried C int `m`, in range or not.
  pub contains-remove :
      (item : NodeSet) (n m : ℤ)
      → IsValid max_nodes item
      → contains max_nodes (remove max_nodes item n).0 m
        ≡ (if eqb_ℤ n m then 0 else contains max_nodes item m)
  unfolding remove contains
  contains-remove item (negsuc n) (negsuc m) v = ground arith
  contains-remove item (negsuc n) (pos m) v = refl
  contains-remove item (pos n) (negsuc m) v = ground arith
  contains-remove item (pos n) (pos m) v = elim (Bool-cases (ltb n max_nodes)) [
    | inl t ↦ rw (t, get_or-set item.v n m 0 (ground (arith, v.size))) (ground arith)
    | inr t ↦ rw t (ground arith)
  ]
