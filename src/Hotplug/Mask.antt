-- ===== src/Hotplug/Mask.antt =====
-- libs/include/krgnodemask.h, and the loops of libs/libkerrighed/libhotplug.c that turn a node set
-- into the mask for the kernel. A mask has KERRIGHED_HARD_MAX_NODES bits in its words; they are
-- kept as a list of bits, lowest first, which is how `bts` numbers them in memory.
use kerrighed_tools.Base.{
  ℕ, zero, suc, ◌+◌, ◌≡◌, refl, ◌∙◌, ◌≤◌, List, ℤ, pos, length, get_or, set, replicate, length-set,
  length-replicate, if◌then◌else◌, arith, ltb, leb, ◌&&◌, Bool-cases, inl, inr,
}
use kerrighed_tools.Base.Loops.{each_from}
use kerrighed_tools.Kernel.{HotplugNodeSet}
use kerrighed_tools.Hotplug.NodeSet.{NodeSet, marked, contains}
use kerrighed_tools.Hotplug.NodeSet.Members.{IsValid, get_or-set}

abbrev pub hard_max_nodes : ℕ
hard_max_nodes = 256

-- `krgnodes_clear`
unfoldable pub krgnodes_clear : List ℕ
krgnodes_clear = replicate hard_max_nodes 0

-- `krgnode_set`. A bit outside of the mask, which the instruction would set in whatever lies
-- behind it, is not set.
unfoldable pub krgnode_set : ℕ → List ℕ → List ℕ
krgnode_set node dst = set dst node 1

module _ (max_nodes : ℕ) where
  mask : NodeSet → List ℕ
  unfolding krgnodes_clear krgnode_set
  mask krg_node_set =
      each_from (λ i v. marked krg_node_set i) krgnode_set max_nodes 0 krgnodes_clear

  -- The struct that `krg_nodes_add` and `krg_nodes_remove` pass to the kernel.
  unfoldable pub to_hotplug : NodeSet → HotplugNodeSet
  unfolding mask
  to_hotplug s = record { subclusterid = s.subclusterid; v = mask s }

  -- The struct that `krg_nodes_fail` and `krg_nodes_poweroff` pass: its subcluster is not set, and
  -- is whatever the stack holds.
  unfoldable pub to_hotplug_unset : ℤ → NodeSet → HotplugNodeSet
  unfolding mask
  to_hotplug_unset stack s = record { subclusterid = stack; v = mask s }

  mask_from :
      (s : NodeSet) (rounds i : ℕ) (v : List ℕ)
      → i + rounds ≤ length v
      → let r = each_from (λ j d. marked s j) krgnode_set rounds i v in
        (length r ≡ length v)
        × ((m : ℕ)
            → get_or r m 0
              ≡ (if leb i m && ltb m (i + rounds) && marked s m then 1 else get_or v m 0))
  unfolding each_from krgnode_set
  mask_from s zero i v h = (refl, λ m. ground arith)
  mask_from s (suc rounds) i v h = elim (Bool-cases (marked s i)) [
    | inl t ↦ rw t (
        let (a, b) = mask_from s rounds (i + 1) (set v i 1) (rw length-set (omega arith)) in
        (a ∙ length-set v i 1, λ m. b m ∙ ground (arith, get_or-set v i m 1 (omega arith))))
    | inr t ↦
        rw t
          (let (a, b) = mask_from s rounds (i + 1) v (omega arith) in (a, λ m. b m ∙ ground arith))
  ]

  replicate_zero : (n m : ℕ) → ◌≡◌ {A = ℕ} (get_or (replicate n 0) m 0) 0
  replicate_zero zero m = refl
  replicate_zero (suc n) zero = refl
  replicate_zero (suc n) (suc m) = replicate_zero n m

  -- As long as the cluster has at most KERRIGHED_HARD_MAX_NODES nodes, the kernel is told exactly
  -- the set: the mask has 256 bits, and bit `m` is 1 just when node `m` is a member.
  pub to_hotplug_lem :
      (s : NodeSet)
      → max_nodes ≤ hard_max_nodes
      → IsValid max_nodes s
      → (length (to_hotplug s).v ≡ hard_max_nodes)
        × ((m : ℕ) → get_or (to_hotplug s).v m 0 ≡ contains max_nodes s (pos m))
  unfolding to_hotplug krgnodes_clear contains
  to_hotplug_lem s h v =
      let (a, b) =
        mask_from s max_nodes 0 (replicate hard_max_nodes 0) (rw length-replicate (omega arith)) in
      (
        a ∙ length-replicate {A = ℕ} hard_max_nodes 0,
        λ m. b m ∙ ground (arith, v.flags m, replicate_zero hard_max_nodes m),
      )
