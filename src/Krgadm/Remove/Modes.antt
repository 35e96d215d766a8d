-- ===== src/Krgadm/Remove/Modes.antt =====
-- `--count` and `--total` of `krgadm nodes del` (tools/krgadm.c): how many nodes each takes out, and which.
use kerrighed_tools.Base.{ℕ, ◌≡◌, ◌&&◌, true, false, ℤ, pos, pos_part, ltb_ℤ, ltb, if◌then◌else◌}
use kerrighed_tools.Base.Ranks.{first_of}
use kerrighed_tools.Kernel.{World}
use kerrighed_tools.Hotplug.NodeSet.{NodeSet, contains, weight}
use kerrighed_tools.Hotplug.NodeSet.Members.{IsValid}
use kerrighed_tools.Hotplug.Nodes
use kerrighed_tools.Hotplug.Nodes.{Nodes}
use kerrighed_tools.Krgadm.{Chosen, chosen, refused, crashed, polling}
use kerrighed_tools.Krgadm.Remove.Selection.{Knows, removable}

module _ (w : World) (max_nodes : ℕ) (status : Nodes) (self : ℤ) (knows : Knows w self) where
  -- With `k` nodes to be taken out: a refusal, when not more than `k` nodes are online; else a
  -- well-formed set of exactly the first `k` online nodes but the current one, which are `k` nodes.
  abbrev pub IsTaken : ℤ → Chosen → Type 0
  IsTaken k (chosen r) =
      (ltb_ℤ k (pos (Nodes.num_online max_nodes status)) ≡ true)
      × IsValid max_nodes r
      × ((m : ℕ)
          → contains max_nodes r (pos m)
            ≡ (if ltb m max_nodes && first_of (removable status self) (pos_part k) m then 1 else 0))
      × (weight max_nodes r ≡ pos_part k)
  IsTaken k refused = ltb_ℤ k (pos (Nodes.num_online max_nodes status)) ≡ false
  IsTaken k crashed = ⊥
  IsTaken k polling = ⊥
