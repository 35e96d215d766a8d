-- ===== src/Krgadm/Remove/Safety.antt =====
-- What every mode of `nodes_remove` (tools/krgadm.c) keeps to.
use kerrighed_tools.Base.{
  ℕ, ◌≡◌, ◌≢◌, ◌∙◌, ◌<◌, true, false, some, ℤ, pos, eqb_ℤ, if◌then◌else◌, arith, inl, inr,
}
use kerrighed_tools.Kernel.{World, Log}
use kerrighed_tools.Hotplug.{online}
use kerrighed_tools.Hotplug.NodeSet.{NodeSet, contains}
use kerrighed_tools.Hotplug.NodeSet.Members.{IsValid}
use kerrighed_tools.Hotplug.NodeSet.Loops.{fill-IsValid, contains-fill}
use kerrighed_tools.Hotplug.Nodes
use kerrighed_tools.Hotplug.Nodes.{Nodes, has}
use kerrighed_tools.Hotplug.Services.{node_set_create}
use kerrighed_tools.Hotplug.Services.Allocation.{Allocates, IsFresh, node_set_create_lem}
use kerrighed_tools.Krgadm.{
  Mode, unset, all, count, total, list, Chosen, chosen, refused, crashed, polling,
}
use kerrighed_tools.Krgadm.Remove.{select, select_all, select_list, select_count, get_online, minus}
use kerrighed_tools.Krgadm.Remove.Selection.{Knows, removable, select_all_lem, select_list_lem}
use kerrighed_tools.Krgadm.Remove.First.{select_count_lem, IsOnlineSet}

-- A selection is a well-formed set of online nodes without the current one, or a refusal; it is
-- no crash and no endless wait.
abbrev pub IsSafe : ℕ → Nodes → ℤ → Chosen → Type 0
IsSafe max_nodes status self (chosen r) =
    IsValid max_nodes r
    × ((m : ℕ)
        → contains max_nodes r (pos m) ≢ 0
        → (m < max_nodes) × (has status online m ≡ true) × (eqb_ℤ self (pos m) ≡ false))
IsSafe max_nodes status self refused = Unit
IsSafe max_nodes status self crashed = ⊥
IsSafe max_nodes status self polling = ⊥

module _ (w : World) (max_nodes : ℕ) (status : Nodes) (self : ℤ) (knows : Knows w self) where
  pub get_online_lem :
      (s : NodeSet)
      → IsFresh max_nodes s
      → IsValid max_nodes (get_online w max_nodes status s)
        × IsOnlineSet w max_nodes status self knows (pos 0) (get_online w max_nodes status s)
  unfolding get_online
  get_online_lem s f = (
    fill-IsValid max_nodes (has status online) s f.valid,
    λ m. contains-fill max_nodes (has status online) s m f.valid ∙ ground (arith, f.empty (pos m)),
  )

  select_count-IsSafe :
      (n : ℤ) (s : NodeSet) (log : Log)
      → IsFresh max_nodes s
      → IsSafe max_nodes status self
          (select_count w max_nodes status n (get_online w max_nodes status s) log).0
  select_count-IsSafe n s log f =
      let (v, o) = get_online_lem s f in
      elim (select_count_lem w max_nodes status self knows n (get_online w max_nodes status s) log v
        o) [
          | inl (few, e) ↦ rw e tt
          | inr (r, log', e, v', h, weighs, enough) ↦ rw e (v', λ m ne. ground (arith, h m))
        ]

  chosen-IsSafe :
      (s r : NodeSet)
      → IsValid max_nodes s
      → IsValid max_nodes r
      → ((m : ℕ)
          → contains max_nodes r (pos m)
            ≡ (if removable status self m then contains max_nodes s (pos m) else 0))
      → IsSafe max_nodes status self (chosen r)
  chosen-IsSafe s r v v' h = (v', λ m ne. unfold contains in ground (arith, h m))

  select_all-IsSafe :
      (s : NodeSet) (log : Log)
      → IsFresh max_nodes s
      → IsSafe max_nodes status self (select_all w max_nodes status s log).0
  select_all-IsSafe s log f =
      let (r, log', e, v, h) = select_all_lem w max_nodes status self knows s log f in
      rw e (v, λ m ne. ground (arith, h m))

  select_list-IsSafe :
      (s : NodeSet) (log : Log)
      → IsValid max_nodes s
      → IsSafe max_nodes status self (select_list w max_nodes status s log).0
  select_list-IsSafe s log v =
      let (r, log', e, v', h) = select_list_lem w max_nodes status self knows s log v in
      rw e (chosen-IsSafe s r v v' h)

  -- Whatever the mode, the arguments and the given well-formed set, `nodes_remove` selects only
  -- online nodes of the cluster and never the node that it runs on, or refuses; it ends, and reads
  -- no NULL. The kernel always tells the same node number, and `malloc` never returns NULL.
  pub select-IsSafe :
      Allocates w
      → (s : NodeSet) (n : ℤ) (mode : Mode) (log : Log) → IsValid max_nodes s
      → IsSafe max_nodes status self (select w max_nodes status (some s) n mode log).0
  unfolding select node_set_create
  select-IsSafe a s n unset log v = tt
  select-IsSafe a s n all log v =
      let (fresh, log', e, f) = node_set_create_lem w max_nodes a log in
      rw e (select_all-IsSafe fresh log' f)
  select-IsSafe a s n count log v =
      let (fresh, log', e, f) = node_set_create_lem w max_nodes a log in
      rw e (select_count-IsSafe n fresh log' f)
  select-IsSafe a s n total log v =
      let (fresh, log', e, f) = node_set_create_lem w max_nodes a log in
      rw e (select_count-IsSafe (minus (Nodes.num_online max_nodes status) n) fresh log' f)
  select-IsSafe a s n list log v = select_list-IsSafe s log v
