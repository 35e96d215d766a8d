-- ===== src/Hotplug/Services/Allocation.antt =====
-- Node sets that are allocated: what `krg_node_set_create` gives where `malloc` succeeds.
use kerrighed_tools.Base.{ℕ, ◌≡◌, true, some, ℤ, pos, ◌∷◌}
use kerrighed_tools.Kernel.{World, Log, malloc, truthy, fit, length-fit, bytes_of}
use kerrighed_tools.Hotplug.NodeSet
use kerrighed_tools.Hotplug.NodeSet.{NodeSet}
use kerrighed_tools.Hotplug.NodeSet.Members.{IsValid, create_lem}
use kerrighed_tools.Hotplug.Services.{node_set_create}

-- `malloc` never returns NULL.
abbrev pub Allocates : World → Type 0
Allocates w = (log : Log) → truthy (w.answer log malloc).ret ≡ true

-- A fresh set: well-formed and empty.
pub record IsFresh (max_nodes : ℕ) (s : NodeSet) : Type 0 where
  pub valid : IsValid max_nodes s
  pub empty : (n : ℤ) → NodeSet.contains max_nodes s n ≡ 0

module _ (w : World) (max_nodes : ℕ) where
  -- Where `malloc` never returns NULL, `krg_node_set_create` returns a well-formed set without members,
  -- whatever the memory held.
  pub node_set_create_lem :
      Allocates w
      → (log : Log)
      → (s : NodeSet) × (log' : Log) × (node_set_create w max_nodes log ≡ (some s, log'))
        × IsFresh max_nodes s
  unfolding node_set_create
  node_set_create_lem a log =
      let block = fit max_nodes (bytes_of (w.answer (malloc ∷ log) malloc).out) in
      let (s, made, v, sub, empty) = create_lem max_nodes (pos 0) block (length-fit max_nodes _) in
      (
        s,
        malloc ∷ malloc ∷ log,
        rw (a log, a (malloc ∷ log), made),
        record { valid = v; empty = empty },
      )
