-- ===== src/Krgadm/Remove/Finishing.antt =====
-- What `nodes_remove` of tools/krgadm.c as a whole does: which request it makes, and that it returns.
use kerrighed_tools.Base.{
  ℕ, ◌≡◌, ◌≢◌, refl, ◌∙◌, ap, inl, inr, true, false, Option, none, some, ◌∷◌, ℤ, pos, eqb_ℤ,
  minus_one, ltb, get_or, ◌≤◌, Bool-cases,
}
use kerrighed_tools.Kernel.{World, Log, HotplugNodeSet}
use kerrighed_tools.Hotplug.{online}
use kerrighed_tools.Hotplug.Mask.{hard_max_nodes, to_hotplug, to_hotplug_lem}
use kerrighed_tools.Hotplug.NodeSet
use kerrighed_tools.Hotplug.NodeSet.{NodeSet, contains}
use kerrighed_tools.Hotplug.NodeSet.Members.{IsValid}
use kerrighed_tools.Hotplug.Nodes.{Nodes, has}
use kerrighed_tools.Hotplug.Services
use kerrighed_tools.Hotplug.Services.{node_set_create}
use kerrighed_tools.Hotplug.Services.Allocation.{Allocates}
use kerrighed_tools.Krgadm.{Mode, Chosen, chosen, refused, crashed, polling, Done, returned, act_on}
use kerrighed_tools.Krgadm.Remove.{select, nodes_remove}
use kerrighed_tools.Krgadm.Remove.Selection.{Knows}
use kerrighed_tools.Krgadm.Remove.Safety.{IsSafe, select-IsSafe}
use kerrighed_tools.Krgadm.Remove.Requests.{
  removals, select-keeps, nodes_status-keeps, act-removals,
}

module _ (w : World) (max_nodes : ℕ) (self : ℤ) (knows : Knows w self) where
  -- How the removal requests may have grown: not at all, or by one, whose mask has only bits of
  -- nodes that the kernel has reported as online and that are not the current one.
  pub data Requested (log log' : Log) : Type 0 where
    nothing_asked : removals log' ≡ removals log → Requested log log'
    asked :
        (t : Nodes) (r : HotplugNodeSet)
        → (Services.nodes_status w max_nodes log).0 ≡ some t
        → ((m : ℕ) → get_or r.v m 0 ≢ 0 → (has t online m ≡ true) × (eqb_ℤ self (pos m) ≡ false))
        → removals log' ≡ r ∷ removals log
        → Requested log log'

  -- The command ends and returns, and its requests are as above.
  abbrev pub Finishes : Log → Done × Log → Type 0
  Finishes log end = ((r : ℤ) × (end.0 ≡ returned r)) × Requested log end.1

  act_on-Finishes :
      max_nodes ≤ hard_max_nodes
      → (log log₁ : Log) (t : Nodes) (c : Chosen)
      → (Services.nodes_status w max_nodes log).0 ≡ some t
      → IsSafe max_nodes t self c
      → removals log₁ ≡ removals log
      → Finishes log (act_on w max_nodes (Services.nodes_remove w max_nodes) c log₁)
  act_on-Finishes fits log log₁ t (chosen r) e (v, safe) same =
      elim (Bool-cases (ltb 0 (NodeSet.weight max_nodes r))) [
        | inr empty ↦ rw empty ((pos 0, refl), nothing_asked same)
        | inl members ↦ rw members elim (act-removals w max_nodes r log₁) [
          | inl shut ↦ ((_, refl), nothing_asked (shut ∙ same))
          | inr made ↦ (
            (_, refl),
            asked t (to_hotplug max_nodes r) e
                (λ m set.
                  let (lt, on, other) =
                    safe m (λ e. set ((to_hotplug_lem max_nodes r fits v).1 m ∙ e)) in
                  (on, other))
                (made ∙ ap (λ l. to_hotplug max_nodes r ∷ l) same),
          )
        ]
      ]
  act_on-Finishes fits log log₁ t refused e safe same = ((minus_one, refl), nothing_asked same)
  act_on-Finishes fits log log₁ t crashed e safe same = elim safe [ ]
  act_on-Finishes fits log log₁ t polling e safe same = elim safe [ ]

  -- `nodes_remove` ends and returns, in every mode and with any well-formed set and number. It asks
  -- the kernel at most once to remove nodes, and each bit of the mask in that request is a node
  -- that the kernel has reported as online and that is not the current one. The kernel always
  -- tells the same node number, `malloc` never returns NULL, and there are at most
  -- KERRIGHED_HARD_MAX_NODES nodes.
  pub nodes_remove-Finishes :
      Allocates w
      → max_nodes ≤ hard_max_nodes
      → (s : NodeSet) (n : ℤ) (mode : Mode) (log : Log) → IsValid max_nodes s
      → Finishes log (nodes_remove w max_nodes (some s) n mode log)
  unfolding nodes_remove Services.nodes_status
  nodes_remove-Finishes a fits s n mode log v = go (Services.nodes_status w max_nodes log).0 refl
    where
      go :
          (t : Option Nodes)
          → (Services.nodes_status w max_nodes log).0 ≡ t
          → Finishes log (nodes_remove w max_nodes (some s) n mode log)
      go none e = rw e ((minus_one, refl), nothing_asked (nodes_status-keeps w max_nodes log))
      go (some t) e = rw e (
          let log₁ = (Services.nodes_status w max_nodes log).1 in
          let picked = select w max_nodes t (some s) n mode log₁ in
          act_on-Finishes fits log picked.1 t picked.0 e
            (select-IsSafe w max_nodes t self knows a s n mode log₁ v)
            (select-keeps w max_nodes t s n mode log₁ ∙ nodes_status-keeps w max_nodes log))
