-- ===== src/Krgadm/Commands/Deletion.antt =====
-- `krgadm nodes del` (tools/krgadm.c), from the command line to the requests.
use Prim.Native.String.{String}
use kerrighed_tools.Base.{
  ℕ, ◌≡◌, ◌⊎◌, inl, inr, refl, ◌∙◌, ◌≤◌, List, Option, none, some, ℤ, pos, minus_one, pos_part,
  eqb_ℤ, replicate, length-replicate, Bool-cases,
}
use kerrighed_tools.Kernel.{World, M, return, Log, truthy}
use kerrighed_tools.Hotplug.Mask.{hard_max_nodes}
use kerrighed_tools.Hotplug.NodeSet
use kerrighed_tools.Hotplug.NodeSet.{NodeSet}
use kerrighed_tools.Hotplug.NodeSet.Members.{IsValid, clear-IsValid}
use kerrighed_tools.Hotplug.Services.{Globals, check_hotplug, hotplug_init}
use kerrighed_tools.Hotplug.Services.Allocation.{Allocates}
use kerrighed_tools.Krgadm.{Mode, unset, all, count, total, list, Done}
use kerrighed_tools.Krgadm.Remove
use kerrighed_tools.Krgadm.Remove.Selection.{Knows}
use kerrighed_tools.Krgadm.Remove.Requests.{removals}
use kerrighed_tools.Krgadm.Remove.Finishing.{
  Requested, nothing_asked, Finishes, nodes_remove-Finishes,
}
use kerrighed_tools.Krgadm.Commands.{
  del, Opt, Parsed, Read, leaves, reads, Exit, exit_success, exit_failure, exit_of, is_unset,
  nodes_action, options, nodes_act, nodes_on, nodes,
}
use kerrighed_tools.Krgadm.Commands.Options.{
  Suits, AllBounded, check_hotplug-keeps, hotplug_init-keeps, Good, fresh, options-Good,
}

module _ (w : World) (max_nodes : ℕ) where
  abbrev empty_set : NodeSet
  empty_set = NodeSet.clear max_nodes (record { subclusterid = pos 0; v = replicate max_nodes 0 })

  empty_set-IsValid : IsValid max_nodes empty_set
  empty_set-IsValid = clear-IsValid max_nodes _ (length-replicate max_nodes 0)

  module _ (self : ℤ) (knows : Knows w self) where
    -- `nodes_remove`, with a set where the mode needs one.
    nodes_remove-Finishes_any :
        Allocates w
        → max_nodes ≤ hard_max_nodes
        → (given : Option NodeSet) (n : ℤ) (mode : Mode) (log : Log) → Suits max_nodes mode given
        → Finishes w max_nodes self knows log (Remove.nodes_remove w max_nodes given n mode log)
    unfolding Remove.nodes_remove Remove.select
    nodes_remove-Finishes_any a fits (some s) n mode log v =
        nodes_remove-Finishes w max_nodes self knows a fits s n mode log v
    nodes_remove-Finishes_any a fits none n list log v = elim v [ ]
    nodes_remove-Finishes_any a fits none n unset log v =
        nodes_remove-Finishes w max_nodes self knows a fits empty_set n unset log empty_set-IsValid
    nodes_remove-Finishes_any a fits none n all log v =
        nodes_remove-Finishes w max_nodes self knows a fits empty_set n all log empty_set-IsValid
    nodes_remove-Finishes_any a fits none n count log v =
        nodes_remove-Finishes w max_nodes self knows a fits empty_set n count log empty_set-IsValid
    nodes_remove-Finishes_any a fits none n total log v =
        nodes_remove-Finishes w max_nodes self knows a fits empty_set n total log empty_set-IsValid

    -- The command ends with one of the two exit codes, and its requests are as `Requested` says.
    abbrev pub Ends : Log → Exit × Log → Type 0
    Ends log end =
        ((end.0 ≡ exit_success) ⊎ (end.0 ≡ exit_failure))
        × Requested w max_nodes self knows log end.1

    returned-Ends :
        (log : Log) (r : Done × Log)
        → Finishes w max_nodes self knows log r
        → Ends log (exit_of r.0, r.1)
    returned-Ends log (end, log') ((r, e), requests) = rw e (elim (Bool-cases (eqb_ℤ r minus_one)) [
      | inl t ↦ rw t (inr refl, requests)
      | inr t ↦ rw t (inl refl, requests)
    ])

    nodes_act-Ends :
        Allocates w
        → max_nodes ≤ hard_max_nodes
        → (fuel : ℕ) (p : Parsed) (log : Log) → Suits max_nodes p.mode p.node_set
        → Ends log (nodes_act w max_nodes fuel del p log)
    unfolding nodes_act
    nodes_act-Ends a fits fuel p log suits = elim (Bool-cases (is_unset p.mode)) [
      | inl t ↦ rw t (inr refl, nothing_asked refl)
      | inr t ↦ rw t (
          returned-Ends log (Remove.nodes_remove w max_nodes p.node_set p.nb_nodes p.mode log)
            (nodes_remove-Finishes_any a fits p.node_set p.nb_nodes p.mode log suits))
    ]

    nodes_on-Ends :
        Allocates w
        → max_nodes ≤ hard_max_nodes
        → (fuel : ℕ) (opts : List Opt) (log : Log) → AllBounded opts
        → (log₀ : Log) × (removals log₀ ≡ removals log)
          × Ends log₀ (nodes_on w max_nodes fuel del opts log)
    unfolding nodes_on
    nodes_on-Ends a fits fuel opts log bounded =
        parsed (options w max_nodes del opts (fresh w max_nodes minus_one) log)
          (options-Good w max_nodes a del opts minus_one log bounded)
      where
        parsed :
            (r : Read × Log)
            → Good w max_nodes log r
            → (log₀ : Log) × (removals log₀ ≡ removals log)
              × Ends log₀ (
                  (elim r.0 as (λ _. M Exit) [
                    | leaves e ↦ return e
                    | reads p ↦ nodes_act w max_nodes fuel del p
                  ])
                    r.1)
        parsed (leaves e, log') (failed, kept) = (log', kept, (inr failed, nothing_asked refl))
        parsed (reads p, log') (suits, kept) = (log', kept, nodes_act-Ends a fits fuel p log' suits)

-- `kerrighed_max_nodes`, as `krg_hotplug_init` leaves it.
abbrev pub nodes_of : World → Globals → Log → ℕ
nodes_of w g log = pos_part (hotplug_init w g log).0.1.kerrighed_max_nodes

module _ (w : World) (self : ℤ) (knows : Knows w self) where
  -- `krgadm nodes del`, with options that have no range of nodes up to the greatest int (where the loop
  -- would not end) and from any state of the globals, ends with one of the two exit codes, and asks the kernel at most once to remove nodes; each bit of the mask in that request is
  -- a node that the kernel has reported as online and that is not the current one. The kernel
  -- always tells the same node number, `malloc` never returns NULL, and `krg_hotplug_init` finds at
  -- most KERRIGHED_HARD_MAX_NODES nodes.
  pub nodes-del :
      Allocates w
      → (fuel : ℕ) (argv : List String) (opts : List Opt) (g : Globals) (log : Log)
      → nodes_action argv ≡ del
      → AllBounded opts
      → ((log' : Log) → nodes_of w g log' ≤ hard_max_nodes)
      → (log₀ : Log) × (removals log₀ ≡ removals log)
        × Ends w
            (nodes_of w g (check_hotplug w log).1)
            self
            knows
            log₀
            (nodes w fuel argv opts g log)
  unfolding nodes
  nodes-del a fuel argv opts g log e bounded fits =
      let log₁ = (check_hotplug w log).1 in
      let same = check_hotplug-keeps w log in
      elim (Bool-cases (truthy (check_hotplug w log).0)) [
        | inl t ↦ rw t (log₁, same, (inr refl, nothing_asked refl))
        | inr t ↦
            rw (t, e)
              (let (log₀, kept, ends) =
                  nodes_on-Ends w (nodes_of w g log₁) self knows a (fits log₁) fuel opts
                    (hotplug_init w g log₁).1 bounded in
                (log₀, kept ∙ hotplug_init-keeps w g log₁ ∙ same, ends))
      ]
