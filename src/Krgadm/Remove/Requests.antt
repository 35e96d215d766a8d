-- ===== src/Krgadm/Remove/Requests.antt =====
-- What `nodes_remove` of tools/krgadm.c asks of the kernel.
use kerrighed_tools.Base.{
  ℕ, zero, suc, ◌+◌, ◌≡◌, refl, ◌∙◌, ◌⊎◌, inl, inr, Bool, true, Option, none, some, List, [], ◌∷◌,
  ℤ, pos, eqb_ℤ, minus_one, ltb_ℤ, Bool-cases,
}
use kerrighed_tools.Base.Loops.{each_from}
use kerrighed_tools.Kernel.{
  World, M, Log, ioctl, HotplugNodeSet, hotplug_remove, call_kerrighed_services, open_services,
  malloc, truthy,
}
use kerrighed_tools.Hotplug.Mask.{to_hotplug}
use kerrighed_tools.Hotplug.NodeSet
use kerrighed_tools.Hotplug.NodeSet.{NodeSet, contains}
use kerrighed_tools.Hotplug.NodeSet.Iteration.{walk_nodes, walk_nodes-each_from}
use kerrighed_tools.Hotplug.Nodes
use kerrighed_tools.Hotplug.Nodes.{Nodes, has}
use kerrighed_tools.Hotplug.Services
use kerrighed_tools.Hotplug.Services.{node_set_create}
use kerrighed_tools.Proc.{get_node_id}
use kerrighed_tools.Krgadm.{Mode, unset, all, count, total, list, Chosen, with_new_set}
use kerrighed_tools.Krgadm.Remove.{
  Walk, Counted, minus, all_body, list_body, count_body, select_all, select_list, select_count,
  get_online, select,
}

-- The requests to remove nodes that a log has made, newest first.
abbrev pub removals : Log → List HotplugNodeSet
removals [] = []
removals (ioctl (hotplug_remove s) ∷ log) = s ∷ removals log
removals (c ∷ log) = removals log

-- What the body of a loop keeps, the loop keeps.
each_from-keeps {ℓ} :
    {S : Type 0} {A : Type ℓ} (test : ℕ → S → Bool) (body : ℕ → S → S) (f : S → A)
    → ((j : ℕ) (s : S) → f (body j s) ≡ f s)
    → (rounds i : ℕ) (s : S) → f (each_from test body rounds i s) ≡ f s
unfolding each_from
each_from-keeps test body f h zero i s = refl
each_from-keeps test body f h (suc rounds) i s = elim (Bool-cases (test i s)) [
  | inl t ↦ rw t (each_from-keeps test body f h rounds (i + 1) (body i s) ∙ h i s)
  | inr t ↦ rw t (each_from-keeps test body f h rounds (i + 1) s)
]

walk_nodes-keeps {ℓ} :
    {S : Type 0} {A : Type ℓ} (max_nodes : ℕ) (view : S → NodeSet) (body : ℕ → S → S) (f : S → A)
    → ((j : ℕ) (s : S) → f (body j s) ≡ f s)
    → (s : S) → f (walk_nodes max_nodes view body s) ≡ f s
walk_nodes-keeps max_nodes view body f h s =
    rw (walk_nodes-each_from max_nodes view body s) (each_from-keeps _ body f h max_nodes 0 s)

module _ (w : World) where
  get_node_id-keeps : (log : Log) → removals (get_node_id w log).1 ≡ removals log
  unfolding get_node_id call_kerrighed_services
  get_node_id-keeps log = elim (Bool-cases (eqb_ℤ (w.answer log open_services).ret minus_one)) [
    | inl t ↦ rw t refl
    | inr t ↦ rw t refl
  ]

  module _ (max_nodes : ℕ) where
    pub node_set_create-keeps :
        (log : Log) → removals (node_set_create w max_nodes log).1 ≡ removals log
    unfolding node_set_create
    node_set_create-keeps log = elim (Bool-cases (truthy (w.answer log malloc).ret)) [
      | inl t ↦ rw t refl
      | inr t ↦ rw t refl
    ]

    module _ (status : Nodes) where
      all_body-keeps :
          (j : ℕ) (t : Walk w max_nodes status)
          → removals (all_body w max_nodes status j t).log ≡ removals t.log
      unfolding all_body
      all_body-keeps j t = elim (Bool-cases (truthy (Nodes.is_online max_nodes status (pos j)))) [
        | inl e ↦ rw e (get_node_id-keeps t.log)
        | inr e ↦ rw e refl
      ]

      list_body-keeps :
          (j : ℕ) (t : Walk w max_nodes status)
          → removals (list_body w max_nodes status j t).log ≡ removals t.log
      unfolding list_body
      list_body-keeps j t = elim (Bool-cases (truthy (Nodes.is_online max_nodes status (pos j)))) [
        | inl e ↦ rw e (get_node_id-keeps t.log)
        | inr e ↦ rw e refl
      ]

      count_body-keeps :
          (n : ℤ) (j : ℕ) (t : Counted w max_nodes status)
          → removals (count_body w max_nodes status n j t).log ≡ removals t.log
      unfolding count_body
      count_body-keeps n j t = elim (Bool-cases (ltb_ℤ (pos t.bcl) n)) [
        | inr e ↦ rw e refl
        | inl e ↦ rw e elim (Bool-cases (eqb_ℤ (get_node_id w t.log).0 (pos j))) [
          | inl same ↦ rw same (get_node_id-keeps t.log)
          | inr other ↦ rw other (get_node_id-keeps t.log)
        ]
      ]

      select_all-keeps :
          (s : NodeSet) (log : Log)
          → removals (select_all w max_nodes status s log).1 ≡ removals log
      unfolding select_all
      select_all-keeps s log =
          each_from-keeps (λ j t. true) (all_body w max_nodes status) (λ t. removals t.log)
            all_body-keeps max_nodes 0 (record { set = s; log = log })

      select_list-keeps :
          (s : NodeSet) (log : Log)
          → removals (select_list w max_nodes status s log).1 ≡ removals log
      unfolding select_list
      select_list-keeps s log =
          walk_nodes-keeps max_nodes (λ t. t.set) (list_body w max_nodes status)
            (λ t. removals t.log) list_body-keeps (record { set = s; log = log })

      select_count-keeps :
          (n : ℤ) (s : NodeSet) (log : Log)
          → removals (select_count w max_nodes status n s log).1 ≡ removals log
      unfolding select_count
      select_count-keeps n s log = elim (Bool-cases (ltb_ℤ n (pos (NodeSet.weight max_nodes s)))) [
        | inl e ↦ rw e (
            walk_nodes-keeps max_nodes (λ t. t.set) (count_body w max_nodes status n)
              (λ t. removals t.log) (count_body-keeps n) (record { set = s; log = log; bcl = 0 }))
        | inr e ↦ rw e refl
      ]

      with_new_set-keeps :
          (k : NodeSet → M Chosen)
          → ((s : NodeSet) (log : Log) → removals (k s log).1 ≡ removals log)
          → (log : Log) → removals (with_new_set w max_nodes k log).1 ≡ removals log
      unfolding node_set_create
      with_new_set-keeps k h log = go (node_set_create w max_nodes log).0 refl
        where
          go :
              (made : Option NodeSet)
              → (node_set_create w max_nodes log).0 ≡ made
              → removals (with_new_set w max_nodes k log).1 ≡ removals log
          go none e = rw e (node_set_create-keeps log)
          go (some s) e = rw e (h s (node_set_create w max_nodes log).1 ∙ node_set_create-keeps log)

      pub select-keeps :
          (given : NodeSet) (n : ℤ) (mode : Mode) (log : Log)
          → removals (select w max_nodes status (some given) n mode log).1 ≡ removals log
      unfolding select
      select-keeps given n unset log = refl
      select-keeps given n all log =
          with_new_set-keeps (select_all w max_nodes status) select_all-keeps log
      select-keeps given n count log =
          with_new_set-keeps
            (λ s. select_count w max_nodes status n (get_online w max_nodes status s))
            (λ s. select_count-keeps n (get_online w max_nodes status s)) log
      select-keeps given n total log =
          let n' = minus (Nodes.num_online max_nodes status) n in
          with_new_set-keeps
            (λ s. select_count w max_nodes status n' (get_online w max_nodes status s))
            (λ s. select_count-keeps n' (get_online w max_nodes status s)) log
      select-keeps given n list log = select_list-keeps given log

    pub nodes_status-keeps :
        (log : Log) → removals (Services.nodes_status w max_nodes log).1 ≡ removals log
    unfolding Services.nodes_status Nodes.create call_kerrighed_services
    nodes_status-keeps log = elim (Bool-cases (truthy (w.answer log malloc).ret)) [
      | inr no_struct ↦ rw no_struct refl
      | inl struct ↦ rw struct elim (Bool-cases (truthy (w.answer (malloc ∷ log) malloc).ret)) [
        | inr no_block ↦ rw no_block refl
        | inl block ↦
            rw block
              elim (Bool-cases
                (eqb_ℤ (w.answer (malloc ∷ malloc ∷ log) open_services).ret minus_one)) [
                  | inl t ↦ rw t refl
                  | inr t ↦ rw t refl
                ]
      ]
    ]

    pub act-removals :
        (r : NodeSet) (log : Log)
        → (removals (Services.nodes_remove w max_nodes r log).1 ≡ removals log)
          ⊎ (removals (Services.nodes_remove w max_nodes r log).1
              ≡ to_hotplug max_nodes r ∷ removals log)
    unfolding Services.nodes_remove call_kerrighed_services
    act-removals r log = elim (Bool-cases (eqb_ℤ (w.answer log open_services).ret minus_one)) [
      | inl t ↦ inl (rw t refl)
      | inr t ↦ inr (rw t refl)
    ]
