-- ===== src/Krgadm/Commands/Options.antt =====
-- The options of `krgadm nodes` (tools/krgadm.c): what the loop over them ends with.
use kerrighed_tools.Base.{
  ℕ, ◌≡◌, inl, inr, refl, sym, ap, ◌∙◌, false, List, [], ◌∷◌, Option, none, some, ℤ, minus_one,
  eqb_ℤ, Bool-cases,
}
use kerrighed_tools.Kernel.{World, M, return, Log, get_node_id, nb_max_nodes, nb_max_clusters}
use kerrighed_tools.Hotplug.NodeSet.{NodeSet}
use kerrighed_tools.Hotplug.NodeSet.Members.{IsValid}
use kerrighed_tools.Hotplug.Services.{
  Globals, check_hotplug, hotplug_init, get_max_nodes, get_max_clusters, node_set_create,
}
use kerrighed_tools.Hotplug.Services.Allocation.{Allocates, node_set_create_lem}
use kerrighed_tools.Krgadm.{Mode, unset, count, total, list, Done, returned, crash, no_end}
use kerrighed_tools.Krgadm.Parse.{parse_nodes, whole_number}
use kerrighed_tools.Krgadm.Parse.Ranges.{endless, Returned, parse_nodes-Returned}
use kerrighed_tools.Krgadm.Parse.Valid.{parse_nodes-IsValid}
use kerrighed_tools.Krgadm.Remove.Requests.{removals, node_set_create-keeps}
use kerrighed_tools.Kernel.Calls.{IsView, call-keeps}
use kerrighed_tools.Krgadm.Commands.{
  Action, Opt, nodes_opt, count_opt, total_opt, all_opt, other_opt, Parsed, Read, leaves, reads,
  exit_failure, with_nodes, is_unset, is_status, number_option, nodes_option, option, options,
}

-- No list of nodes on the command line has a range up to the greatest int.
abbrev pub IsBounded : Opt → Type 0
IsBounded (nodes_opt optarg) = endless optarg ≡ false
IsBounded (count_opt _) = Unit
IsBounded (total_opt _) = Unit
IsBounded all_opt = Unit
IsBounded other_opt = Unit

abbrev pub AllBounded : List Opt → Type 0
AllBounded [] = Unit
AllBounded (o ∷ os) = IsBounded o × AllBounded os

-- With the mode of `--nodes` there is a well-formed set.
abbrev pub Suits : ℕ → Mode → Option NodeSet → Type 0
Suits max_nodes mode (some s) = IsValid max_nodes s
Suits max_nodes list none = ⊥
Suits max_nodes _ none = Unit

removals-IsView : IsView removals
removals-IsView = record { opens = λ l. refl; closes = λ l. refl }

module _ (w : World) where
  pub check_hotplug-keeps : (log : Log) → removals (check_hotplug w log).1 ≡ removals log
  unfolding check_hotplug
  check_hotplug-keeps log = call-keeps w removals removals-IsView get_node_id log (λ l. refl)

  get_max_nodes-keeps : (g : ℤ) (log : Log) → removals (get_max_nodes w g log).1 ≡ removals log
  unfolding get_max_nodes
  get_max_nodes-keeps g log = elim (Bool-cases (eqb_ℤ g minus_one)) [
    | inl t ↦ rw t (call-keeps w removals removals-IsView nb_max_nodes log (λ l. refl))
    | inr t ↦ rw t refl
  ]

  get_max_clusters-keeps :
      (g : ℤ) (log : Log) → removals (get_max_clusters w g log).1 ≡ removals log
  unfolding get_max_clusters
  get_max_clusters-keeps g log = elim (Bool-cases (eqb_ℤ g minus_one)) [
    | inl t ↦ rw t (call-keeps w removals removals-IsView nb_max_clusters log (λ l. refl))
    | inr t ↦ rw t refl
  ]

  pub hotplug_init-keeps :
      (g : Globals) (log : Log) → removals (hotplug_init w g log).1 ≡ removals log
  unfolding hotplug_init
  hotplug_init-keeps g log =
      let n = get_max_nodes w g.kerrighed_max_nodes log in
      let kept = get_max_nodes-keeps g.kerrighed_max_nodes log in
      elim (Bool-cases (eqb_ℤ n.0.0 minus_one)) [
        | inl t ↦ rw t kept
        | inr t ↦ rw t (get_max_clusters-keeps g.kerrighed_max_clusters n.1 ∙ kept)
      ]

module _ (w : World) (max_nodes : ℕ) where
  -- What the loop over the options ends with: a refusal, or options that suit their mode; and no
  -- removal is asked for.
  abbrev pub Good : Log → Read × Log → Type 0
  Good log (leaves e, log') = (e ≡ exit_failure) × (removals log' ≡ removals log)
  Good log (reads p, log') = Suits max_nodes p.mode p.node_set × (removals log' ≡ removals log)

  -- The same, with a mode.
  abbrev Chose : Log → Read × Log → Type 0
  Chose log (leaves e, log') = (e ≡ exit_failure) × (removals log' ≡ removals log)
  Chose log (reads p, log') =
      (is_unset p.mode ≡ false) × Suits max_nodes p.mode p.node_set × (removals log' ≡ removals log)

  abbrev pub fresh : ℤ → Parsed
  fresh n = record { mode = unset; node_set = none; nb_nodes = n }

  number_option-Chose :
      (action : Action) (mode : Mode) (optarg : List ℕ) (n : ℤ) (log : Log)
      → is_unset mode ≡ false
      → Suits max_nodes mode none
      → Chose log (number_option w max_nodes action mode optarg (fresh n) log)
  unfolding number_option
  number_option-Chose action mode optarg n log set suits = elim (Bool-cases (is_status action)) [
    | inl t ↦ rw t (refl, refl)
    | inr t ↦ rw t (number (whole_number optarg))
  ]
    where
      number :
          (r : Option ℤ)
          → Chose log (
            elim r as (λ _. Read) [
              | none ↦ leaves exit_failure
              | some m ↦ reads (record { mode = mode; node_set = none; nb_nodes = m })
            ],
            log,
          )
      number none = (refl, refl)
      number (some m) = (set, suits, refl)

  with_nodes-Chose :
      (n : ℤ) (log log' : Log)
      → removals log' ≡ removals log
      → (r : NodeSet × Done) → IsValid max_nodes r.0
      → Returned r.1
      → Chose log (with_nodes w max_nodes (fresh n) r, log')
  with_nodes-Chose n log log' kept (s, returned r) v ends = elim (Bool-cases (eqb_ℤ r minus_one)) [
    | inl t ↦ rw t (refl, kept)
    | inr t ↦ rw t (refl, v, kept)
  ]
  with_nodes-Chose n log log' kept (s, crash) v ends = absurd ends
  with_nodes-Chose n log log' kept (s, no_end) v ends = absurd ends

  nodes_option-Chose :
      Allocates w
      → (optarg : List ℕ) (n : ℤ) (log : Log) → endless optarg ≡ false
      → Chose log (nodes_option w max_nodes optarg (fresh n) log)
  unfolding nodes_option node_set_create
  nodes_option-Chose a optarg n log ends =
      let (s, log', e, f) = node_set_create_lem w max_nodes a log in
      let kept : removals log' ≡ removals log =
        ap (λ (r : Option NodeSet × Log). removals r.1) (sym e)
        ∙ node_set_create-keeps w max_nodes log in
      rw e (
        with_nodes-Chose n log log' kept (parse_nodes max_nodes optarg s)
          (parse_nodes-IsValid max_nodes optarg s f.valid)
          (parse_nodes-Returned max_nodes optarg s ends))

  option-Chose :
      Allocates w
      → (action : Action) (o : Opt) (n : ℤ) (log : Log) → IsBounded o
      → Chose log (option w max_nodes action o (fresh n) log)
  unfolding option
  option-Chose a action (nodes_opt optarg) n log b = nodes_option-Chose a optarg n log b
  option-Chose a action (count_opt optarg) n log b =
      number_option-Chose action count optarg n log refl tt
  option-Chose a action (total_opt optarg) n log b =
      number_option-Chose action total optarg n log refl tt
  option-Chose a action all_opt n log b = (refl, tt, refl)
  option-Chose a action other_opt n log b = (refl, refl)

  -- With a mode set, the rest of the options is empty or refused.
  rest-Good :
      (action : Action) (os : List Opt) (log : Log) (r : Read × Log)
      → Chose log r
      → Good log (
          (elim r.0 as (λ _. M (Read)) [
            | leaves e ↦ return (leaves e)
            | reads p ↦ options w max_nodes action os p
          ])
            r.1)
  unfolding options
  rest-Good action os log (leaves e, log') c = c
  rest-Good action [] log (reads p, log') (set, suits, kept) = (suits, kept)
  rest-Good action (o ∷ os) log (reads p, log') (set, suits, kept) = rw set (refl, kept)

  pub options-Good :
      Allocates w
      → (action : Action) (os : List Opt) (n : ℤ) (log : Log) → AllBounded os
      → Good log (options w max_nodes action os (fresh n) log)
  unfolding options
  options-Good a action [] n log bs = (tt, refl)
  options-Good a action (o ∷ os) n log (b, bs) =
      rest-Good action os log (option w max_nodes action o (fresh n) log)
        (option-Chose a action o n log b)
