-- ===== src/Krgadm/Commands.antt =====
-- tools/krgadm.c: `cluster`, `nodes` and `main`. The words of the command line come as strings, and
-- the options that `getopt_long` finds as a list, each with the text of its argument.
pub mod Options
pub mod Deletion
use Prim.Native.String.{String}
use text.Mathlib.Text.{◌==◌}
use kerrighed_tools.Base.{
  ℕ, Bool, true, false, List, [], ◌∷◌, Option, none, some, ℤ, pos, negsuc, minus_one, pos_part,
  eqb_ℤ, if◌then◌else◌,
}
use kerrighed_tools.Kernel.{World, M, ◌>>=◌, return, truthy}
use kerrighed_tools.Hotplug.NodeSet.{NodeSet}
use kerrighed_tools.Hotplug.Services.{
  Globals, check_hotplug, hotplug_init, cluster_shutdown, cluster_reboot, node_set_create,
}
use kerrighed_tools.Krgadm.{Mode, unset, all, count, total, list, Done, returned, crash, no_end}
use kerrighed_tools.Krgadm.Add.{nodes_add}
use kerrighed_tools.Krgadm.Remove.{nodes_remove}
use kerrighed_tools.Krgadm.Parse.{parse_nodes, whole_number}
use kerrighed_tools.Krgadm.Status
use kerrighed_tools.Krgadm.Status.{Shown, shown, failed, nodes_status, cluster_status}

-- The unnamed enum of the actions.
pub data Action : Type 0 where
  nothing_given status add del poweroff reboot : Action

-- An option of `krgadm nodes`.
pub data Opt : Type 0 where
  nodes_opt count_opt total_opt : List ℕ → Opt
  all_opt other_opt : Opt

-- How a command ends.
pub data Exit : Type 0 where
  exit_success exit_failure crashed never_ends : Exit

-- The locals of `nodes`.
pub record Parsed : Type 0 where
  pub mode : Mode
  pub node_set : Option NodeSet
  pub nb_nodes : ℤ

-- What reading options ends in: the end of the command, or the locals.
pub data Read : Type 0 where
  leaves : Exit → Read
  reads : Parsed → Read

unfoldable pub cluster_action : List String → Action
cluster_action [] = status
cluster_action (arg ∷ args) =
    if arg == "status"
    then status
    else if arg == "poweroff"
    then poweroff
    else if arg == "reboot"
    then reboot
    else nothing_given

unfoldable pub nodes_action : List String → Action
nodes_action [] = status
nodes_action (arg ∷ args) =
    if arg == "status"
    then status
    else if arg == "add"
    then add
    else if arg == "del"
    then del
    else nothing_given

abbrev pub is_unset : Mode → Bool
is_unset unset = true
is_unset _ = false

abbrev pub is_status : Action → Bool
is_status status = true
is_status _ = false

-- What a result of `nodes_add` or `nodes_remove` makes of the command.
abbrev pub exit_of : Done → Exit
exit_of (returned r) = if eqb_ℤ r minus_one then exit_failure else exit_success
exit_of crash = crashed
exit_of no_end = never_ends

abbrev pub exit_of_shown : Shown → Exit
exit_of_shown (shown lines) = exit_success
exit_of_shown failed = exit_failure
exit_of_shown Status.crash = crashed

module _ (w : World) where
  module _ (max_nodes : ℕ) where
    -- The option `-c` or `-t`.
    unfoldable pub number_option : Action → Mode → List ℕ → Parsed → M Read
    number_option action mode optarg p =
        if is_status action
        then return (leaves exit_failure)
        else return (elim (whole_number optarg) [
          | none ↦ leaves exit_failure
          | some n ↦ reads (record p { mode = mode; nb_nodes = n })
        ])

    -- What is made of the set and the result of `parse_nodes`.
    abbrev pub with_nodes : Parsed → NodeSet × Done → Read
    with_nodes p (s, returned r) =
        if eqb_ℤ r minus_one
        then leaves exit_failure
        else reads (record p { mode = list; node_set = some s })
    with_nodes p (s, crash) = leaves crashed
    with_nodes p (s, no_end) = leaves never_ends

    unfoldable pub nodes_option : List ℕ → Parsed → M Read
    nodes_option optarg p = do
      made ← node_set_create w max_nodes
      return (elim made [
        | none ↦ leaves exit_failure
        | some s ↦ with_nodes p (parse_nodes max_nodes optarg s)
      ])

    -- One round of the loop over the options, with no mode yet.
    unfoldable pub option : Action → Opt → Parsed → M Read
    unfolding number_option nodes_option
    option action (nodes_opt optarg) p = nodes_option optarg p
    option action (count_opt optarg) p = number_option action count optarg p
    option action (total_opt optarg) p = number_option action total optarg p
    option action all_opt p = return (reads (record p { mode = all }))
    option action other_opt p = return (leaves exit_failure)

    -- Every option sets a mode, or ends the command; with a mode already set, each ends it.
    unfoldable pub options : Action → List Opt → Parsed → M Read
    unfolding option
    options action [] p = return (reads p)
    options action (o ∷ os) p =
        if is_unset p.mode
        then (do
          next ← option action o p
          elim next [ leaves e ↦ return (leaves e) | reads p' ↦ options action os p' ])
        else return (leaves exit_failure)

    -- The switch over the action; the mode is set where one is needed.
    unfoldable pub nodes_act : ℕ → Action → Parsed → M Exit
    nodes_act fuel status p = do
      r ← nodes_status w max_nodes p.node_set (if is_unset p.mode then all else p.mode)
      return (exit_of_shown r)
    nodes_act fuel add p =
        if is_unset p.mode
        then return exit_failure
        else do r ← nodes_add w max_nodes fuel p.node_set p.nb_nodes p.mode; return (exit_of r)
    nodes_act fuel del p =
        if is_unset p.mode
        then return exit_failure
        else do r ← nodes_remove w max_nodes p.node_set p.nb_nodes p.mode; return (exit_of r)
    nodes_act fuel _ p = return exit_success

    unfoldable pub nodes_on : ℕ → Action → List Opt → M Exit
    unfolding options nodes_act
    nodes_on fuel action opts = do
      parsed ← options action opts (record { mode = unset; node_set = none; nb_nodes = minus_one })
      elim parsed [ leaves e ↦ return e | reads p ↦ nodes_act fuel action p ]

  -- The result of `krg_hotplug_init` is not looked at. A global that it left at -1 lets every loop
  -- end at once and every test of a range fail, as 0 does.
  unfoldable pub nodes : ℕ → List String → List Opt → Globals → M Exit
  nodes fuel argv opts g = do
    running ← check_hotplug w
    if truthy running then return exit_failure else do
      started ← hotplug_init w g
      nodes_on (pos_part started.1.kerrighed_max_nodes) fuel (nodes_action argv) opts

  -- POWEROFF and REBOOT, which differ in the request.
  unfoldable pub stop_cluster : ℕ → ℕ → M ℤ → M Exit
  stop_cluster max_nodes max_clusters request = do
    up ← cluster_status w max_nodes max_clusters
    elim up [
      | none ↦ return crashed
      | some n ↦
          if eqb_ℤ n (pos 0)
          then return exit_failure
          else do r ← request; return (if eqb_ℤ r minus_one then exit_failure else exit_success)
    ]

  unfoldable pub cluster_act : ℕ → ℕ → Action → M Exit
  unfolding stop_cluster
  cluster_act max_nodes max_clusters status = do
    up ← cluster_status w max_nodes max_clusters
    return (elim up [
      | none ↦ crashed
      | some r ↦ if eqb_ℤ r minus_one then exit_failure else exit_success
    ])
  cluster_act max_nodes max_clusters poweroff =
      stop_cluster max_nodes max_clusters (cluster_shutdown w (pos 0))
  cluster_act max_nodes max_clusters reboot =
      stop_cluster max_nodes max_clusters (cluster_reboot w (pos 0))
  cluster_act max_nodes max_clusters _ = return exit_success

  unfoldable pub cluster : List String → Globals → M Exit
  unfolding cluster_act
  cluster argv g = do
    running ← check_hotplug w
    if truthy running then return exit_failure else do
      started ← hotplug_init w g
      cluster_act (pos_part started.1.kerrighed_max_nodes)
          (pos_part started.1.kerrighed_max_clusters) (cluster_action argv)

  -- `argv` without the name of the program.
  unfoldable pub main : ℕ → List String → List Opt → M Exit
  main fuel [] opts = return exit_success
  main fuel (arg ∷ args) opts =
      let g : Globals = record {
        kerrighed_max_nodes = minus_one;
        kerrighed_max_clusters = minus_one;
      } in
      if arg == "cluster"
      then cluster args g
      else if arg == "nodes"
      then nodes fuel args opts g
      else return exit_success
