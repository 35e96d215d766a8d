-- ===== src/Examples/Checkpoint.antt =====
-- The theorems about tools/checkpoint.c, applied to the checkpoint of application 12, which fails.
use kerrighed_tools.Base.{◌≡◌, ◌⊎◌, refl, true, false, List, [], ◌∷◌, none, some, pos, minus_one}
use kerrighed_tools.Kernel.{Log, truthy, CheckpointInfo, opendir, version_dir}
use kerrighed_tools.Checkpoint.{
  Options, all, unfreeze, entries_of, clean_checkpoint_dir, checkpoint_app, freeze_app,
  freeze_checkpoint_unfreeze,
}
use kerrighed_tools.Text.{codes, atol, scan}
use kerrighed_tools.Checkpoint.CommandLine.{
  Opt, kill_opt, freeze_opt, unfreeze_opt, start, parsed, parse_args,
}
use kerrighed_tools.Checkpoint.CommandLine.Said.{parse_args-said}
use kerrighed_tools.Checkpoint.Cleaning.{removed, whole_version, removed-clean_checkpoint_dir}
use kerrighed_tools.Checkpoint.Thawing.{Cycle, freeze_checkpoint_unfreeze-Cycle}
use kerrighed_tools.Examples.{cluster, cluster-Opens}

abbrev partial : CheckpointInfo
partial = record {
  app_id = pos 12;
  flags = 0;
  chkpt_sn = pos 5;
  result = minus_one;
  signal = pos 0;
}

removed-clean_checkpoint_dir_example :
    (removed (clean_checkpoint_dir cluster partial []).1 ≡ removed [])
    ⊎ ((truthy (pos 5) ≡ true)
        × (log' : Log) × (removed (clean_checkpoint_dir cluster partial []).1
            ≡ whole_version cluster partial
                (entries_of (cluster.answer log' (opendir (version_dir (pos 12) (pos 5)))).out)
                (removed [])))
removed-clean_checkpoint_dir_example = removed-clean_checkpoint_dir cluster partial []

abbrev options : Options
options = record { from_appid = true; no_callbacks = true; sig = pos 15; flags = 0; action = all }

freeze_checkpoint_unfreeze-Cycle_example :
    Cycle cluster cluster-Opens options
      (pos 12)
      (pos 15)
      (freeze_app cluster options (pos 12) [])
      (checkpoint_app cluster options (pos 12) 0 (freeze_app cluster options (pos 12) []).1)
      (freeze_checkpoint_unfreeze cluster options (pos 12) 0 (pos 15) [])
freeze_checkpoint_unfreeze-Cycle_example =
    freeze_checkpoint_unfreeze-Cycle cluster cluster-Opens options refl (pos 12) 0 (pos 15) []

-- -k, -f and -u 9.
abbrev command_line : List Opt
command_line = kill_opt none ∷ freeze_opt ∷ unfreeze_opt (some (codes "9")) ∷ []

parse_args-said_example :
    parse_args command_line start
    ≡ parsed (record {
      from_appid = false;
      no_callbacks = false;
      sig = pos 9;
      flags = 0;
      action = unfreeze;
    })
unfolding atol scan
parse_args-said_example = parse_args-said command_line
