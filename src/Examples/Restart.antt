-- ===== src/Examples/Restart.antt =====
-- The theorems about tools/restart.c, applied to version 3 of application 12, with one file that is
-- substituted, on a cluster that restarts it as process 77.
use kerrighed_tools.Base.{◌≡◌, refl, true, false, [], ◌∷◌, ◌++◌, pos}
use kerrighed_tools.Text.{codes}
use kerrighed_tools.Kernel.{
  World, Log, Call, Answer, nothing, number, ioctl, open_services, app_restart,
  call_kerrighed_services,
}
use kerrighed_tools.Proc.{
  application_restart, application_get_userdata_from_pid, application_unfreeze_from_appid,
}
use kerrighed_tools.Hotplug.Services.{check_hotplug}
use kerrighed_tools.Callbacks.Requests.{cr_execute_restart_callbacks, cr_detect_callbacks}
use kerrighed_tools.Restart.{Options}
use kerrighed_tools.Restart.Main.{exit_success, restart, substitute_file, parse_opts, start}
use kerrighed_tools.Restart.Requests.{IsTaken, applied}
use kerrighed_tools.Restart.Success.{requested, restart-success}
use kerrighed_tools.Restart.Bounds.{AllFit, substitution-AllFit}

abbrev restarts : Log → Call → Answer
restarts log open_services = record { ret = pos 3; out = nothing }
restarts log (ioctl (app_restart r)) = record { ret = pos 0; out = number (pos 77) }
restarts log c = record { ret = pos 0; out = nothing }

abbrev restarting : World
restarting = record { answer = restarts; interrupted = λ log. false }

abbrev one_file : Options
one_file = record start {
  substitution = record {
    files = record { fd = pos 1; file_id = codes "0123456789ABCDEF0123" } ∷ [];
    allocated = true;
  };
  array_size = 32;
}

succeeds : (restart restarting 0 (pos 12) (pos 3) one_file []).0 ≡ exit_success
unfolding restart check_hotplug call_kerrighed_services application_restart
    cr_execute_restart_callbacks cr_detect_callbacks application_get_userdata_from_pid
    application_unfreeze_from_appid
succeeds = refl

restart-success_example :
    IsTaken one_file.substitution
    × (applied (restart restarting 0 (pos 12) (pos 3) one_file []).1
        ≡ requested (pos 12) (pos 3) one_file ++ applied [])
restart-success_example = restart-success restarting 0 (pos 12) (pos 3) one_file [] succeeds

substitution-AllFit_example :
    AllFit restarting (parse_opts restarting (substitute_file (codes "A1,2") ∷ []) start []).0
substitution-AllFit_example =
    substitution-AllFit restarting (substitute_file (codes "A1,2") ∷ []) []
