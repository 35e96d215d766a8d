-- ===== src/Examples/Ipc.antt =====
-- The theorem about ipccheckpoint, applied to the checkpoint of the message queue 7 into a file.
use kerrighed_tools.Base.{ℕ, List, [], ◌∷◌}
use kerrighed_tools.Text.{codes}
use kerrighed_tools.Ipc.Checkpointing.{Opt, queue_opt, main}
use kerrighed_tools.Ipc.Files.{Ended, main-Ended}
use kerrighed_tools.Examples.{cluster}

abbrev queue : List Opt
queue = queue_opt (codes "7") ∷ []

abbrev file : List (List ℕ)
file = codes "saved" ∷ []

main-Ended_example :
    Ended cluster queue file [] (main cluster queue file []).0 (main cluster queue file []).1
main-Ended_example = main-Ended cluster queue file []
