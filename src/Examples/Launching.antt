-- ===== src/Examples/Launching.antt =====
-- The theorems about krgcr-run, krgboot, krginit and the check of the version, applied to a program that
-- is run in the background, to a host without a cluster, and to an init without a program.
use kerrighed_tools.Base.{ℕ, ◌≡◌, ◌↔◌, refl, true, false, List, [], ◌∷◌, ◌++◌, pos, minus_one}
use kerrighed_tools.Base.Bits.{word_or}
use kerrighed_tools.Text.{codes}
use kerrighed_tools.Kernel.{
  World, Log, Call, Answer, nothing, bytes, ioctl, get_node_id, stat_container, read_abi,
}
use kerrighed_tools.Kernel.Loading.{
  check_abi_version, kerrighed_abi, check_abi_version-kerrighed_abi,
}
use kerrighed_tools.KrgcrRun
use kerrighed_tools.KrgcrRun.Forking
use kerrighed_tools.KrgcrRun.Capability.{Launched, main-Launched}
use kerrighed_tools.Krgboot
use kerrighed_tools.Krgboot.Creation
use kerrighed_tools.Krgboot.Creation.{Booted, main-Booted}
use kerrighed_tools.Krginit
use kerrighed_tools.Krginit.{reaps}
use kerrighed_tools.Krginit.Reaping.{Reaped, main-Reaped}
use kerrighed_tools.Examples.{answer, cluster}

abbrev in_background : List KrgcrRun.Opt
in_background = KrgcrRun.background_opt ∷ []

abbrev background : KrgcrRun.Settings
background = record { background = true; sync_w_pipe = false; setcap = true; filepath = [] }

abbrev program : List (List ℕ)
program = codes "sleep" ∷ codes "9" ∷ []

main-Launched_example :
    Launched cluster background program []
      (KrgcrRun.main cluster 4 in_background program []).0
      (Forking.events (KrgcrRun.main cluster 4 in_background program []).1)
unfolding KrgcrRun.parse_args
main-Launched_example = main-Launched cluster 4 in_background program background [] refl

-- A host: the services and the container are not there.
abbrev host_answer : Log → Call → Answer
host_answer log (ioctl get_node_id) = record { ret = minus_one; out = nothing }
host_answer log stat_container = record { ret = minus_one; out = nothing }
host_answer log read_abi = record { ret = pos 2; out = bytes (codes "1" ++ (10 ∷ [])) }
host_answer log c = answer log c

abbrev host : World
host = record { answer = host_answer; interrupted = λ log. false }

abbrev uts : List Krgboot.Opt
uts = Krgboot.uts_opt ∷ []

main-Booted_example :
    Booted host 67108864 program []
      (Krgboot.main host uts program []).0
      (Creation.events (Krgboot.main host uts program []).1)
unfolding Krgboot.get_config word_or
main-Booted_example = main-Booted host uts program 67108864 [] refl

abbrev sessions : List Krginit.Opt
sessions = Krginit.session_opt ∷ []

main-Reaped_example :
    ((Krginit.main cluster 5 sessions [] []).0 ≡ reaps)
    × Reaped cluster 5 [] (Krginit.main cluster 5 sessions [] []).1
unfolding Krginit.get_config
main-Reaped_example = main-Reaped cluster 5 sessions true [] refl (λ h. refl)

check_abi_version-kerrighed_abi_example :
    ((check_abi_version host []).0 ≡ pos 0) ↔ (codes "1" ≡ kerrighed_abi)
check_abi_version-kerrighed_abi_example =
    check_abi_version-kerrighed_abi host (codes "1") [] (refl, tt) refl refl refl
