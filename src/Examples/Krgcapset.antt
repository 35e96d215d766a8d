-- ===== src/Examples/Krgcapset.antt =====
-- The theorems about tools/krgcapset.c, applied to DEBUG,CAN_MIGRATE and to one command line on the
-- small cluster.
use kerrighed_tools.Base.{◌≡◌, false, [], ◌∷◌, if◌then◌else◌, arith}
use kerrighed_tools.Base.Bits.{bit}
use kerrighed_tools.Text.{codes}
use kerrighed_tools.Krgcapset.{update_capability}
use kerrighed_tools.Krgcapset.Names.{names, listed, update_capability-names}
use kerrighed_tools.Krgcapset.Main.{effective_opt, main}
use kerrighed_tools.Krgcapset.Safety.{Changed, main-Changed}
use kerrighed_tools.Examples.{cluster}

update_capability-names_example :
    (bit 10 (update_capability (b'+' ∷ names 10 (1 ∷ [])) 3)
      ≡ (if listed (10 ∷ 1 ∷ []) 10 then 1 else bit 10 3))
    × (bit 10 (update_capability (b'-' ∷ names 10 (1 ∷ [])) 3)
        ≡ (if listed (10 ∷ 1 ∷ []) 10 then 0 else bit 10 3))
    × (bit 10 (update_capability (names 10 (1 ∷ [])) 3)
        ≡ (if listed (10 ∷ 1 ∷ []) 10 then 1 else 0))
update_capability-names_example =
    update_capability-names 10 (1 ∷ []) 3 10 (omega arith, (omega arith, tt)) (omega arith)

-- krgcapset -e +DEBUG, answered with 'y'
main-Changed_example :
    Changed cluster
      (effective_opt (codes "+DEBUG") ∷ [])
      (b'y' ∷ [])
      []
      (main cluster (effective_opt (codes "+DEBUG") ∷ []) false (b'y' ∷ []) []).1
main-Changed_example =
    main-Changed cluster (effective_opt (codes "+DEBUG") ∷ []) false (b'y' ∷ []) []
