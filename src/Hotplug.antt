-- ===== src/Hotplug.antt =====
-- libs/libkerrighed/libhotplug.c and libs/include/hotplug.h: the node statuses and the range test
-- that every operation on a node number makes. The children model the node sets, the status
-- tables, the clusters, and the bit mask that goes to the kernel.
pub mod NodeSet
pub mod Nodes
pub mod Mask
pub mod Services
use kerrighed_tools.Base.{ℕ, ◌+◌, Bool, false, ℤ, pos, negsuc, ltb, if◌then◌else◌}
use Prim.Native.String.{String}

-- `enum krg_status`
pub data Status : Type 0 where
  invalid possible present online : Status

-- The byte by which the kernel and the tables write a status.
abbrev pub code : Status → ℕ
code invalid = 0
code possible = 1
code present = 2
code online = 3

-- The entries of the static table of `krg_status_str`.
status_name : ℕ → String
status_name n =
    if ltb n 1
    then "invalid"
    else if ltb n 2
    then "possible"
    else if ltb n 3
    then "present"
    else "online"

unfoldable pub status_str : ℤ → String
unfolding status_name
status_str (pos n) = if ltb 3 n then status_name 0 else status_name n
status_str (negsuc n) = status_name 0

-- The test `n >= 0 && n < kerrighed_max_nodes`, and the same for clusters.
abbrev pub in_range : ℕ → ℤ → Bool
in_range max (pos n) = ltb n max
in_range max (negsuc n) = false

-- The index that an iterator looks at first, `node + 1`. Reads below index 0 are outside of the
-- array, so the search begins at 0 there; callers give -1 or a node number.
abbrev pub after : ℤ → ℕ
after (pos n) = n + 1
after (negsuc n) = 0
