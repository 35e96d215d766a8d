-- ===== src/Examples.antt =====
-- A small cluster on which the theorems are applied: four nodes, of which node 2 is present and the
-- others are online, and a kernel that answers every request.
mod Hotplug
mod Krgadm
mod Commands
mod Krgcapset
mod Callbacks
mod Checkpoint
mod Restart
mod Exclusion
mod Ipc
mod Launching
use kerrighed_tools.Base.{
  ℕ, zero, suc, ◌≡◌, refl, ◌≤◌, ◌==◌, Bool, true, false, List, [], ◌∷◌, ℤ, pos, negsuc, minus_one,
  get_or, eqb_ℤ, if◌then◌else◌, arith,
}
use kerrighed_tools.Kernel.{
  World, Log, Call, Answer, Out, nothing, number, bytes, malloc, open_services, ioctl, get_node_id,
  nb_max_nodes, nb_max_clusters, hotplug_nodes, callback, opendir, entries, app_chkpt,
  app_get_userdata, checkpointed, version_dir, truthy, call_kerrighed_services,
}
use kerrighed_tools.Hotplug.NodeSet
use kerrighed_tools.Hotplug.NodeSet.{NodeSet, contains}
use kerrighed_tools.Hotplug.NodeSet.Members.{IsValid}
use kerrighed_tools.Hotplug.Nodes.{Nodes}
use kerrighed_tools.Hotplug.Services.Allocation.{Allocates, IsFresh}
use kerrighed_tools.Krgadm.Remove.Selection.{Knows}
use kerrighed_tools.Checkpoint.Thawing.{Opens}
use kerrighed_tools.Proc

abbrev pub answer : Log → Call → Answer
answer log malloc = record { ret = pos 1; out = bytes (7 ∷ 7 ∷ 7 ∷ 7 ∷ 7 ∷ 7 ∷ []) }
answer log open_services = record { ret = pos 3; out = nothing }
answer log (ioctl get_node_id) = record { ret = pos 0; out = number (pos 0) }
answer log (ioctl nb_max_nodes) = record { ret = pos 0; out = number (pos 4) }
answer log (ioctl nb_max_clusters) = record { ret = pos 0; out = number (pos 2) }
answer log (ioctl hotplug_nodes) = record { ret = pos 0; out = bytes (3 ∷ 3 ∷ 2 ∷ 3 ∷ []) }
answer log (ioctl (app_chkpt app_id flags chkpt_sn signal)) = record {
  ret = minus_one;
  out = checkpointed (pos 12) (pos 5);
}
answer log (ioctl (app_get_userdata id flags)) = record { ret = pos 0; out = number (pos 1) }
answer log (callback func arg) = record {
  ret = if func == 9 then minus_one else pos 0;
  out = nothing;
}
answer log (opendir (version_dir a v)) = record {
  ret = pos 1;
  out = entries (("task", true) ∷ (".", false) ∷ []);
}
answer log (opendir d) = record { ret = pos 1; out = nothing }
answer log c = record { ret = pos 0; out = nothing }

abbrev pub cluster : World
cluster = record { answer = answer; interrupted = λ log. false }

abbrev pub status : Nodes
status = record { nodes = 3 ∷ 3 ∷ 2 ∷ 3 ∷ [] }

-- The nodes 1 and 2, and no node.
abbrev pub two : NodeSet
two = record { subclusterid = pos 0; v = 0 ∷ 1 ∷ 1 ∷ 0 ∷ [] }

abbrev pub nobody : NodeSet
nobody = record { subclusterid = pos 0; v = 0 ∷ 0 ∷ 0 ∷ 0 ∷ [] }

pub two-IsValid : IsValid 4 two
two-IsValid = record { size = refl; flags = λ i. ground arith }

pub nobody-IsValid : IsValid 4 nobody
nobody-IsValid = record { size = refl; flags = λ i. ground arith }

pub nobody-IsFresh : IsFresh 4 nobody
nobody-IsFresh = record { valid = nobody-IsValid; empty = λ n. unfold contains in ground arith }

pub cluster-Knows : Knows cluster (pos 0)
unfolding Proc.get_node_id call_kerrighed_services
cluster-Knows log = refl

pub cluster-Allocates : Allocates cluster
cluster-Allocates log = refl

pub cluster-Opens : Opens cluster
cluster-Opens log = refl
