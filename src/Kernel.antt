-- ===== src/Kernel.antt =====
-- The border to the kernel and the C library: the requests of libs/include/kerrighed_tools.h with
-- the structs that they carry (checkpoint.h, capabilities.h, migration.h, hotplug.h), the other
-- system calls of the tools, and `call_kerrighed_services` of libkerrighed/libkerrighed_tools.c.
-- The answers are not code of this repository: a `World` gives the answer to each call from the
-- calls made before it, so that any kernel and any timing is some world.
pub mod Calls
pub mod Loading
use kerrighed_tools.Base.{
  ◌≡◌, refl, ap, length, Option, none, some, ℕ, zero, suc, Bool, true, false, List, [], ◌∷◌, ℤ, pos,
  negsuc, minus_one, eqb_ℤ, if◌then◌else◌,
}
use Prim.Native.String.{String}

-- `struct hotplug_node_set`; the mask as its bits, lowest first.
pub record HotplugNodeSet : Type 0 where
  pub subclusterid : ℤ
  pub v : List ℕ

-- `struct checkpoint_info`
pub record CheckpointInfo : Type 0 where
  pub app_id : ℤ
  pub flags : ℕ
  pub chkpt_sn : ℤ
  pub result : ℤ
  pub signal : ℤ

-- `struct cr_subst_file`, with the text that `file_id` points to.
pub record SubstFile : Type 0 where
  pub fd : ℤ
  pub file_id : List ℕ

-- `struct restart_request`, without the field that the kernel writes (`root_pid`).
pub record RestartRequest : Type 0 where
  pub app_id : ℤ
  pub chkpt_sn : ℤ
  pub flags : ℕ
  pub substitution : List SubstFile

-- `krg_cap_t`: four words of capability bits.
pub record Caps : Type 0 where
  pub effective : ℕ
  pub permitted : ℕ
  pub inheritable_permitted : ℕ
  pub inheritable_effective : ℕ

-- The `KSYS_` requests, each with what its argument holds when the call is made.
pub data Request : Type 0 where
  nb_max_nodes nb_max_clusters get_supported_cap get_node_id get_nodes_count : Request
  get_cap get_father_cap hotplug_status hotplug_nodes app_cr_disable app_cr_enable : Request
  set_cap set_father_cap : Caps → Request
  set_pid_cap : ℤ → Caps → Request
  get_pid_cap hotplug_restart hotplug_shutdown : ℤ → Request
  hotplug_add hotplug_remove hotplug_fail hotplug_poweroff : HotplugNodeSet → Request
  hotplug_set_creator hotplug_ready : Bool → Request
  process_migration thread_migration : ℤ → ℤ → Request
  -- `app_id`, `flags` and `signal` of the struct; `app_chkpt` has `chkpt_sn` before the signal.
  -- The other fields are not set when the request is made.
  app_freeze app_unfreeze : ℤ → ℕ → ℤ → Request
  app_chkpt : ℤ → ℕ → ℤ → ℤ → Request
  app_restart : RestartRequest → Request
  app_set_userdata : ℕ → Request
  app_get_userdata : ℤ → ℕ → Request
  -- The pid, the address and the size of each region of the list.
  app_cr_exclude : List (ℤ × ℕ × ℕ) → Request
  ipc_msgq_chkpt ipc_sem_chkpt ipc_shm_chkpt : ℤ → ℤ → Request
  ipc_msgq_restart ipc_sem_restart ipc_shm_restart : ℤ → Request

-- The files under `/var/chkpt` that the tools name.
pub data ChkptFile : Type 0 where
  chkpt_dir : ChkptFile
  app_dir : ℤ → ChkptFile
  version_dir description_txt : ℤ → ℤ → ChkptFile
  dir_entry : ℤ → ℤ → String → ChkptFile

-- The shell commands of tools/restart.c, with the application and the version that the directory is
-- named by: one greps the key of a file of a process, the other the first pid.
pub data Command : Type 0 where
  grep_fd_key : ℤ → ℤ → List ℕ → ℤ → Command
  grep_root_pid : ℤ → ℤ → Command

-- The calls that leave the program.
pub data Call : Type 0 where
  open_services close_services stat_container stat_chkpt_dir : Call
  ioctl : Request → Call
  malloc getpid pthread_create mutex_lock mutex_unlock : Call
  pthread_atfork : Call
  -- `free` of the struct at an address
  free : ℕ → Call
  callback : ℕ → ℕ → Call
  msgsnd : ℤ → ℕ → Call
  fcntl_getfl : ℤ → Call
  sigaction : ℕ → Call
  kill : ℤ → ℕ → Call
  msgget msgrcv msgctl_rmid : ℤ → Call
  fopen opendir closedir remove_file : ChkptFile → Call
  popen : Command → Call
  pclose realloc wait : Call
  fileno : ℕ → Call
  open_abi read_abi close_abi : Call
  -- `open` of a path: a new file to write, or one to read
  create_file open_file unlink fopen_path : List ℕ → Call
  close : ℤ → Call
  -- the pipe of a process, with its ends
  pipe read_pipe close_read_end close_write_end : Call
  write_pipe : ℤ → Call
  vfork setsid sleep : Call
  print_sid : ℤ → Call
  execvp execv : List (List ℕ) → Call
  clone : ℕ → List (List ℕ) → Call

-- What a call writes through its argument.
pub data Out : Type 0 where
  nothing : Out
  number : ℤ → Out
  bytes : List ℕ → Out
  caps : Caps → Out
  -- `app_id` and `chkpt_sn`
  checkpointed : ℤ → ℤ → Out
  -- what `readdir` gives for an opened directory up to NULL: names, and whether a regular file
  entries : List (String × Bool) → Out

pub record Answer : Type 0 where
  pub ret : ℤ
  pub out : Out

abbrev pub Log : Type 0
Log = List Call

-- The calls made so far are listed newest first.
pub record World : Type 0 where
  pub answer : Log → Call → Answer
  -- whether a handled SIGINT or SIGTERM has come by now
  pub interrupted : Log → Bool

-- A program that makes calls.
abbrev pub M : Type 0 → Type 0
M A = Log → A × Log

infixl 5 ◌>>=◌ ◌>>◌
abbrev pub ◌>>=◌ : {A B : Type 0} → M A → (A → M B) → M B
◌>>=◌ m f log = let (a, log') = m log in f a log'

abbrev pub ◌>>◌ : {A B : Type 0} → M A → M B → M B
◌>>◌ m f log = let (a, log') = m log in f log'

abbrev pub return : {A : Type 0} → A → M A
return a log = (a, log)

-- The number that a call wrote; a service that reports success has written its argument.
abbrev pub number_of : Out → ℤ
number_of (number n) = n
number_of _ = pos 0

abbrev pub bytes_of : Out → List ℕ
bytes_of (bytes b) = b
bytes_of _ = []

-- A buffer of `n` bytes into which such bytes were put: longer ones are cut, a rest reads 0.
abbrev pub fit : ℕ → List ℕ → List ℕ
fit zero bs = []
fit (suc n) [] = 0 ∷ fit n []
fit (suc n) (b ∷ bs) = b ∷ fit n bs

pub length-fit : (n : ℕ) (bs : List ℕ) → length (fit n bs) ≡ n
length-fit zero bs = refl
length-fit (suc n) [] = ap suc (length-fit n [])
length-fit (suc n) (b ∷ bs) = ap suc (length-fit n bs)

-- `if (r)` on a C int.
abbrev pub truthy : ℤ → Bool
truthy (pos n) = elim n [ zero ↦ false | suc _ ↦ true ]
truthy (negsuc n) = true

module _ (w : World) where
  abbrev pub sys : Call → M Answer
  sys c log = (w.answer log c, c ∷ log)

  abbrev pub interrupted_by_signal : M Bool
  interrupted_by_signal log = (w.interrupted log, log)

  -- A `malloc`: NULL, or a block with whatever bytes it holds.
  abbrev pub alloc : M (Option (List ℕ))
  alloc = do a ← sys malloc; return (if truthy a.ret then some (bytes_of a.out) else none)

  abbrev pub open_kerrighed_services : M Answer
  open_kerrighed_services = sys open_services

  abbrev pub close_kerrighed_services : M Answer
  close_kerrighed_services = sys close_services

  -- On the descriptor that was opened; what the service wrote comes beside its result.
  abbrev pub call_opened_kerrighed_services : Request → M Answer
  call_opened_kerrighed_services service_id = sys (ioctl service_id)

  unfoldable pub call_kerrighed_services : Request → M Answer
  call_kerrighed_services service_id = do
    fd ← open_kerrighed_services
    if eqb_ℤ fd.ret minus_one then return (record { ret = minus_one; out = nothing }) else do
      res ← call_opened_kerrighed_services service_id
      close_kerrighed_services
      return res
