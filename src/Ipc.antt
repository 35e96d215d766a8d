-- ===== src/Ipc.antt =====
-- libs/libkerrighed/libipc.c, and what tools/ipccheckpoint.c and tools/ipcrestart.c share. What
-- the tools print is left out.
pub mod Checkpointing
pub mod Restarting
pub mod Files
use kerrighed_tools.Base.{Bool, true, false, ℤ}
use kerrighed_tools.Kernel
use kerrighed_tools.Kernel.{World, M, ◌>>=◌, return, call_kerrighed_services}

-- `enum ipctype`
pub data IpcType : Type 0 where
  undef msg sem shm : IpcType

abbrev pub is_undef : IpcType → Bool
is_undef undef = true
is_undef _ = false

module _ (w : World) where
  unfoldable pub ipc_msgq_checkpoint : ℤ → ℤ → M ℤ
  ipc_msgq_checkpoint msqid fd = do
    r ← call_kerrighed_services w (Kernel.ipc_msgq_chkpt msqid fd)
    return r.ret

  unfoldable pub ipc_msgq_restart : ℤ → M ℤ
  ipc_msgq_restart fd = do r ← call_kerrighed_services w (Kernel.ipc_msgq_restart fd); return r.ret

  unfoldable pub ipc_sem_checkpoint : ℤ → ℤ → M ℤ
  ipc_sem_checkpoint semid fd = do
    r ← call_kerrighed_services w (Kernel.ipc_sem_chkpt semid fd)
    return r.ret

  unfoldable pub ipc_sem_restart : ℤ → M ℤ
  ipc_sem_restart fd = do r ← call_kerrighed_services w (Kernel.ipc_sem_restart fd); return r.ret

  unfoldable pub ipc_shm_checkpoint : ℤ → ℤ → M ℤ
  ipc_shm_checkpoint shmid fd = do
    r ← call_kerrighed_services w (Kernel.ipc_shm_chkpt shmid fd)
    return r.ret

  unfoldable pub ipc_shm_restart : ℤ → M ℤ
  ipc_shm_restart fd = do r ← call_kerrighed_services w (Kernel.ipc_shm_restart fd); return r.ret
