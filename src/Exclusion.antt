-- ===== src/Exclusion.antt =====
-- libs/libkrgcheckpoint/libkrgcheckpoint.c: switching checkpoints off and on, the start of the
-- library, and the list of the children of the process. A list of `struct child_process` is the
-- list of its pids: each struct is pointed to from one place only.
pub mod Children
pub mod Regions
use kerrighed_tools.Base.{
  ℕ, Bool, true, false, List, [], ◌∷◌, ℤ, pos, minus_one, eqb_ℤ, if◌then◌else◌,
}
use kerrighed_tools.Kernel
use kerrighed_tools.Kernel.{
  World, M, ◌>>=◌, return, sys, truthy, call_kerrighed_services, sigaction, malloc, pthread_atfork,
}
use kerrighed_tools.Callbacks
use kerrighed_tools.Callbacks.{
  Ended, aborted, ended, callback_init, register_chkpt_callback, register_restart_callback,
}

-- The globals, beside those of the callback library.
pub record State : Type 0 where
  pub callbacks : Callbacks.State
  pub first_child : List ℤ
  pub initialized : Bool

-- The two callbacks of the library, as numbers of functions.
abbrev pub cr_mm_exclusion_checkpoint_cb : ℕ
cr_mm_exclusion_checkpoint_cb = 1

abbrev pub cr_mm_exclusion_restart_cb : ℕ
cr_mm_exclusion_restart_cb = 2

-- child->next = first_child ? first_child->next : NULL; first_child = child;
unfoldable pub link_child : ℤ → List ℤ → List ℤ
link_child pid [] = pid ∷ []
link_child pid (first ∷ next) = pid ∷ next

unfoldable pub remove_child : ℤ → List ℤ → List ℤ
remove_child pid [] = []
remove_child pid (child ∷ next) =
    let rest = remove_child pid next in if eqb_ℤ child pid then next else child ∷ rest

module _ (w : World) where
  unfoldable pub cr_disable : M ℤ
  cr_disable = do r ← call_kerrighed_services w Kernel.app_cr_disable; return r.ret

  unfoldable pub cr_enable : M ℤ
  cr_enable = do r ← call_kerrighed_services w Kernel.app_cr_enable; return r.ret

  -- The last two steps of `cr_mm_exclusion_init`: SIGCHLD, and the hooks around fork.
  init_hooks : State → M (ℤ × State)
  init_hooks s = do
    handled ← sys w (sigaction 17)
    if truthy handled.ret then return (handled.ret, s) else do
      hooked ← sys w pthread_atfork
      return (
          if truthy hooked.ret
          then (hooked.ret, s)
          else (hooked.ret, record s { initialized = true }))

  -- What follows a registration: the next step on 0. (The `exit` of a registration without a started
  -- library cannot happen here.)
  after_register : State → Ended → (State → M (ℤ × State)) → M (ℤ × State)
  after_register s aborted k = return (minus_one, s)
  after_register s (ended r callbacks) k =
      if truthy r
      then return (r, record s { callbacks = callbacks })
      else k (record s { callbacks = callbacks })

  -- From the second registration on.
  second_callback : State → M (ℤ × State)
  unfolding init_hooks after_register
  second_callback s = do
    b ← register_restart_callback w cr_mm_exclusion_restart_cb 0 s.callbacks
    after_register s b init_hooks

  unfoldable pub cr_mm_exclusion_init : State → M (ℤ × State)
  unfolding second_callback after_register
  cr_mm_exclusion_init s = if s.initialized then return (pos 0, s) else do
    started ← callback_init w s.callbacks
    if truthy started.0 then return (started.0, record s { callbacks = started.1 }) else do
      a ← register_chkpt_callback w cr_mm_exclusion_checkpoint_cb 0 started.1
      after_register s a second_callback

  unfoldable pub add_child : ℤ → State → M State
  add_child pid s = do
    started ← cr_mm_exclusion_init s
    if truthy started.0 then return started.1 else do
      child ← sys w malloc
      return (
          if truthy child.ret
          then record started.1 { first_child = link_child pid started.1.first_child }
          else started.1)

  -- The handler of SIGCHLD.
  unfoldable pub handle_sigchild : ℤ → State → State
  handle_sigchild si_pid s = record s { first_child = remove_child si_pid s.first_child }

  -- `remove_all_children`, as the child runs it after a fork.
  unfoldable pub remove_all_children : State → State
  remove_all_children s = record s { first_child = [] }
