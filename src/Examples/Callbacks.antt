-- ===== src/Examples/Callbacks.antt =====
-- The theorems about the callbacks of an application, applied to a process with two of them.
use kerrighed_tools.Base.{◌+◌, ◌≤◌, ◌≡◌, ◌∷◌, refl, true, false, [], some, none, pos}
use kerrighed_tools.Kernel.{World, Log, Call, Answer, number, truthy, msgrcv, mutex_lock}
use kerrighed_tools.Callbacks.{
  checkpoint, restart, cb_count_read, table, signal_context, thread_context, Info, State, zeroed,
  store_callback,
}
use kerrighed_tools.Callbacks.Tables.{
  IsValid, zeroed-IsValid, Stored, store_callback-IsValid, store_callback-Stored, registered,
}
use kerrighed_tools.Callbacks.{register_callback}
use kerrighed_tools.Callbacks.Registration.{Registered, register_callback-Registered}
use kerrighed_tools.Callbacks.Running.{
  eligible, run_hook, run_slots, handle_hook, worker_body, report_signal, report_thread,
}
use kerrighed_tools.Callbacks.Running.Interleaving.{
  Process, Run, start, signalled, took, answered, Run-bounds,
}
use kerrighed_tools.Callbacks.Requests.Protocol.{oldest}
use kerrighed_tools.Callbacks.Running.Order.{filter, run_all, run_hook-run_all}
use kerrighed_tools.Callbacks.Running.Messages.{messages, sent, request}
use kerrighed_tools.Kernel.{call_kerrighed_services}
use kerrighed_tools.Proc.{application_get_userdata_from_appid}
use kerrighed_tools.Callbacks.Requests.{cr_detect_callbacks, cr_execute_chkpt_callbacks}
use kerrighed_tools.Callbacks.Requests.Success.{Success, cr_execute_chkpt_callbacks-Answered}
use kerrighed_tools.Examples.{answer, cluster}

-- A callback that succeeds, and then also one that fails.
abbrev one : Info
one = (store_callback checkpoint 8 1 signal_context zeroed).0

abbrev both : Info
both = (store_callback checkpoint 9 2 signal_context one).0

one-IsValid : IsValid one
one-IsValid = store_callback-IsValid checkpoint 8 1 signal_context zeroed zeroed-IsValid

both-IsValid : IsValid both
both-IsValid = store_callback-IsValid checkpoint 9 2 signal_context one one-IsValid

store_callback-Stored_example :
    Stored checkpoint
      (record { func = 9; arg = 2; thread_cb = true })
      one
      (store_callback checkpoint 9 2 thread_context one).0
      (store_callback checkpoint 9 2 thread_context one).1
store_callback-Stored_example = store_callback-Stored checkpoint 9 2 thread_context one one-IsValid

run_hook-run_all_example :
    run_hook cluster signal_context checkpoint both []
    ≡ run_all cluster (filter (eligible signal_context) (registered checkpoint both)) []
run_hook-run_all_example = run_hook-run_all cluster signal_context checkpoint both both-IsValid []

abbrev process : State
process = record { info = some both; thread_running = true; current_hook = none }

register_callback-Registered_example :
    Registered cluster checkpoint 7 3 thread_context one
      (record process { info = some one })
      []
      (register_callback cluster checkpoint 7 3 thread_context
        (record process { info = some one })
        []).0
register_callback-Registered_example =
    register_callback-Registered cluster checkpoint 7 3 one one-IsValid thread_context process []

-- The application 12 has declared callbacks, and answers.
answers : truthy (cr_execute_chkpt_callbacks cluster (pos 12) true []).0 ≡ false
unfolding cr_execute_chkpt_callbacks cr_detect_callbacks application_get_userdata_from_appid
    call_kerrighed_services
answers = refl

cr_execute_chkpt_callbacks-Answered_example :
    Success cluster (pos 12) true [] (cr_execute_chkpt_callbacks cluster (pos 12) true []).1
cr_execute_chkpt_callbacks-Answered_example =
    cr_execute_chkpt_callbacks-Answered cluster (pos 12) true [] answers

-- The process `process` with a worker thread that waits; two signals come before the thread takes the
-- mutex, and its one round is for the second.
abbrev waiting : Process
waiting = record { state = process; locked = true; busy = false }

abbrev first_signal : State × Log
first_signal = handle_hook cluster checkpoint one process []

abbrev second_signal : State × Log
second_signal = handle_hook cluster restart one first_signal.0 first_signal.1

abbrev last_log : Log
last_log = (worker_body cluster restart one (mutex_lock ∷ second_signal.1)).1

two_signals :
    Run cluster one waiting [] 2 1
      (record { state = second_signal.0; locked = true; busy = false })
      last_log
unfolding handle_hook
two_signals =
    answered restart 2 0 (record { state = second_signal.0; locked = true; busy = true })
      (mutex_lock ∷ second_signal.1) refl refl
      (took 2 0 (record { state = second_signal.0; locked = false; busy = false }) second_signal.1
        refl refl
        (signalled restart 1 0 (record { state = first_signal.0; locked = false; busy = false })
          first_signal.1 (signalled checkpoint 0 0 waiting [] start)))

-- The checkpoint request, the first, is never answered.
unanswered : sent last_log ≡ 0
unfolding handle_hook worker_body run_hook run_slots report_signal report_thread cb_count_read table
    store_callback
unanswered = refl

Run-bounds_example : (1 ≤ 2) × (sent last_log ≤ sent [] + (2 + 2))
Run-bounds_example =
    Run-bounds cluster one waiting []
      (record { state = second_signal.0; locked = true; busy = false }) last_log 2 1
      (record { held = refl; idle = refl }) two_signals

-- The process that asks the application `one`, without a worker thread.
abbrev calm : State
calm = record { info = some one; thread_running = false; current_hook = none }

abbrev asker_answer : Log → Call → Answer
asker_answer log (msgrcv q) = record {
  ret = pos 8;
  out = number (pos (oldest (messages (request cluster one calm []).1)));
}
asker_answer log c = answer log c

abbrev asker : World
asker = record { answer = asker_answer; interrupted = λ log. false }
