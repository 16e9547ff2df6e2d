-- ===== src/Threads/Launch.antt =====
-- `ThreadPool::Launch` and `RunWorker` (src/runtime/thread_pool.cc): what a launch makes of the results of
-- its tasks, in the order in which they finish.
use peli.Base.{
  ℕ, ◌-◌, Bool, not, ◌||◌, Option, none, some, List, [], ◌∷◌, ◌++◌, Outcome, ok, ◌>>=◌, ◌>>◌, check,
  if◌then◌else◌, ◌==◌, leb, ℤ,
}
use peli.Threads.Launcher.{Launcher, init, count_down, signal_job_error, Waited, wait_for_jobs}

-- The number of tasks; 0 asks for as many as there are workers.
unfoldable pub task_count : ℕ → ℕ → ℕ
task_count used num_task = if num_task == 0 then used else num_task

-- How a task ends: `none` for success, and the text of its error.
unfoldable pub signal : ℕ → Option (List ℕ) → Launcher → Outcome Launcher
signal task_id none l = ok (count_down l)
signal task_id (some text) l = signal_job_error task_id text l

-- The `task_id` that the launching thread signals an error of task 0 under: the last one of the
-- loop, and what `tsk` held where the loop does not run.
unfoldable pub master_id : ℕ → ℕ → ℕ
master_id junk num_task = if leb num_task 1 then junk else num_task - 1

-- The tasks that finish, in order.
unfoldable pub signal_all : List (ℕ × Option (List ℕ)) → Launcher → Outcome Launcher
signal_all [] l = ok l
signal_all ((task_id, result) ∷ rest) l = signal task_id result l >>= λ s. signal_all rest s

-- `Launch`, with `used` workers in use: each queue from 1 on gets the task of its number, and the launch
-- waits until all have ended. The result of the launching thread, `own`, comes between those of the
-- workers, `before` and `after`. The loop that pushes the tasks to the queues is left out, and with it
-- its access past the queues where more tasks than workers are asked for without `need_sync`.
unfoldable pub launch :
    (to_string : ℕ → List ℕ) (junk : ℤ) (used : ℕ) (is_worker : Bool) (num_task junk_id : ℕ)
    (need_sync : Bool) (before : List (ℕ × Option (List ℕ))) (own : Option (List ℕ))
    (after : List (ℕ × Option (List ℕ)))
    → Launcher
    → Outcome Waited
launch to_string junk used is_worker num_task junk_id need_sync before own after l = do
  check (not is_worker)
  check (not need_sync || leb (task_count used num_task) used)
  fresh ← init junk (task_count used num_task) need_sync l
  done ← signal_all (before ++ ((master_id junk_id (task_count used num_task), own) ∷ after)) fresh
  ok (wait_for_jobs to_string done)
