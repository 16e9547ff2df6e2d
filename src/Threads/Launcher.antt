-- ===== src/Threads/Launcher.antt =====
-- `ParallelLauncher` (src/runtime/thread_pool.cc): how a launch waits for its tasks and gathers their
-- errors. A step is one atomic access.
use peli.Base.{
  ℕ, zero, suc, ◌+◌, ◌*◌, Bool, true, false, not, Option, none, some, List, [], ◌∷◌, ◌++◌, Outcome,
  ok, fatal, ◌>>=◌, ◌>>◌, check, if◌then◌else◌, ltb, length, set, replicate, ℤ, pos, ◌-ℤ◌, ◌==ℤ◌,
}

-- Texts are lists of characters. `sync_counter` is `none` for the null pointer.
pub record Launcher : Type 0 where
  pub num_task : ℕ
  pub sync_handle : Option (List ℤ)
  pub num_pending : ℤ
  pub has_error : Bool
  pub sync_counter : Option (List ℤ)
  pub par_errors : List (List ℕ)

-- `kSyncStride`.
abbrev pub sync_stride : ℕ
sync_stride = 16

-- A launcher that was not used.
abbrev pub new_launcher : Launcher
new_launcher = record {
  num_task = 0;
  sync_handle = none;
  num_pending = pos 0;
  has_error = false;
  sync_counter = none;
  par_errors = [];
}

-- `resize` to `n` texts.
unfoldable pub resize : ℕ → List (List ℕ) → List (List ℕ)
resize zero l = []
resize (suc n) [] = [] ∷ resize n []
resize (suc n) (text ∷ l) = text ∷ resize n l

-- A write into the page; outside of it, or where there is none, it is undefined: `fatal` here.
unfoldable pub reset_at : ℕ → Option (List ℤ) → Outcome (Option (List ℤ))
reset_at i none = fatal
reset_at i (some page) = check (ltb i (length page)) >> ok (some (set page i (pos 0)))

-- The loop over the tasks, from task `i` on.
unfoldable pub reset_counters : ℕ → ℕ → Option (List ℤ) → Outcome (Option (List ℤ))
reset_counters i zero page = ok page
reset_counters i (suc k) page = do
  written ← reset_at (i * sync_stride) page
  reset_counters (i + 1) k written

-- The page for more tasks than before; `junk` is what new memory holds.
unfoldable pub grown_page : ℤ → ℕ → Bool → Launcher → Option (List ℤ)
grown_page junk num_task need_sync l =
    if ltb (length l.par_errors) num_task
    then if need_sync then some (replicate (num_task * sync_stride) junk) else l.sync_counter
    else l.sync_counter

unfoldable pub grown_errors : ℕ → Launcher → List (List ℕ)
grown_errors num_task l =
    if ltb (length l.par_errors) num_task then resize (num_task + 1) l.par_errors else l.par_errors

-- `Init` up to the loop over the counters.
unfoldable pub begin_init : ℤ → ℕ → Bool → Launcher → Launcher
begin_init junk num_task need_sync l = record l {
  num_task = num_task;
  num_pending = pos num_task;
  has_error = false;
  par_errors = grown_errors num_task l;
  sync_counter = grown_page junk num_task need_sync l;
}

unfoldable pub with_counters : Launcher → Option (List ℤ) → Launcher
with_counters l page = record l { sync_counter = page; sync_handle = page }

-- `Init`.
unfoldable pub init : ℤ → ℕ → Bool → Launcher → Outcome Launcher
init junk num_task need_sync l =
    let fresh = begin_init junk num_task need_sync l in
    if need_sync
    then (reset_counters 0 num_task fresh.sync_counter >>= λ page. ok (with_counters fresh page))
    else ok (record fresh { sync_handle = none })

-- The text of an error of task `i`, whose number `to_string` prints.
unfoldable pub error_line : (ℕ → List ℕ) → ℕ → List ℕ → List ℕ
error_line to_string i [] = []
error_line to_string i (c ∷ text) =
    (84 ∷ 97 ∷ 115 ∷ 107 ∷ 32 ∷ [])
    ++ to_string i
    ++ (32 ∷ 101 ∷ 114 ∷ 114 ∷ 111 ∷ 114 ∷ 58 ∷ 32 ∷ [])
    ++ ((c ∷ text) ++ (10 ∷ []))

-- The loop over the errors, from task `i` on: the text.
unfoldable pub gather : (ℕ → List ℕ) → ℕ → List (List ℕ) → List ℕ
gather to_string i [] = []
gather to_string i (text ∷ errors) = error_line to_string i text ++ gather to_string (i + 1) errors

-- The same loop: what is left of the errors.
unfoldable pub cleared : List (List ℕ) → List (List ℕ)
cleared [] = []
cleared (text ∷ errors) = [] ∷ cleared errors

-- What a call of `WaitForJobs` comes to when it looks: it waits, or returns with the last error.
pub data Waited : Type 0 where
  waits : Waited
  all_well : Launcher → Waited
  with_error : List ℕ → Launcher → Waited

unfoldable pub wait_for_jobs : (ℕ → List ℕ) → Launcher → Waited
wait_for_jobs to_string l =
    if not (l.num_pending ==ℤ pos 0)
    then waits
    else if not l.has_error
    then all_well l
    else with_error (gather to_string 0 l.par_errors)
        (record l { par_errors = cleared l.par_errors })

-- `SignalJobFinish`, and the first of the accesses of `SignalJobError`.
unfoldable pub count_down : Launcher → Launcher
count_down l = record l { num_pending = l.num_pending -ℤ pos 1 }

-- The second: the text; an error of a task that has no place is undefined.
unfoldable pub write_error : ℕ → List ℕ → Launcher → Outcome Launcher
write_error task_id text l =
    check (ltb task_id (length l.par_errors))
    >> ok (record l { par_errors = set l.par_errors task_id text })

-- The third.
unfoldable pub mark_error : Launcher → Launcher
mark_error l = record l { has_error = true }

-- `SignalJobError` without interruption.
unfoldable pub signal_job_error : ℕ → List ℕ → Launcher → Outcome Launcher
signal_job_error task_id text l = do
  written ← write_error task_id text (count_down l)
  ok (mark_error written)
