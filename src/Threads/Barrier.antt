-- ===== src/Threads/Barrier.antt =====
-- `PELIBackendParallelBarrier` (src/runtime/thread_pool.cc), one atomic access of a task at a time. A
-- task's counter stands on a cache line of its own, and counters are by task here.
use peli.Base.{ℕ, ◌+◌, ◌≡◌, Bool, false, ◌&&◌, not, if◌then◌else◌, ◌==◌, leb}

-- `watching old i` is in the loop, at the counter of task `i`.
pub data Place : Type 0 where
  outside : Place
  watching : ℕ → ℕ → Place

pub record Barrier : Type 0 where
  pub sync_counter : ℕ → ℕ
  pub places : ℕ → Place

-- The counters after `ParallelLauncher::Init`, with every task outside.
unfoldable pub new_barrier : Barrier
new_barrier = record { sync_counter = λ task. 0; places = λ task. outside }

abbrev pub update : {X : Type 0} → (ℕ → X) → ℕ → X → ℕ → X
update f task x j = if j == task then x else f j

-- The call up to its loop.
unfoldable pub enter : ℕ → Barrier → Barrier
enter task s = record {
  sync_counter = update s.sync_counter task (s.sync_counter task + 1);
  places = update s.places task (watching (s.sync_counter task) 0);
}

-- Where a task goes that watches.
unfoldable pub look_at : ℕ → ℕ → Barrier → Place → Place
look_at num_task task s outside = outside
look_at num_task task s (watching old i) =
    if leb num_task i
    then outside
    else if not (i == task) && leb (s.sync_counter i) old
    then watching old i
    else watching old (i + 1)

-- A step of the loop.
unfoldable pub look : ℕ → ℕ → Barrier → Barrier
look num_task task s = record s {
  places = update s.places task (look_at num_task task s (s.places task));
}

-- Whether the step leaves the barrier.
abbrev pub leaves : ℕ → Place → Bool
leaves num_task outside = false
leaves num_task (watching old i) = leb num_task i

-- The states of `n` tasks, with how often each has entered and has left.
pub data Reach (n : ℕ) : (ℕ → ℕ) → (ℕ → ℕ) → Barrier → Type 0 where
  created : Reach n (λ task. 0) (λ task. 0) new_barrier
  enters :
      {entered left : ℕ → ℕ} {s : Barrier} (task : ℕ)
      → Reach n entered left s
      → s.places task ≡ outside
      → Reach n (update entered task (entered task + 1)) left (enter task s)
  looks :
      {entered left : ℕ → ℕ} {s : Barrier} (task : ℕ)
      → Reach n entered left s
      → Reach n entered
          (if leaves n (s.places task) then update left task (left task + 1) else left)
          (look n task s)
