-- ===== src/Threads/Tests.antt =====
-- A task that goes through the queue, a worker that sleeps, two tasks at a barrier, and a launch.
use peli.Base.{
  length, ◌*◌, ℤ, none, some, ℕ, ◌+◌, ◌≡◌, ◌≢◌, ◌≤◌, ◌<◌, ◌⊎◌, refl, true, false, List, [], ◌∷◌,
  ◌++◌, ok, fatal, arith, pos, ◌-ℤ◌,
}
use peli.Threads.Spsc.{
  resting, enqueueing, adding, notifying, asleep, advancing, failed, Spsc, new_spsc, put, wake,
  claim, push_at, push_step, pop_at, pop_step, Reach, created, calls, pushes, pops,
}
use peli.Threads.Held.{contents, in_hand}
use peli.Threads.Order.{tasks_in_order, sleeper_lem}
use peli.Threads.Barrier.{new_barrier, enter, look, look_at, update, enters, looks}
use peli.Threads.Barrier as Barrier
use peli.Threads.Meet.{barrier_lem}
use peli.Threads.Launcher.{
  sync_stride, reset_counters, reset_at, Launcher, new_launcher, init, begin_init, grown_page,
  grown_errors, resize, Waited, all_well, wait_for_jobs, count_down,
}
use peli.Threads.Grow.{init_grown}
use peli.Threads.Launch.{task_count, master_id, launch}
use peli.Threads.Finish.{Reports, launch_lem}

abbrev junk : ℕ → ℕ
junk i = 99

-- The worker finds nothing and sleeps; then task 7 is pushed and counted.
abbrev start : Spsc ℕ
start = new_spsc junk

abbrev sleeping : Spsc ℕ
sleeping = pop_step 0 (pop_step 0 (pop_step 0 start))

sleeping_reached : Reach junk [] [] sleeping
unfolding new_spsc pop_step pop_at claim
sleeping_reached = pops 0 (pops 0 (pops 0 created))

at_rest : sleeping.producer ≡ resting
unfolding new_spsc pop_step pop_at claim
at_rest = refl

abbrev alarmed : Spsc ℕ
alarmed =
    push_step (push_step (push_step (push_step (record sleeping { producer = enqueueing 7 }))))

alarmed_reached : Reach junk (7 ∷ []) [] alarmed
unfolding new_spsc pop_step pop_at claim
alarmed_reached = pushes (pushes (pushes (pushes (calls 7 sleeping_reached at_rest))))

alarmed_asleep : alarmed.consumer ≡ asleep
unfolding new_spsc pop_step pop_at claim push_step push_at put
alarmed_asleep = refl

alarmed_notifies : alarmed.producer ≡ notifying
unfolding new_spsc pop_step pop_at claim push_step push_at put
alarmed_notifies = refl

sleeper_lem_example :
    (alarmed.exit_now ≡ false)
    × ((alarmed.head ≡ alarmed.tail) ⊎ (alarmed.producer ≡ adding) ⊎ (alarmed.producer ≡ notifying))
sleeper_lem_example = sleeper_lem junk alarmed_reached alarmed_asleep

tasks_in_order_example :
    (7 ∷ [] ≡ [] ++ (contents alarmed.head alarmed.tail alarmed.buffer ++ in_hand alarmed.producer))
    × (alarmed.consumer ≢ failed)
    × (alarmed.head < 2)
    × (alarmed.tail < 2)
    × ((alarmed.pending ≡ 0) ⊎ (alarmed.pending ≡ 1) ⊎ (alarmed.pending ≡ 255))
tasks_in_order_example = tasks_in_order junk alarmed_reached

-- It is then handed out.
served : (pop_step 0 (pop_step 0 (pop_step 0 (push_step alarmed)))).consumer ≡ advancing 7
unfolding new_spsc pop_step pop_at claim push_step push_at put wake
served = refl

all_outside : new_barrier.places 1 ≡ Barrier.outside
unfolding new_barrier
all_outside = refl

one_entered : Barrier.Reach 2 (update (λ task. 0) 1 (0 + 1)) (λ task. 0) (enter 1 new_barrier)
one_entered = enters 1 Barrier.created all_outside

barrier_lem_example : ((j : ℕ) → j < 2 → 0 ≤ update (λ task. 0) 1 (0 + 1) j) × (0 ≤ 1) × (1 ≤ 0 + 1)
barrier_lem_example = barrier_lem 2 one_entered 1

init_grown_example :
    (l : Launcher) × (page : List ℤ) × (init (pos 99) 2 true new_launcher ≡ ok l)
    × (l.sync_counter ≡ some page)
    × (length page ≡ 2 * sync_stride)
    × (length l.par_errors ≡ 2 + 1)
    × ((begin_init (pos 99) 3 true l).sync_counter ≡ some page)
    × ((written : List ℤ) × (reset_counters 0 2 (some page) ≡ ok (some written))
        × (reset_at (2 * sync_stride) (some written) ≡ fatal))
    × (init (pos 99) 3 true l ≡ fatal)
init_grown_example = init_grown (pos 99) 2 (omega arith)

-- A last task fails; its counting down is seen before its error, and the launch returns 0.
abbrev failing : Launcher
failing = record new_launcher { num_task = 1; num_pending = pos 1; par_errors = [] ∷ [] ∷ [] }

error_lost :
    (to_string : ℕ → List ℕ)
    → wait_for_jobs to_string (count_down failing) ≡ all_well (count_down failing)
unfolding wait_for_jobs count_down ◌-ℤ◌
error_lost to_string = refl

-- A launch of three tasks, of which task 1 fails last.
abbrev digit : ℕ → List ℕ
digit i = (48 + i) ∷ []

abbrev three : Launcher
three = record new_launcher {
  num_task = 3;
  num_pending = pos 3;
  par_errors = [] ∷ [] ∷ [] ∷ [] ∷ [];
}

starting : init (pos 99) 3 false new_launcher ≡ ok three
unfolding init begin_init grown_page grown_errors resize
starting = refl

launch_lem_example :
    (w : Waited) × (launch digit
        (pos 99)
        4
        false
        3
        0
        false
        ((2, none) ∷ [])
        none
        ((1, some (111 ∷ [])) ∷ [])
        new_launcher
      ≡ ok w)
    × Reports true w
unfolding task_count master_id
launch_lem_example =
    launch_lem digit (pos 99) 4 3 0 false ((2, none) ∷ []) ((1, some (111 ∷ [])) ∷ []) none
      new_launcher three refl starting refl (omega arith, (omega arith, (omega arith, tt)))
