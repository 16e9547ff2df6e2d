-- ===== src/Threads/Finish.antt =====
-- What a launch returns.
use peli.Base.{
  ℕ, suc, ◌+◌, ◌≡◌, ◌<◌, ◌≤◌, refl, sym, ap, ◌∙◌, subst, Bool, true, false, not, ◌||◌, Option, none,
  some, List, [], ◌∷◌, ◌++◌, Outcome, ok, fatal, ◌>>=◌, ◌>>◌, check, if◌then◌else◌, ltb, leb, IfOk,
  IfOk-ok, IfOk->>=, diverges, length, set, length-set, arith, ℤ, pos, ◌-ℤ◌, ◌==ℤ◌, eq_of_parts,
  -ℤ_parts,
}
use peli.Threads.Launcher.{
  Launcher, count_down, write_error, mark_error, signal_job_error, Waited, waits, all_well,
  with_error, resize, reset_counters, grown_page, grown_errors, begin_init, with_counters, init,
  wait_for_jobs,
}
use peli.Threads.Grow.{length-resize}
use peli.Threads.Launch.{task_count, signal, signal_all, master_id, launch}

abbrev pub has_failed : List (ℕ × Option (List ℕ)) → Bool
has_failed [] = false
has_failed ((task_id, none) ∷ rest) = has_failed rest
has_failed ((task_id, some text) ∷ rest) = true

-- Every task has a place for its error.
abbrev pub AllBelow : ℕ → List (ℕ × Option (List ℕ)) → Type 0
AllBelow places [] = Unit
AllBelow places ((task_id, result) ∷ rest) = (task_id < places) × AllBelow places rest

one_less : (n : ℕ) → pos (suc n) -ℤ pos 1 ≡ pos n
one_less n = eq_of_parts _ _ (omega (arith, -ℤ_parts (pos (suc n)) (pos 1)))

signal-ok :
    (task_id n : ℕ) (result : Option (List ℕ)) (l : Launcher)
    → l.num_pending ≡ pos (suc n)
    → task_id < length l.par_errors
    → (m : Launcher) × (signal task_id result l ≡ ok m)
      × (m.num_pending ≡ pos n)
      × (length m.par_errors ≡ length l.par_errors)
      × (m.has_error ≡ (has_failed ((task_id, result) ∷ []) || l.has_error))
unfolding signal signal_job_error write_error mark_error count_down
signal-ok task_id n none l e below = (_, refl, ap (λ z. z -ℤ pos 1) e ∙ one_less n, refl, refl)
signal-ok task_id n (some text) l e below =
    let inside : ltb task_id (length l.par_errors) ≡ true = ground arith in
    let m : Launcher = record l {
      num_pending = l.num_pending -ℤ pos 1;
      par_errors = set l.par_errors task_id text;
      has_error = true;
    } in
    (
      m,
      ap
          (λ b. (check b >> ok (record m { has_error = l.has_error })) >>= λ w.
            ok (record w { has_error = true }))
          inside,
      ap (λ z. z -ℤ pos 1) e ∙ one_less n,
      length-set l.par_errors task_id text,
      refl,
    )

or_false : (b : Bool) → (b || false) ≡ b
or_false true = refl
or_false false = refl

AllBelow-weaken :
    {m n : ℕ} (done : List (ℕ × Option (List ℕ))) → m ≤ n → AllBelow m done → AllBelow n done
AllBelow-weaken [] more h = tt
AllBelow-weaken ((task_id, result) ∷ rest) more h =
    (omega (arith, h.0, more), AllBelow-weaken rest more h.1)

or_true : (b : Bool) → (b || true) ≡ true
or_true true = refl
or_true false = refl

signal_all-ok :
    (done : List (ℕ × Option (List ℕ))) (l : Launcher)
    → l.num_pending ≡ pos (length done)
    → AllBelow (length l.par_errors) done
    → (m : Launcher) × (signal_all done l ≡ ok m)
      × (m.num_pending ≡ pos 0)
      × (m.has_error ≡ (has_failed done || l.has_error))
unfolding signal_all
signal_all-ok [] l e below = (l, refl, e, refl)
signal_all-ok ((task_id, result) ∷ rest) l e below =
    let (m, run, left, places, failed) = signal-ok task_id (length rest) result l e below.0 in
    let (last, runs, none_left, any) =
      signal_all-ok rest m left (subst (λ n. AllBelow n rest) (sym places) below.1) in
    (
      last,
      ap (λ o. o >>= λ s. signal_all rest s) run ∙ runs,
      none_left,
      any ∙ ap (λ b. has_failed rest || b) failed ∙ either result,
    )
  where
    either :
        (result : Option (List ℕ))
        → (has_failed rest || (has_failed ((task_id, result) ∷ []) || l.has_error))
          ≡ (has_failed ((task_id, result) ∷ rest) || l.has_error)
    either none = refl
    either (some text) = or_true (has_failed rest)

-- What a launch reports: an error exactly if a task failed.
abbrev pub Reports : Bool → Waited → Type 0
Reports failed waits = ⊥
Reports failed (all_well l) = failed ≡ false
Reports failed (with_error text l) = failed ≡ true

reported :
    (empty erring failed : Bool) (text : List ℕ) (l m : Launcher)
    → empty ≡ true
    → erring ≡ failed
    → Reports failed
        (if not empty then waits else (if not erring then all_well l else with_error text m))
reported true true failed text l m e h = sym h
reported true false failed text l m e h = sym h
reported false erring failed text l m e h = absurd (cc)

none_pending : (z : ℤ) → z ≡ pos 0 → (z ==ℤ pos 0) ≡ true
none_pending z e = ap (λ z. z ==ℤ pos 0) e

waited-Reports :
    (to_string : ℕ → List ℕ) (failed : Bool) (l : Launcher)
    → l.num_pending ≡ pos 0
    → l.has_error ≡ failed
    → Reports failed (wait_for_jobs to_string l)
unfolding wait_for_jobs
waited-Reports to_string failed l e h =
    reported (l.num_pending ==ℤ pos 0) l.has_error failed _ l _ (none_pending l.num_pending e) h

room_for_errors : (n : ℕ) (l : Launcher) → n ≤ length (grown_errors n l)
unfolding grown_errors
room_for_errors n l =
    (elim (ltb (length l.par_errors) n)
        as (λ b.
          ltb (length l.par_errors) n ≡ b
          → n ≤ length (if b then resize (n + 1) l.par_errors else l.par_errors)) [
            | true ↦ λ e. let size = length-resize (n + 1) l.par_errors in omega (arith, size)
            | false ↦ λ e. ground (arith, e)
          ])
      refl

anything : {A : Type 0} (o : Outcome A) → IfOk (λ a. Unit {0}) o
anything (ok a) = tt
anything fatal = tt
anything diverges = tt

abbrev Ready : ℕ → Launcher → Type 0
Ready n l = (l.num_pending ≡ pos n) × (l.has_error ≡ false) × (n ≤ length l.par_errors)

init-Ready :
    (junk : ℤ) (n : ℕ) (need_sync : Bool) (l : Launcher) → IfOk (Ready n) (init junk n need_sync l)
unfolding init begin_init with_counters
init-Ready junk n false l = (refl, refl, room_for_errors n l)
init-Ready junk n true l =
    IfOk->>= (λ page. Unit {0}) (Ready n) (reset_counters 0 n (grown_page junk n true l)) _
      (anything (reset_counters 0 n (grown_page junk n true l)))
      (λ page any. (refl, refl, room_for_errors n l))

-- A launch from outside of the workers, of tasks that are synchronised only if there are as many
-- workers in use, whose `Init` succeeds and whose tasks all end, each signalled under a number
-- below the count: whatever the order in which they end, if the signals are not interrupted, it
-- returns, and reports an error exactly if one of the tasks failed.
pub launch_lem :
    (to_string : ℕ → List ℕ) (junk : ℤ) (used num_task junk_id : ℕ) (need_sync : Bool)
    (before after : List (ℕ × Option (List ℕ))) (own : Option (List ℕ)) (l fresh : Launcher)
    → ((not need_sync || leb (task_count used num_task) used) ≡ true)
    → init junk (task_count used num_task) need_sync l ≡ ok fresh
    → length (before ++ ((master_id junk_id (task_count used num_task), own) ∷ after))
      ≡ task_count used num_task
    → AllBelow
        (task_count used num_task)
        (before ++ ((master_id junk_id (task_count used num_task), own) ∷ after))
    → (w : Waited) × (launch to_string junk used false num_task junk_id need_sync before own after l
        ≡ ok w)
      × Reports
          (has_failed (before ++ ((master_id junk_id (task_count used num_task), own) ∷ after)))
          w
unfolding launch
launch_lem to_string junk used num_task junk_id need_sync before after own l fresh few started all
      below =
    let done = before ++ ((master_id junk_id (task_count used num_task), own) ∷ after) in
    let (pending, clean, room) =
      IfOk-ok (Ready (task_count used num_task)) _ fresh
        (init-Ready junk (task_count used num_task) need_sync l) started in
    let (last, ran, none_left, failed) =
      signal_all-ok done fresh (pending ∙ ap pos (sym all)) (AllBelow-weaken done room below) in
    (
      wait_for_jobs to_string last,
      ap
            (λ b.
              check b
              >> (init junk (task_count used num_task) need_sync l >>= λ fresh.
                  signal_all done fresh >>= λ s. ok (wait_for_jobs to_string s)))
            few
          ∙ ap (λ o. o >>= λ fresh. signal_all done fresh >>= λ s. ok (wait_for_jobs to_string s))
              started
          ∙ ap (λ o. o >>= λ s. ok (wait_for_jobs to_string s)) ran,
      waited-Reports to_string (has_failed done) last none_left
          (failed ∙ ap (λ b. has_failed done || b) clean ∙ or_false (has_failed done)),
    )
