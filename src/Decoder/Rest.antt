-- ===== src/Decoder/Rest.antt =====
-- The join of a worker that has returned, or that has only the frame queue left to kill.
use peli.Base.{ℕ, suc, ◌≡◌, refl, sym, subst, diverges, true, false, ok}
use peli.Reader.State.{Frame}
use peli.Decoder.Queue.{BlockingQueue}
use peli.Decoder.State.{
  Codec, Place, idle, fetch, deliver, drain, marking, counting, recording, stopping, killing, ended,
  Decoder,
}
use peli.Decoder.Worker.{moved, kill_frames, step_at, worker_step}
use peli.Decoder.Client.{is_joinable, join}
use peli.Decoder.Steps.{IsAtRest}
use peli.Decoder.Stops.{weight}

module _ (bq : BlockingQueue) (cd : Codec) where
  joinable_at_rest : (p : Place) → IsAtRest p → is_joinable p ≡ true
  unfolding is_joinable
  joinable_at_rest idle h = refl
  joinable_at_rest ended h = refl
  joinable_at_rest fetch h = absurd h
  joinable_at_rest drain h = absurd h
  joinable_at_rest (deliver p d) h = absurd h
  joinable_at_rest (marking n) h = absurd h
  joinable_at_rest (counting after) h = absurd h
  joinable_at_rest recording h = absurd h
  joinable_at_rest stopping h = absurd h
  joinable_at_rest killing h = absurd h

  pub join_rest :
      (fuel : ℕ) (s : Decoder bq cd)
      → IsAtRest s.worker
      → join bq cd (suc fuel) s ≡ ok (record s { worker = idle })
  unfolding join
  join_rest fuel s h = rw (joinable_at_rest s.worker h, join) refl

  killing_busy : (p : Place) → p ≡ killing → is_joinable p ≡ false
  unfolding is_joinable
  killing_busy p at = rw at refl

  pub killing_weight : (p : Place) → p ≡ killing → weight p ≡ 1
  unfolding weight
  killing_weight p at = rw at refl

  killing_step :
      (s : Decoder bq cd) → s.worker ≡ killing → worker_step bq cd s ≡ moved (kill_frames bq cd s)
  unfolding worker_step step_at
  killing_step s at = rw (at, worker_step) refl

  kill_frames-ended : (s : Decoder bq cd) → (kill_frames bq cd s).worker ≡ ended
  unfolding kill_frames
  kill_frames-ended s = refl

  pub kill_frames-run : (s : Decoder bq cd) → (kill_frames bq cd s).run ≡ s.run
  unfolding kill_frames
  kill_frames-run s = refl

  pub kill_frames-is_killed :
      (s : Decoder bq cd) → bq.is_killed Frame (kill_frames bq cd s).frame_queue ≡ true
  unfolding kill_frames
  kill_frames-is_killed s = bq.is_killed-kill Frame s.frame_queue

  -- The join of a worker that has only the frame queue left to kill.
  pub join_killing :
      (fuel : ℕ) (s : Decoder bq cd)
      → s.worker ≡ killing
      → join bq cd (suc (suc fuel)) s ≡ ok (record (kill_frames bq cd s) { worker = idle })
  unfolding join
  join_killing fuel s at =
      let rest : IsAtRest (kill_frames bq cd s).worker =
        subst IsAtRest (sym (kill_frames-ended s)) tt in
      rw (killing_busy s.worker at, killing_step s at, join)
        (join_rest fuel (kill_frames bq cd s) rest)

  pub join_killing_short : (s : Decoder bq cd) → s.worker ≡ killing → join bq cd 1 s ≡ diverges
  unfolding join
  join_killing_short s at = rw (killing_busy s.worker at, killing_step s at, join) refl
