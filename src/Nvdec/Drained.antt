-- ===== src/Nvdec/Drained.antt =====
-- What follows of that for a second end of stream.
use peli.Base.{
  ℕ, ◌≡◌, ap, ◌∙◌, Bool, true, false, Option, none, ok, ◌>>◌, check, if◌then◌else◌, IfOk-ok,
}
use peli.Reader.State.{Frame}
use peli.Decoder.Queue.{BlockingQueue}
use peli.Decoder.Worker.{moved, AfterTurn-moved}
use peli.Decoder.Client.{answered, AfterAnswer-answered}
use peli.Nvdec.Decoder.{
  Payload, Nv, CuDecoder, launch_step, start, clear, push_begins, push_ends, pop,
}
use peli.Nvdec.Draining.{
  IsDraining, launch_step-IsDraining, start-IsDraining, clear-IsDraining, push_ends-IsDraining,
  pop-IsDraining, end-IsDraining, push_begins-IsDraining,
}

module _ (bq : BlockingQueue) (nv : Nv) where
  -- A step of the thread, or a call of the decoder's owner.
  pub data Step (s t : CuDecoder bq nv) : Type 0 where
    works : launch_step bq nv s ≡ moved t → Step s t
    starts : start bq nv s ≡ ok t → Step s t
    clears : (fuel : ℕ) → clear bq nv fuel s ≡ ok t → Step s t
    asks : (p : Option Payload) (b : Bool) → push_begins bq nv p s ≡ ok (b, t) → Step s t
    queues : (p : Option Payload) (buf : Frame) → push_ends bq nv p buf s ≡ moved t → Step s t
    takes : (old f : Frame) (b : Bool) → pop bq nv old s ≡ answered b f t → Step s t

  pub data Run : CuDecoder bq nv → CuDecoder bq nv → Type 0 where
    stays : (s : CuDecoder bq nv) → Run s s
    goes : (s t u : CuDecoder bq nv) → Step s t → Run t u → Run s u

  Step-IsDraining : {s t : CuDecoder bq nv} → Step s t → IsDraining bq nv s → IsDraining bq nv t
  Step-IsDraining (works e) h =
      AfterTurn-moved (IsDraining bq nv) _ _ (launch_step-IsDraining bq nv _ h) e
  Step-IsDraining (starts e) h = IfOk-ok (IsDraining bq nv) _ _ (start-IsDraining bq nv _ h) e
  Step-IsDraining (clears fuel e) h =
      IfOk-ok (IsDraining bq nv) _ _ (clear-IsDraining bq nv fuel _ h) e
  Step-IsDraining (asks p b e) h =
      IfOk-ok (λ (out : Bool × CuDecoder bq nv). IsDraining bq nv out.1) _ _
        (push_begins-IsDraining bq nv p _ h) e
  Step-IsDraining (queues p buf e) h =
      AfterTurn-moved (IsDraining bq nv) _ _ (push_ends-IsDraining bq nv p buf _ h) e
  Step-IsDraining (takes old f b e) h =
      AfterAnswer-answered (IsDraining bq nv) _ _ _ _ (pop-IsDraining bq nv old _ h) e

  Run-IsDraining : {s t : CuDecoder bq nv} → Run s t → IsDraining bq nv s → IsDraining bq nv t
  Run-IsDraining (stays s) h = h
  Run-IsDraining (goes s t u step run) h = Run-IsDraining run (Step-IsDraining step h)

  drained_again :
      (s : CuDecoder bq nv)
      → IsDraining bq nv s
      → s.run ≡ true
      → push_begins bq nv none s ≡ ok (false, s)
  unfolding push_begins
  drained_again s h on =
      ap
        (λ b.
          check b >> ok (if s.draining then (false, s) else (true, record s { draining = true })))
        on
      ∙ ap (λ b. ok (if b then (false, s) else (true, record s { draining = true }))) h

  -- After an end of stream that `Push` accepted, whatever steps the thread takes and whatever
  -- calls of `Start`, `Clear`, `Push` and `Pop` are made, a `Push` of another end of stream while the
  -- decoder runs returns without queueing it.
  pub drained_once :
      (s t u : CuDecoder bq nv)
      → push_begins bq nv none s ≡ ok (true, t)
      → Run t u
      → u.run ≡ true
      → push_begins bq nv none u ≡ ok (false, u)
  drained_once s t u e run on =
      drained_again u
        (Run-IsDraining run (
          IfOk-ok (λ (out : Bool × CuDecoder bq nv). IsDraining bq nv out.1) _ _
            (end-IsDraining bq nv s) e))
        on
