-- ===== src/Nvdec/Draining.antt =====
-- `draining_` of `CUThreadedDecoder`: no call and no step of the thread takes it back.
use peli.Base.{
  ℕ, zero, suc, ◌≡◌, refl, Bool, true, false, not, Option, none, some, [], ◌∷◌, Outcome, ok, fatal,
  diverges, if◌then◌else◌, ◌==◌, ltb, length, pos, ◌==ℤ◌, ◌&&◌, IfOk, IfOk->>=, IfOk->>, IfOk-if,
}
use peli.Reader.State.{Frame}
use peli.Decoder.Queue.{BlockingQueue, Popped, waits, killed, got}
use peli.Decoder.Worker.{blocked, moved, AfterTurn, AfterTurn-if, mem_pts}
use peli.Decoder.Client.{Answer, answered, AfterAnswer}
use peli.Nvdec.Format.{Hardware}
use peli.Nvdec.Decoder.{
  Payload, Display, Callback, sequence, decode, display, Nv, Place, idle, fetch, filter, callbacks,
  recording, stopping, killing, ended, CuDecoder, fail, record_error, end_run, kill_frames, feed,
  take_packet, popped_packet, filter_step, handle_sequence, handle_decode, rendered, show,
  popped_buffer, handle, step_at, max_output_surfaces, launch_step, is_joinable, started, start,
  signal_stop, join, clear, push_begins, push_ends, popped_frame, pop,
}

module _ (bq : BlockingQueue) (nv : Nv) where
  abbrev pub IsDraining : CuDecoder bq nv → Type 0
  IsDraining s = s.draining ≡ true

  if-IsDraining :
      (b : Bool) (x y : CuDecoder bq nv)
      → IsDraining x
      → IsDraining y
      → IsDraining (if b then x else y)
  if-IsDraining true x y h k = h
  if-IsDraining false x y h k = k

  take_packet-IsDraining :
      (s : CuDecoder bq nv) (p : Option Payload) → IsDraining s → IsDraining (take_packet bq nv s p)
  unfolding take_packet feed fail
  take_packet-IsDraining s none h = h
  take_packet-IsDraining s (some p) h =
      if-IsDraining (p.size == 0) _ _ h (if-IsDraining ((nv.send_filter s.gpu p).0) _ _ h h)

  popped_packet-IsDraining :
      (s : CuDecoder bq nv) (p : Popped (bq.Queue (Option Payload)) (Option Payload))
      → IsDraining s
      → AfterTurn IsDraining (popped_packet bq nv s p)
  unfolding popped_packet
  popped_packet-IsDraining s waits h = tt
  popped_packet-IsDraining s killed h = h
  popped_packet-IsDraining s (got p q) h = take_packet-IsDraining (record s { pkt_queue = q }) p h

  filter_step-IsDraining :
      (s : CuDecoder bq nv) (out : Option (Payload × nv.driver.State))
      → IsDraining s
      → IsDraining (filter_step bq nv s out)
  unfolding filter_step feed
  filter_step-IsDraining s none h = h
  filter_step-IsDraining s (some out) h = h

  handle_sequence-IsDraining :
      (s : CuDecoder bq nv) (made : Outcome (ℕ × Hardware × nv.driver.State)) (after : Place)
      → IsDraining s
      → IsDraining (handle_sequence bq nv s made after)
  unfolding handle_sequence fail
  handle_sequence-IsDraining s (ok made) after h = h
  handle_sequence-IsDraining s fatal after h = h
  handle_sequence-IsDraining s diverges after h = h

  handle_decode-IsDraining :
      (s : CuDecoder bq nv) (n : ℕ) (after : Place)
      → IsDraining s
      → IsDraining (handle_decode bq nv s n after)
  unfolding handle_decode fail
  handle_decode-IsDraining s n after h =
      if-IsDraining s.run _ _
        (if-IsDraining s.hardware.initialized _ _
          (if-IsDraining ((nv.decode_picture s.gpu n).0) _ _ h h) h)
        h

  rendered-IsDraining :
      (s : CuDecoder bq nv) (out : Option (Frame × nv.driver.State)) (after : Place)
      → IsDraining s
      → IsDraining (rendered bq nv s out after)
  unfolding rendered fail
  rendered-IsDraining s none after h = h
  rendered-IsDraining s (some out) after h = h

  show-IsDraining :
      (s : CuDecoder bq nv) (d : Display) (buf : Frame) (after : Place)
      → IsDraining s
      → IsDraining (show bq nv s d buf after)
  unfolding show fail
  show-IsDraining s d buf after h =
      if-IsDraining buf.defined _ _
        (if-IsDraining (mem_pts d.timestamp s.discard_pts) _ _ h
          (if-IsDraining d.progressive _ _ (rendered-IsDraining s _ after h) h))
        h

  popped_buffer-IsDraining :
      (s : CuDecoder bq nv) (d : Display) (after : Place) (p : Popped (bq.Queue Frame) Frame)
      → IsDraining s
      → AfterTurn IsDraining (popped_buffer bq nv s d after p)
  unfolding popped_buffer
  popped_buffer-IsDraining s d after waits h = tt
  popped_buffer-IsDraining s d after killed h = h
  popped_buffer-IsDraining s d after (got buf q) h =
      show-IsDraining (record s { frame_queue = q }) d buf after h

  handle-IsDraining :
      (s : CuDecoder bq nv) (c : Callback) (after : Place)
      → IsDraining s
      → AfterTurn IsDraining (handle bq nv s c after)
  unfolding handle
  handle-IsDraining s (sequence f) after h = handle_sequence-IsDraining s _ after h
  handle-IsDraining s (decode n) after h = handle_decode-IsDraining s n after h
  handle-IsDraining s (display d) after h =
      AfterTurn-if IsDraining s.run _ _ (popped_buffer-IsDraining s d after _ h) h

  step_at-IsDraining :
      (place : Place) (s : CuDecoder bq nv)
      → IsDraining s
      → AfterTurn IsDraining (step_at bq nv place s)
  unfolding step_at fail record_error end_run kill_frames
  step_at-IsDraining idle s h = tt
  step_at-IsDraining ended s h = tt
  step_at-IsDraining recording s h = h
  step_at-IsDraining stopping s h = h
  step_at-IsDraining killing s h = h
  step_at-IsDraining fetch s h =
      AfterTurn-if IsDraining s.run _ _ (popped_packet-IsDraining s _ h) h
  step_at-IsDraining filter s h = filter_step-IsDraining s _ h
  step_at-IsDraining (callbacks [] done after) s h = if-IsDraining done _ _ h h
  step_at-IsDraining (callbacks (c ∷ cs) done after) s h =
      handle-IsDraining s c (callbacks cs done after) h

  pub launch_step-IsDraining :
      (s : CuDecoder bq nv) → IsDraining s → AfterTurn IsDraining (launch_step bq nv s)
  unfolding launch_step
  launch_step-IsDraining s h = step_at-IsDraining s.worker s h

  started-IsDraining :
      (s : CuDecoder bq nv) (parser : Option nv.driver.State)
      → IsDraining s
      → IfOk IsDraining (started bq nv s parser)
  unfolding started
  started-IsDraining s none h = tt
  started-IsDraining s (some gpu) h = h

  pub start-IsDraining : (s : CuDecoder bq nv) → IsDraining s → IfOk IsDraining (start bq nv s)
  unfolding start
  start-IsDraining s h =
      IfOk->> IsDraining (not s.error_status) _
        (λ sound. IfOk-if IsDraining s.run _ _ (λ on. h) (λ off. started-IsDraining s _ h))

  join-IsDraining :
      (fuel : ℕ) (s : CuDecoder bq nv) → IsDraining s → IfOk IsDraining (join bq nv fuel s)
  unfolding join
  join-IsDraining zero s h = tt
  join-IsDraining (suc fuel) s h =
      elim (is_joinable bq nv s.worker)
        as (λ b. IfOk IsDraining (elim b [
          | true ↦ ok (record s { worker = idle })
          | false ↦ elim (launch_step bq nv s) [ blocked ↦ diverges | moved t ↦ join bq nv fuel t ]
        ])) [
          | true ↦ h
          | false ↦
              (elim (launch_step bq nv s)
                  as (λ turn.
                    AfterTurn IsDraining turn
                    → IfOk IsDraining
                        (elim turn [ blocked ↦ diverges | moved t ↦ join bq nv fuel t ])) [
                          | blocked ↦ λ k. tt
                          | moved t ↦ λ k. join-IsDraining fuel t k
                        ])
                (launch_step-IsDraining s h)
        ]

  pub clear-IsDraining :
      (fuel : ℕ) (s : CuDecoder bq nv) → IsDraining s → IfOk IsDraining (clear bq nv fuel s)
  unfolding clear signal_stop
  clear-IsDraining fuel s h =
      IfOk->>= IsDraining IsDraining (join bq nv fuel _) _
        (join-IsDraining fuel _ (if-IsDraining s.run _ _ h h)) (λ t k. k)

  pub push_ends-IsDraining :
      (p : Option Payload) (buf : Frame) (s : CuDecoder bq nv)
      → IsDraining s
      → AfterTurn IsDraining (push_ends bq nv p buf s)
  unfolding push_ends
  push_ends-IsDraining p buf s h =
      AfterTurn-if IsDraining
        (ltb max_output_surfaces (length (bq.items (Option Payload) s.pkt_queue))) blocked _ tt h

  answer_if-IsDraining :
      (b : Bool) (x y : Answer (CuDecoder bq nv))
      → AfterAnswer IsDraining x
      → AfterAnswer IsDraining y
      → AfterAnswer IsDraining (if b then x else y)
  answer_if-IsDraining true x y h k = h
  answer_if-IsDraining false x y h k = k

  popped_frame-IsDraining :
      (old : Frame) (s : CuDecoder bq nv) (p : Popped (bq.Queue Frame) Frame)
      → IsDraining s
      → AfterAnswer IsDraining (popped_frame bq nv old s p)
  unfolding popped_frame
  popped_frame-IsDraining old s waits h = tt
  popped_frame-IsDraining old s killed h = answer_if-IsDraining s.error_status _ _ tt h
  popped_frame-IsDraining old s (got f q) h = answer_if-IsDraining s.error_status _ _ tt h

  pub pop-IsDraining :
      (old : Frame) (s : CuDecoder bq nv) → IsDraining s → AfterAnswer IsDraining (pop bq nv old s)
  unfolding pop
  pop-IsDraining old s h = answer_if-IsDraining s.error_status _ _ tt (
      answer_if-IsDraining ((s.frame_count ==ℤ pos 0) && not s.draining) (answered false old s) _ h
        (answer_if-IsDraining (ltb (length (bq.items Frame s.reorder_queue)) 1)
          (answered false old s) _ h
          (popped_frame-IsDraining old s (bq.pop Frame s.reorder_queue) h)))

  -- A `Push` of an end of stream leaves the flag set.
  pub end-IsDraining :
      (s : CuDecoder bq nv) → IfOk (λ out. IsDraining out.1) (push_begins bq nv none s)
  unfolding push_begins
  end-IsDraining s =
      IfOk->> (λ (out : Bool × CuDecoder bq nv). IsDraining out.1) s.run _
        (λ on.
          (elim s.draining
              as (λ b.
                s.draining ≡ b
                → IsDraining (
                    (if◌then◌else◌ {A = Bool × CuDecoder bq nv} b (false, s)
                      (true, record s { draining = true })).1)) [
                        | true ↦ λ e. e
                        | false ↦ λ e. refl
                      ])
            refl)

  pub push_begins-IsDraining :
      (p : Option Payload) (s : CuDecoder bq nv)
      → IsDraining s
      → IfOk (λ out. IsDraining out.1) (push_begins bq nv p s)
  unfolding push_begins
  push_begins-IsDraining (some p) s h =
      IfOk->> (λ (out : Bool × CuDecoder bq nv). IsDraining out.1) s.run _ (λ on. h)
  push_begins-IsDraining none s h = end-IsDraining s
