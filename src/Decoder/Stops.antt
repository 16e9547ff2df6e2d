-- ===== src/Decoder/Stops.antt =====
-- `Stop` ends: once the queues are killed the worker returns within a bounded number of steps,
-- wherever it stands.
use peli.Base.{
  ℕ, zero, suc, ◌+◌, ◌*◌, ◌≡◌, ◌<◌, ◌⊎◌, inl, inr, refl, ◌∙◌, Bool, true, false, ok, arith, pos,
  ◌+ℤ◌, IfOk,
}
use peli.Reader.State.{Frame}
use peli.Decoder.Queue.{BlockingQueue}
use peli.Decoder.Picture.{Picture}
use peli.Decoder.State.{
  picture, again, finished, broken, Codec, Place, idle, fetch, deliver, drain, marking, counting,
  recording, stopping, killing, ended, Decoder, end_mark,
}
use peli.Decoder.Worker.{
  Turn, moved, record_error, end_run, kill_frames, queue_frame, fetch_step, deliver_step,
  drain_step, step_at, worker_step,
}
use peli.Decoder.Client.{is_joinable, signal_stop, join}

-- The steps that a worker at a place still makes, once all is killed.
unfoldable pub weight : Place → ℕ
weight idle = 0
weight ended = 0
weight fetch = 1
weight (deliver p in_drain) = 1
weight drain = 260
weight (marking n) = 2 * n + 2
weight (counting after) = suc (weight after)
weight recording = 3
weight stopping = 2
weight killing = 1

module _ (bq : BlockingQueue) (cd : Codec) where
  pub record Halted (s : Decoder bq cd) : Type 0 where
    pub off : s.run ≡ false
    pub no_buffers : bq.is_killed Frame s.buffer_queue ≡ true
    pub no_frames : bq.is_killed Frame s.frame_queue ≡ true

  -- At rest, or a step nearer to it.
  abbrev Nearer : Place → Turn (Decoder bq cd) → Type 0
  Nearer p turn = (t : Decoder bq cd) × (turn ≡ moved t) × Halted t × (weight t.worker < weight p)

  drain_step-weight : (s : Decoder bq cd) → weight (drain_step bq cd s).worker < 260
  unfolding drain_step weight
  drain_step-weight s =
      let codec = (cd.receive_frame s.codec).2 in
      let p = (cd.receive_frame s.codec).1 in
      elim ((cd.receive_frame s.codec).0)
        as (λ r.
          weight (
            let t : Decoder bq cd = elim r [
              | finished ↦ record s { codec = codec; worker = marking 128 }
              | picture ↦ record s { codec = codec; worker = deliver p true }
              | again ↦ record s { codec = codec; worker = deliver p true }
              | broken ↦ record s { codec = codec; worker = deliver p true }
            ] in
            t.worker)
          < 260) [
            | finished ↦ omega arith
            | picture ↦ omega arith
            | again ↦ omega arith
            | broken ↦ omega arith
          ]

  drain_step-Halted : (s : Decoder bq cd) → Halted s → Halted (drain_step bq cd s)
  unfolding drain_step
  drain_step-Halted s h =
      let codec = (cd.receive_frame s.codec).2 in
      let p = (cd.receive_frame s.codec).1 in
      elim ((cd.receive_frame s.codec).0)
        as (λ r. Halted (elim r [
          | finished ↦ record s { codec = codec; worker = marking 128 }
          | picture ↦ record s { codec = codec; worker = deliver p true }
          | again ↦ record s { codec = codec; worker = deliver p true }
          | broken ↦ record s { codec = codec; worker = deliver p true }
        ])) [
          | finished ↦ record { off = h.off; no_buffers = h.no_buffers; no_frames = h.no_frames }
          | picture ↦ record { off = h.off; no_buffers = h.no_buffers; no_frames = h.no_frames }
          | again ↦ record { off = h.off; no_buffers = h.no_buffers; no_frames = h.no_frames }
          | broken ↦ record { off = h.off; no_buffers = h.no_buffers; no_frames = h.no_frames }
        ]

  placed : (s : Decoder bq cd) (p : Place) → Halted s → Halted (record s { worker = p })
  placed s p h = record { off = h.off; no_buffers = h.no_buffers; no_frames = h.no_frames }

  fetch_off :
      (s : Decoder bq cd) → Halted s → fetch_step bq cd s ≡ moved (record s { worker = ended })
  unfolding fetch_step
  fetch_off s h = ground (arith, h.off)

  deliver_off :
      (s : Decoder bq cd) (p : Picture) (d : Bool)
      → Halted s
      → deliver_step bq cd s p d ≡ moved (record s { worker = ended })
  unfolding deliver_step
  deliver_off s p d h = rw (bq.pop-killed Frame s.buffer_queue h.no_buffers, deliver_step) refl

  queue_frame-Halted :
      (s : Decoder bq cd) (f : Frame) (after : Place)
      → Halted s
      → Halted (queue_frame bq cd s f after)
  unfolding queue_frame
  queue_frame-Halted s f after h = record {
    off = h.off;
    no_buffers = h.no_buffers;
    no_frames = bq.is_killed-push Frame s.frame_queue f ∙ h.no_frames;
  }

  queue_frame-weight :
      (s : Decoder bq cd) (f : Frame) (after : Place)
      → weight (queue_frame bq cd s f after).worker ≡ suc (weight after)
  unfolding queue_frame weight
  queue_frame-weight s f after = refl

  record_error-Halted : (s : Decoder bq cd) → Halted s → Halted (record_error bq cd s)
  unfolding record_error
  record_error-Halted s h = record {
    off = h.off;
    no_buffers = h.no_buffers;
    no_frames = h.no_frames;
  }

  end_run-Halted : (s : Decoder bq cd) → Halted s → Halted (end_run bq cd s)
  unfolding end_run
  end_run-Halted s h = record { off = refl; no_buffers = h.no_buffers; no_frames = h.no_frames }

  kill_frames-Halted : (s : Decoder bq cd) → Halted s → Halted (kill_frames bq cd s)
  unfolding kill_frames
  kill_frames-Halted s h = record {
    off = h.off;
    no_buffers = h.no_buffers;
    no_frames = bq.is_killed-kill Frame s.frame_queue;
  }

  handler-weight :
      (s : Decoder bq cd)
      → (weight (record_error bq cd s).worker ≡ 2)
        × (weight (end_run bq cd s).worker ≡ 1)
        × (weight (kill_frames bq cd s).worker ≡ 0)
  unfolding record_error end_run kill_frames weight
  handler-weight s = (refl, refl, refl)

  step_at-Nearer :
      (p : Place) (s : Decoder bq cd)
      → Halted s
      → (is_joinable p ≡ true) ⊎ ((is_joinable p ≡ false) × Nearer p (step_at bq cd p s))
  unfolding step_at weight is_joinable
  step_at-Nearer idle s h = inl refl
  step_at-Nearer ended s h = inl refl
  step_at-Nearer fetch s h =
      inr (refl, (record s { worker = ended }, fetch_off s h, placed s ended h, omega arith))
  step_at-Nearer (deliver p d) s h =
      inr (refl, (record s { worker = ended }, deliver_off s p d h, placed s ended h, omega arith))
  step_at-Nearer drain s h =
      inr (refl, (drain_step bq cd s, refl, drain_step-Halted s h, drain_step-weight s))
  step_at-Nearer (marking zero) s h = inr (
    refl,
    (
      record s { draining = false; worker = fetch },
      refl,
      record { off = h.off; no_buffers = h.no_buffers; no_frames = h.no_frames },
      omega arith,
    ),
  )
  step_at-Nearer (marking (suc n)) s h = inr (
    refl,
    (
      queue_frame bq cd s end_mark (marking n),
      refl,
      queue_frame-Halted s end_mark (marking n) h,
      omega (arith, queue_frame-weight s end_mark (marking n)),
    ),
  )
  step_at-Nearer (counting after) s h = inr (
    refl,
    (
      record s { frame_count = s.frame_count +ℤ pos 1; worker = after },
      refl,
      record { off = h.off; no_buffers = h.no_buffers; no_frames = h.no_frames },
      omega arith,
    ),
  )
  step_at-Nearer recording s h =
      inr (
        refl,
        (record_error bq cd s, refl, record_error-Halted s h, omega (arith, handler-weight s)),
      )
  step_at-Nearer stopping s h =
      inr (refl, (end_run bq cd s, refl, end_run-Halted s h, omega (arith, handler-weight s)))
  step_at-Nearer killing s h =
      inr
        (refl, (kill_frames bq cd s, refl, kill_frames-Halted s h, omega (arith, handler-weight s)))

  pub join-ends :
      (fuel : ℕ) (s : Decoder bq cd)
      → Halted s
      → weight s.worker < fuel
      → (t : Decoder bq cd) × (join bq cd fuel s ≡ ok t)
  unfolding join worker_step
  join-ends zero s h less = absurd (omega arith)
  join-ends (suc fuel) s h less = elim (step_at-Nearer s.worker s h) [
    | inl rest ↦ (record s { worker = idle }, rw (rest, join) refl)
    | inr (busy, (u, e, h', nearer)) ↦
        let (t, ends) = join-ends fuel u h' (omega arith) in (t, rw (busy, e, join) ends)
  ]

  abbrev pub Joined : Decoder bq cd → Type 0
  Joined t = Halted t × (t.worker ≡ idle)

  pub join-Joined : (fuel : ℕ) (s : Decoder bq cd) → Halted s → IfOk Joined (join bq cd fuel s)
  unfolding join worker_step
  join-Joined zero s h = tt
  join-Joined (suc fuel) s h = elim (step_at-Nearer s.worker s h) [
    | inl rest ↦ rw (rest, join) (placed s idle h, refl)
    | inr (busy, (u, e, h', nearer)) ↦ rw (busy, e, join) (join-Joined fuel u h')
  ]

  -- What `Stop` kills.
  pub signal_stop-Halted : (s : Decoder bq cd) → s.run ≡ true → Halted (signal_stop bq cd s)
  unfolding signal_stop
  signal_stop-Halted s on =
      ground (arith, bq.is_killed-kill Frame s.buffer_queue, bq.is_killed-kill Frame s.frame_queue)

  pub signal_stop-off : (s : Decoder bq cd) → s.run ≡ false → signal_stop bq cd s ≡ s
  unfolding signal_stop
  signal_stop-off s off = ground arith

  pub signal_stop-worker : (s : Decoder bq cd) → (signal_stop bq cd s).worker ≡ s.worker
  unfolding signal_stop
  signal_stop-worker s = ground arith
