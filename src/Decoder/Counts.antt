-- ===== src/Decoder/Counts.antt =====
-- Every step of the worker keeps the invariant.
use peli.Base.{
  ℕ, zero, suc, ◌≡◌, inl, inr, refl, sym, ap, ◌∙◌, subst, Bool, true, false, Bool-cases, Option,
  none, some, Outcome, ok, fatal, diverges, pos, ◌+ℤ◌, if◌then◌else◌,
}
use peli.Reader.State.{Frame, Packet, no_frame}
use peli.Decoder.Queue.{BlockingQueue, Popped, Popped-cases, waits, killed, got}
use peli.Decoder.Picture.{Picture}
use peli.Decoder.State.{
  picture, again, finished, broken, Codec, Place, idle, fetch, deliver, drain, marking, counting,
  recording, stopping, killing, ended, Decoder, end_mark,
}
use peli.Decoder.Worker.{
  blocked, AfterTurn, AfterTurn-if, process_frame, fail, queue_frame, decode_packet, take_packet,
  fetch_step, deliver_step, drain_step, step_at, worker_step, moved, record_error, end_run,
  kill_frames,
}
use peli.Decoder.Steps.{owed, is_stopping, IsProper, IsRunning, IsAtRest, Inv}
use peli.Decoder.Live.{Live, Live-Inv, Inv-Live, moved-Inv, fail-Inv, queue_frame-Inv, with_codec}

-- `Pop` holds `h` frames that it has taken and not yet counted.
module _ (bq : BlockingQueue) (cd : Codec) (h : ℕ) where
  decode_packet-Inv :
      (s : Decoder bq cd) (packet : Option Packet)
      → Live bq cd h s
      → Inv bq cd h (decode_packet bq cd s packet)
  unfolding decode_packet
  decode_packet-Inv s none l = elim (Bool-cases (cd.send_packet s.codec none).0) [
    | inl e ↦ rw (e, decode_packet) (moved-Inv bq cd h s _ drain l tt)
    | inr e ↦ rw (e, decode_packet) (fail-Inv bq cd h _ (with_codec bq cd h s _ l))
  ]
  decode_packet-Inv s (some packet) l =
      let codec = (cd.send_packet s.codec (some packet)).1 in
      let codec' = (cd.receive_frame codec).2 in
      elim (Bool-cases (cd.send_packet s.codec (some packet)).0) [
        | inr e ↦ rw (e, decode_packet) (fail-Inv bq cd h _ (with_codec bq cd h s _ l))
        | inl e ↦
            rw (e, decode_packet)
              (elim ((cd.receive_frame codec).0)
                as (λ r. Inv bq cd h (elim r [
                  | picture ↦ record s {
                    codec = codec';
                    worker = deliver ((cd.receive_frame codec).1) false;
                  }
                  | again ↦ queue_frame bq cd (record s { codec = codec' }) no_frame fetch
                  | finished ↦ queue_frame bq cd (record s { codec = codec' }) no_frame fetch
                  | broken ↦ fail bq cd (record s { codec = codec' })
                ])) [
                  | picture ↦
                      moved-Inv bq cd h s codec' (deliver ((cd.receive_frame codec).1) false) l tt
                  | again ↦
                      queue_frame-Inv bq cd h _ no_frame fetch (with_codec bq cd h s codec' l) tt
                  | finished ↦
                      queue_frame-Inv bq cd h _ no_frame fetch (with_codec bq cd h s codec' l) tt
                  | broken ↦ fail-Inv bq cd h _ (with_codec bq cd h s codec' l)
                ])
      ]

  -- A thread that returns while the decoder runs.
  ended-Inv : (s : Decoder bq cd) → Live bq cd h s → Inv bq cd h (record s { worker = ended })
  ended-Inv s l = moved-Inv bq cd h s s.codec ended l tt

  take_packet-Inv :
      (s : Decoder bq cd) (popped : Popped (bq.Queue (Option Packet)) (Option Packet))
      → bq.pop (Option Packet) s.pkt_queue ≡ popped
      → Live bq cd h s
      → AfterTurn (Inv bq cd h) (take_packet bq cd s popped)
  unfolding take_packet
  take_packet-Inv s waits e l = tt
  take_packet-Inv s killed e l = ended-Inv s l
  take_packet-Inv s (got packet q) e l =
      decode_packet-Inv (record s { pkt_queue = q }) packet
        (record {
          on = l.on;
          sound = l.sound;
          counted = l.counted;
          is_open = (
            (bq.pop-got (Option Packet) s.pkt_queue packet q e).1 ∙ l.is_open.0,
            l.is_open.1,
            l.is_open.2,
          );
        })

  fetch_step-Inv :
      (s : Decoder bq cd) → Live bq cd h s → AfterTurn (Inv bq cd h) (fetch_step bq cd s)
  unfolding fetch_step
  fetch_step-Inv s l =
      AfterTurn-if (Inv bq cd h) s.run _ _
        (AfterTurn-if (Inv bq cd h) s.has_filter _ _ (take_packet-Inv s _ refl l) (ended-Inv s l))
        (ended-Inv s l)

  -- What follows `ProcessFrame`.
  processed-Inv :
      (s : Decoder bq cd) (o : Outcome (Frame × cd.State)) (in_drain : Bool)
      → Live bq cd h s
      → Inv bq cd h (elim o [
        | ok (f, codec) ↦
            queue_frame bq cd (record s { codec = codec }) f (if in_drain then drain else fetch)
        | fatal ↦ fail bq cd s
        | diverges ↦ fail bq cd s
      ])
  processed-Inv s (ok (f, codec)) true l =
      queue_frame-Inv bq cd h _ f drain (with_codec bq cd h s codec l) tt
  processed-Inv s (ok (f, codec)) false l =
      queue_frame-Inv bq cd h _ f fetch (with_codec bq cd h s codec l) tt
  processed-Inv s fatal in_drain l = fail-Inv bq cd h s l
  processed-Inv s diverges in_drain l = fail-Inv bq cd h s l

  deliver_step-Inv :
      (s : Decoder bq cd) (p : Picture) (in_drain : Bool)
      → Live bq cd h s
      → AfterTurn (Inv bq cd h) (deliver_step bq cd s p in_drain)
  unfolding deliver_step
  deliver_step-Inv s p in_drain l = elim (Popped-cases (bq.pop Frame s.buffer_queue)) [
    | inl e ↦ rw (e, deliver_step) tt
    | inr (inl e) ↦ rw (e, deliver_step) (ended-Inv s l)
    | inr (inr (buf, q, e)) ↦
        rw (e, deliver_step)
          (processed-Inv (record s { buffer_queue = q })
            (process_frame bq cd s.discard_pts s.codec p buf) in_drain
            (record {
              on = l.on;
              sound = l.sound;
              counted = l.counted;
              is_open = (
                l.is_open.0,
                (bq.pop-got Frame s.buffer_queue buf q e).1 ∙ l.is_open.1,
                l.is_open.2,
              );
            }))
  ]

  drain_step-Inv : (s : Decoder bq cd) → Live bq cd h s → Inv bq cd h (drain_step bq cd s)
  unfolding drain_step
  drain_step-Inv s l =
      let codec = (cd.receive_frame s.codec).2 in
      let p = (cd.receive_frame s.codec).1 in
      elim ((cd.receive_frame s.codec).0)
        as (λ r. Inv bq cd h (elim r [
          | finished ↦ record s { codec = codec; worker = marking 128 }
          | picture ↦ record s { codec = codec; worker = deliver p true }
          | again ↦ record s { codec = codec; worker = deliver p true }
          | broken ↦ record s { codec = codec; worker = deliver p true }
        ])) [
          | finished ↦ moved-Inv bq cd h s codec (marking 128) l tt
          | picture ↦ moved-Inv bq cd h s codec (deliver p true) l tt
          | again ↦ moved-Inv bq cd h s codec (deliver p true) l tt
          | broken ↦ moved-Inv bq cd h s codec (deliver p true) l tt
        ]

  -- The frame that was pushed is counted.
  counting-Inv :
      (s : Decoder bq cd) (after : Place)
      → s.worker ≡ counting after
      → Inv bq cd h s
      → s.run ≡ true
      → Inv bq cd h (record s { frame_count = s.frame_count +ℤ pos 1; worker = after })
  counting-Inv s after at i on =
      let (_, error, counted, is_open) = i.running on in
      let sound : s.error_status ≡ false = error ∙ ap is_stopping at in
      Live-Inv bq cd h _
        (record {
          on = on;
          sound = sound;
          counted = ap (λ (p : Place). s.frame_count +ℤ pos (owed p)) (sym at) ∙ counted sound;
          is_open = is_open;
        })
        (subst IsProper at i.proper)

  record_error-Inv : (s : Decoder bq cd) → Live bq cd h s → Inv bq cd h (record_error bq cd s)
  unfolding record_error
  record_error-Inv s l = record {
    proper = tt;
    running = λ _. (tt, refl, λ sound. absurd (cc), l.is_open);
    stopped = λ off. absurd (let clash : true ≡ false = sym l.on ∙ off in cc);
  }

  end_run-Inv : (s : Decoder bq cd) → s.error_status ≡ true → Inv bq cd h (end_run bq cd s)
  unfolding end_run
  end_run-Inv s error = record {
    proper = tt;
    running = λ on. absurd (cc);
    stopped = λ _.
        (inr (refl, error), λ sound. absurd (let clash : true ≡ false = sym error ∙ sound in cc));
  }

  kill_frames-Inv :
      (s : Decoder bq cd)
      → s.run ≡ false
      → s.error_status ≡ true
      → Inv bq cd h (kill_frames bq cd s)
  unfolding kill_frames
  kill_frames-Inv s off error = record {
    proper = tt;
    running = λ on. absurd (let clash : true ≡ false = sym on ∙ off in cc);
    stopped = λ _. (
      inl (tt, inl (bq.is_killed-kill Frame s.frame_queue)),
      λ sound. absurd (let clash : true ≡ false = sym error ∙ sound in cc),
    );
  }

  -- Every step of the worker of a running decoder.
  step_at-Inv :
      (p : Place) (s : Decoder bq cd)
      → s.worker ≡ p
      → Inv bq cd h s
      → s.run ≡ true
      → AfterTurn (Inv bq cd h) (step_at bq cd p s)
  unfolding step_at
  step_at-Inv idle s at i on = tt
  step_at-Inv ended s at i on = tt
  step_at-Inv fetch s at i on = fetch_step-Inv s (Inv-Live bq cd h s fetch at tt i on)
  step_at-Inv (deliver p d) s at i on =
      deliver_step-Inv s p d (Inv-Live bq cd h s (deliver p d) at tt i on)
  step_at-Inv drain s at i on = drain_step-Inv s (Inv-Live bq cd h s drain at tt i on)
  step_at-Inv (marking zero) s at i on =
      let l = Inv-Live bq cd h s (marking zero) at tt i on in
      Live-Inv bq cd h _
        (record { on = l.on; sound = l.sound; counted = l.counted; is_open = l.is_open }) tt
  step_at-Inv (marking (suc n)) s at i on =
      queue_frame-Inv bq cd h s end_mark (marking n)
        (Inv-Live bq cd h s (marking (suc n)) at tt i on) tt
  step_at-Inv (counting after) s at i on = counting-Inv s after at i on
  step_at-Inv recording s at i on = record_error-Inv s (Inv-Live bq cd h s recording at tt i on)
  step_at-Inv stopping s at i on = end_run-Inv s ((i.running on).1 ∙ ap is_stopping at)
  step_at-Inv killing s at i on = absurd (subst IsRunning at (i.running on).0)

  -- A worker at rest does not move.
  at_rest : (p : Place) (s : Decoder bq cd) → IsAtRest p → step_at bq cd p s ≡ blocked
  unfolding step_at
  at_rest idle s h = refl
  at_rest ended s h = refl
  at_rest fetch s h = absurd h
  at_rest drain s h = absurd h
  at_rest (deliver p d) s h = absurd h
  at_rest (marking n) s h = absurd h
  at_rest (counting after) s h = absurd h
  at_rest recording s h = absurd h
  at_rest stopping s h = absurd h
  at_rest killing s h = absurd h

  -- The last step of a worker that has ended the run.
  last_step :
      (p : Place) (s : Decoder bq cd)
      → p ≡ killing
      → step_at bq cd p s ≡ moved (kill_frames bq cd s)
  unfolding step_at
  last_step p s at = rw (at, step_at) refl

  pub worker_step-Inv :
      (s : Decoder bq cd) → Inv bq cd h s → AfterTurn (Inv bq cd h) (worker_step bq cd s)
  unfolding worker_step
  worker_step-Inv s i = elim (Bool-cases s.run) [
    | inl on ↦ step_at-Inv s.worker s refl i on
    | inr off ↦ elim (i.stopped off).0 [
      | inl (rest, _) ↦ rw (at_rest s.worker s rest, worker_step) tt
      | inr (at, error) ↦
          subst (AfterTurn (Inv bq cd h)) (sym (last_step s.worker s at))
            (kill_frames-Inv s off error)
    ]
  ]
