-- ===== src/Decoder/Worker.antt =====
-- `WorkerThread`, `WorkerThreadImpl` and `ProcessFrame` (src/video/ffmpeg/threaded_decoder.cc), one
-- step of the thread at a time. Between two steps the other thread may do anything. A step ends
-- where the worker has pushed a frame and not yet counted it, before each of the three stores with
-- which an error ends the thread, and where the worker may have to wait for a queue.
use peli.Base.{
  zero, suc, ◌≡◌, subst, Bool, true, false, ◌||◌, Option, none, some, List, [], ◌∷◌, Outcome, ok,
  fatal, diverges, ◌>>=◌, ◌>>◌, check, or_fatal, if◌then◌else◌, ◌==◌, length, ℤ, pos, ◌+ℤ◌, ◌==ℤ◌,
}
use peli.Reader.State.{Frame, Packet, no_frame}
use peli.Decoder.Queue.{BlockingQueue, Popped, waits, killed, got}
use peli.Decoder.Picture.{Picture, as_ndarray}
use peli.Decoder.State.{
  picture, again, finished, broken, Codec, Place, idle, fetch, deliver, drain, marking, counting,
  recording, stopping, killing, ended, Decoder, end_mark, skipped,
}

unfoldable pub mem_pts : ℤ → List ℤ → Bool
mem_pts p [] = false
mem_pts p (q ∷ qs) = (p ==ℤ q) || mem_pts p qs

-- `out_buf.CopyFrom(tmp)` where a buffer was given, and the frame itself where none was.
unfoldable pub into_buffer : Frame → Frame → Outcome Frame
into_buffer buf tmp =
    if buf.defined
    then check (buf.size == tmp.size)
      >> check (length buf.pixels == length tmp.pixels)
      >> ok (record buf { pts = tmp.pts; pixels = tmp.pixels })
    else ok tmp

pub data Turn (D : Type 0) : Type 0 where
  blocked : Turn D
  moved : D → Turn D

-- What holds of the state after a turn, if it moved.
abbrev pub AfterTurn : {D : Type 0} → (D → Type 0) → Turn D → Type 0
AfterTurn P blocked = Unit
AfterTurn P (moved s) = P s

pub AfterTurn-moved :
    {D : Type 0} (P : D → Type 0) (turn : Turn D) (t : D) → AfterTurn P turn → turn ≡ moved t → P t
AfterTurn-moved P blocked t h e = absurd (cc)
AfterTurn-moved P (moved s) t h e = let same : s ≡ t = cc in subst P same h

pub AfterTurn-if :
    {D : Type 0} (P : D → Type 0) (b : Bool) (x y : Turn D)
    → AfterTurn P x
    → AfterTurn P y
    → AfterTurn P (if b then x else y)
AfterTurn-if P true x y h k = h
AfterTurn-if P false x y h k = k

module _ (bq : BlockingQueue) (cd : Codec) where
  -- `ProcessFrame` up to its push: the frame to push.
  unfoldable pub process_frame : List ℤ → cd.State → Picture → Frame → Outcome (Frame × cd.State)
  process_frame discard codec p buf =
      if mem_pts p.pts discard then ok (skipped p.pts, codec) else do
        filtered ← or_fatal ((cd.filter codec p).0)
        image ← as_ndarray filtered
        frame ← into_buffer buf image.frame
        ok (frame, (cd.filter codec p).1)

  -- An exception takes the worker to the handler of `WorkerThread`.
  unfoldable pub fail : Decoder bq cd → Decoder bq cd
  fail s = record s { worker = recording }

  -- `RecordInternalError`.
  unfoldable pub record_error : Decoder bq cd → Decoder bq cd
  record_error s = record s { error_status = true; worker = stopping }

  -- `run_.store(false)` of the handler.
  unfoldable pub end_run : Decoder bq cd → Decoder bq cd
  end_run s = record s { run = false; worker = killing }

  -- `frame_queue_->SignalForKill()` of the handler, and the thread returns.
  unfoldable pub kill_frames : Decoder bq cd → Decoder bq cd
  kill_frames s = record s { frame_queue = bq.kill Frame s.frame_queue; worker = ended }

  -- A frame goes to the queue.
  unfoldable pub queue_frame : Decoder bq cd → Frame → Place → Decoder bq cd
  queue_frame s f after = record s {
    frame_queue = bq.push Frame s.frame_queue f;
    worker = counting after;
  }

  -- What the worker does with a packet that it took.
  unfoldable pub decode_packet : Decoder bq cd → Option Packet → Decoder bq cd
  decode_packet s none =
      let (sent, codec) = cd.send_packet s.codec none in
      if sent then record s { codec = codec; worker = drain } else fail (record s { codec = codec })
  decode_packet s (some packet) =
      let (sent, codec) = cd.send_packet s.codec (some packet) in
      let (r, p, codec') = cd.receive_frame codec in
      let t : Decoder bq cd = record s { codec = codec' } in
      if sent
      then elim r [
        | picture ↦ record t { worker = deliver p false }
        | again ↦ queue_frame t no_frame fetch
        | finished ↦ queue_frame t no_frame fetch
        | broken ↦ fail t
      ]
      else fail (record s { codec = codec })

  -- What `pkt_queue_->Pop` came to.
  unfoldable pub take_packet :
      Decoder bq cd → Popped (bq.Queue (Option Packet)) (Option Packet) → Turn (Decoder bq cd)
  take_packet s waits = blocked
  take_packet s killed = moved (record s { worker = ended })
  take_packet s (got packet q) = moved (decode_packet (record s { pkt_queue = q }) packet)

  -- The head of the loop.
  unfoldable pub fetch_step : Decoder bq cd → Turn (Decoder bq cd)
  fetch_step s =
      if s.run
      then if s.has_filter
        then take_packet s (bq.pop (Option Packet) s.pkt_queue)
        else moved (record s { worker = ended })
      else moved (record s { worker = ended })

  -- A picture waits for its buffer.
  unfoldable pub deliver_step : Decoder bq cd → Picture → Bool → Turn (Decoder bq cd)
  deliver_step s p in_drain = elim (bq.pop Frame s.buffer_queue) [
    | waits ↦ blocked
    | killed ↦ moved (record s { worker = ended })
    | got buf q ↦ moved (elim (process_frame s.discard_pts s.codec p buf) [
      | ok (f, codec) ↦
          queue_frame (record s { buffer_queue = q; codec = codec }) f
            (if in_drain then drain else fetch)
      | fatal ↦ fail (record s { buffer_queue = q })
      | diverges ↦ fail (record s { buffer_queue = q })
    ])
  ]

  -- A round of the draining loop: any return but the end's goes on to the buffer.
  unfoldable pub drain_step : Decoder bq cd → Decoder bq cd
  drain_step s =
      let (r, p, codec) = cd.receive_frame s.codec in
      elim r [
        | finished ↦ record s { codec = codec; worker = marking 128 }
        | picture ↦ record s { codec = codec; worker = deliver p true }
        | again ↦ record s { codec = codec; worker = deliver p true }
        | broken ↦ record s { codec = codec; worker = deliver p true }
      ]

  -- The step of the worker at a place.
  unfoldable pub step_at : Place → Decoder bq cd → Turn (Decoder bq cd)
  step_at idle s = blocked
  step_at fetch s = fetch_step s
  step_at (deliver p in_drain) s = deliver_step s p in_drain
  step_at drain s = moved (drain_step s)
  step_at (marking zero) s = moved (record s { draining = false; worker = fetch })
  step_at (marking (suc n)) s = moved (queue_frame s end_mark (marking n))
  step_at (counting after) s =
      moved (record s { frame_count = s.frame_count +ℤ pos 1; worker = after })
  step_at recording s = moved (record_error s)
  step_at stopping s = moved (end_run s)
  step_at killing s = moved (kill_frames s)
  step_at ended s = blocked

  unfoldable pub worker_step : Decoder bq cd → Turn (Decoder bq cd)
  worker_step s = step_at s.worker s
