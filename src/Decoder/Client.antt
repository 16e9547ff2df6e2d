-- ===== src/Decoder/Client.antt =====
-- The calls of the thread that owns the decoder (src/video/ffmpeg/threaded_decoder.cc). While it
-- waits for the worker to end, only the worker moves.
use peli.Base.{
  ℕ, zero, suc, ◌≡◌, subst, Bool, true, false, not, ◌&&◌, Option, none, some, List, [], ◌++◌,
  Outcome, ok, diverges, ◌>>=◌, ◌>>◌, check, if◌then◌else◌, ℤ, pos, ◌-ℤ◌, ◌==ℤ◌,
}
use peli.Reader.State.{Frame, Packet}
use peli.Decoder.Queue.{BlockingQueue, Popped, waits, killed, got}
use peli.Decoder.State.{Codec, Place, idle, fetch, ended, Decoder}
use peli.Decoder.Worker.{blocked, moved, worker_step}

unfoldable pub is_idle : Place → Bool
is_idle idle = true
is_idle other = false

-- There is no thread to wait for, or it has returned.
unfoldable pub is_joinable : Place → Bool
is_joinable idle = true
is_joinable ended = true
is_joinable other = false

unfoldable pub is_null : Option Packet → Bool
is_null none = true
is_null (some packet) = false

-- What `frame_queue_->Pop` of a call of `Pop` comes to: it waits, or it returns, with a frame where
-- the queue gave one.
pub data Taken (D : Type 0) : Type 0 where
  pending : Taken D
  took : Option Frame → D → Taken D

abbrev pub AfterTaken : {D : Type 0} → (Option Frame → D → Type 0) → Taken D → Type 0
AfterTaken P pending = Unit
AfterTaken P (took result s) = P result s

pub AfterTaken-took :
    {D : Type 0} (P : Option Frame → D → Type 0) (taken : Taken D) (result : Option Frame) (s : D)
    → AfterTaken P taken
    → taken ≡ took result s
    → P result s
AfterTaken-took P pending result s h e = absurd (cc)
AfterTaken-took P (took r t) result s h e =
    let same : r ≡ result = cc in
    let same' : t ≡ s = cc in subst (λ u. P result u) same' (subst (λ f. P f t) same h)

-- What a call of `Pop` comes to.
pub data Answer (D : Type 0) : Type 0 where
  waiting : Answer D
  answered : Bool → Frame → D → Answer D
  thrown : Answer D

abbrev pub AfterAnswer : {D : Type 0} → (D → Type 0) → Answer D → Type 0
AfterAnswer P waiting = Unit
AfterAnswer P thrown = Unit
AfterAnswer P (answered found f s) = P s

pub AfterAnswer-answered :
    {D : Type 0} (P : D → Type 0) (a : Answer D) (found : Bool) (f : Frame) (s : D)
    → AfterAnswer P a
    → a ≡ answered found f s
    → P s
AfterAnswer-answered P waiting found f s h e = absurd (cc)
AfterAnswer-answered P thrown found f s h e = absurd (cc)
AfterAnswer-answered P (answered b g t) found f s h e = let same : t ≡ s = cc in subst P same h

module _ (bq : BlockingQueue) (cd : Codec) where
  -- `Start`; a thread that is not joined makes the assignment of the new one end the program.
  unfoldable pub start : Decoder bq cd → Outcome (Decoder bq cd)
  start s =
      check (not s.error_status)
      >> (if s.run
          then ok s
          else (check (is_idle s.worker)
              >> ok (record s {
                pkt_queue = bq.new_queue (Option Packet);
                frame_queue = bq.new_queue Frame;
                buffer_queue = bq.new_queue Frame;
                run = true;
                worker = fetch;
              })))

  -- `Stop` up to its `join`.
  unfoldable pub signal_stop : Decoder bq cd → Decoder bq cd
  signal_stop s =
      if s.run
      then record s {
        pkt_queue = bq.kill (Option Packet) s.pkt_queue;
        buffer_queue = bq.kill Frame s.buffer_queue;
        run = false;
        frame_queue = bq.kill Frame s.frame_queue;
      }
      else s

  -- `join`: the worker runs until it has ended.
  unfoldable pub join : ℕ → Decoder bq cd → Outcome (Decoder bq cd)
  join zero s = diverges
  join (suc fuel) s = elim (is_joinable s.worker) [
    | true ↦ ok (record s { worker = idle })
    | false ↦ elim (worker_step bq cd s) [ blocked ↦ diverges | moved t ↦ join fuel t ]
  ]

  -- `Stop`.
  unfoldable pub stop : ℕ → Decoder bq cd → Outcome (Decoder bq cd)
  stop fuel s = join fuel (signal_stop s)

  -- `Clear`.
  unfoldable pub clear : ℕ → Decoder bq cd → Outcome (Decoder bq cd)
  clear fuel s = do
    t ← stop fuel s
    ok (record t {
      codec = cd.flush_buffers t.codec;
      frame_count = pos 0;
      draining = false;
      discard_pts = [];
      error_status = false;
    })

  -- `SetCodecContext`, with the new context and its filter graph.
  unfoldable pub set_codec_context : ℕ → cd.State → Decoder bq cd → Outcome (Decoder bq cd)
  set_codec_context fuel codec s = do
    t ← clear fuel s
    let u = record t { codec = codec; has_filter = true }
    if s.run then start u else ok u

  unfoldable pub suggest_discard : List ℤ → Decoder bq cd → Decoder bq cd
  suggest_discard pts s = record s { discard_pts = pts ++ s.discard_pts }

  unfoldable pub clear_discard : Decoder bq cd → Decoder bq cd
  clear_discard s = record s { discard_pts = [] }

  -- `Push`: a null packet starts the draining.
  unfoldable pub push : Option Packet → Frame → Decoder bq cd → Outcome (Decoder bq cd)
  push packet buf s = do
    check s.run
    check (not (is_null packet && s.draining))
    ok (record s {
      draining = if is_null packet then true else s.draining;
      pkt_queue = bq.push (Option Packet) s.pkt_queue packet;
      buffer_queue = bq.push Frame s.buffer_queue buf;
    })

  -- `Pop` up to its wait: whether it goes on to the queue.
  unfoldable pub pop_begins : Decoder bq cd → Outcome Bool
  pop_begins s = do
    check (not s.error_status)
    ok (not ((s.frame_count ==ℤ pos 0) && not s.draining))

  -- What `frame_queue_->Pop` came to.
  unfoldable pub take_frame : Decoder bq cd → Popped (bq.Queue Frame) Frame → Taken (Decoder bq cd)
  take_frame s waits = pending
  take_frame s killed = took none s
  take_frame s (got f q) = took (some f) (record s { frame_queue = q })

  -- `frame_queue_->Pop`, which may have to wait.
  unfoldable pub pop_takes : Decoder bq cd → Taken (Decoder bq cd)
  pop_takes s = take_frame s (bq.pop Frame s.frame_queue)

  -- The rest of `Pop`, with what the queue gave. `*frame` is what it was where there is none.
  unfoldable pub pop_ends : Frame → Option Frame → Decoder bq cd → Answer (Decoder bq cd)
  pop_ends old none s = if s.error_status then thrown else answered false old s
  pop_ends old (some f) s =
      if s.error_status
      then thrown
      else answered f.defined f (record s { frame_count = s.frame_count -ℤ pos 1 })
