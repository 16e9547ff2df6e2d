-- ===== src/Nvdec/Decoder.antt =====
-- `CUThreadedDecoder` (src/video/nvcodec/cuda_threaded_decoder.cc): one thread that filters and
-- parses packets; the parser's callbacks run on it too.
use peli.Base.{
  ℕ, zero, suc, Bool, true, false, not, ◌&&◌, Option, none, some, List, [], ◌∷◌, Outcome, ok, fatal,
  diverges, ◌>>=◌, ◌>>◌, check, if◌then◌else◌, ◌==◌, ltb, length, ℤ, pos, ◌+ℤ◌, ◌-ℤ◌, ◌==ℤ◌,
}
use peli.Reader.State.{Frame, Packet}
use peli.Decoder.Queue.{BlockingQueue, Popped, waits, killed, got}
use peli.Decoder.Worker.{Turn, blocked, moved, mem_pts}
use peli.Decoder.Client.{Answer, waiting, answered, thrown}
use peli.Nvdec.Format.{Format, Driver, Hardware, initialize}

-- An `AVPacket` with its `size`.
pub record Payload : Type 0 where
  pub size : ℕ
  pub packet : Packet

-- `CUVIDSOURCEDATAPACKET`: a filtered packet, or the end of the stream.
pub data Source : Type 0 where
  chunk : Payload → Source
  end_of_stream : Source

-- `CUVIDPARSERDISPINFO`.
pub record Display : Type 0 where
  pub timestamp : ℤ
  pub progressive : Bool
  pub picture_index : ℕ

-- What the parser calls back.
pub data Callback : Type 0 where
  sequence : Format → Callback
  decode : ℕ → Callback
  display : Display → Callback

-- `parse` is `cuvidParseVideoData`: the callbacks that it makes and whether it succeeds. `render`
-- maps a decoded picture and converts it into a buffer; `none` where a call of it fails.
pub record Nv : Type 1 where
  pub driver : Driver
  pub send_filter : driver.State → Payload → Bool × driver.State
  pub receive_filter : driver.State → Option (Payload × driver.State)
  pub parse : driver.State → Source → List Callback × Bool × driver.State
  pub decode_picture : driver.State → ℕ → Bool × driver.State
  pub render : driver.State → Display → Frame → Option (Frame × driver.State)
  pub new_parser : driver.State → Option driver.State
  pub flush_buffers : driver.State → driver.State

-- Where the thread stands: `filter` is the loop over the filtered packets, and `callbacks cs b after`
-- has the callbacks `cs` of a call of the parser to do, which then returns `b`. In the handler of an
-- error the thread is about to set the error status at `recording`, to clear `run_` at `stopping`,
-- and to kill the frame queue at `killing`.
pub data Place : Type 0 where
  idle : Place
  fetch : Place
  filter : Place
  callbacks : List Callback → Bool → Place → Place
  recording : Place
  stopping : Place
  killing : Place
  ended : Place

pub record CuDecoder (bq : BlockingQueue) (nv : Nv) : Type 0 where
  pub pkt_queue : bq.Queue (Option Payload)
  pub frame_queue : bq.Queue Frame
  pub reorder_queue : bq.Queue Frame
  pub run : Bool
  pub frame_count : ℤ
  pub draining : Bool
  pub discard_pts : List ℤ
  pub error_status : Bool
  pub hardware : Hardware
  pub gpu : nv.driver.State
  pub worker : Place

-- `kMaxOutputSurfaces`.
abbrev pub max_output_surfaces : ℕ
max_output_surfaces = 20

module _ (bq : BlockingQueue) (nv : Nv) where
  abbrev pub D : Type 0
  D = CuDecoder bq nv

  -- An exception takes the thread to a handler of `LaunchThread`.
  unfoldable pub fail : D → D
  fail s = record s { worker = recording }

  -- `RecordInternalError`.
  unfoldable pub record_error : D → D
  record_error s = record s { error_status = true; worker = stopping }

  -- `run_.store(false)` of the handler.
  unfoldable pub end_run : D → D
  end_run s = record s { run = false; worker = killing }

  -- `frame_queue_->SignalForKill()` of the handler, and the thread returns.
  unfoldable pub kill_frames : D → D
  kill_frames s = record s { frame_queue = bq.kill Frame s.frame_queue; worker = ended }

  unfoldable pub feed : D → Source → Place → D
  feed s source after =
      let (cs, done, gpu) = nv.parse s.gpu source in
      record s { gpu = gpu; worker = callbacks cs done after }

  -- What the thread does with a packet that it took.
  unfoldable pub take_packet : D → Option Payload → D
  take_packet s none = feed s end_of_stream fetch
  take_packet s (some p) =
      let (sent, gpu) = nv.send_filter s.gpu p in
      if p.size == 0
      then feed s end_of_stream fetch
      else if sent
      then record s { gpu = gpu; worker = filter }
      else fail (record s { gpu = gpu })

  unfoldable pub popped_packet : D → Popped (bq.Queue (Option Payload)) (Option Payload) → Turn D
  popped_packet s waits = blocked
  popped_packet s killed = moved (record s { worker = ended })
  popped_packet s (got p q) = moved (take_packet (record s { pkt_queue = q }) p)

  -- The loop over what the filter hands out.
  unfoldable pub filter_step : D → Option (Payload × nv.driver.State) → D
  filter_step s none = record s { worker = fetch }
  filter_step s (some (p, gpu)) = feed (record s { gpu = gpu }) (chunk p) filter

  -- `HandlePictureSequence_`.
  unfoldable pub handle_sequence : D → Outcome (ℕ × Hardware × nv.driver.State) → Place → D
  handle_sequence s (ok (r, hardware, gpu)) after = record s {
    hardware = hardware;
    gpu = gpu;
    worker = after;
  }
  handle_sequence s fatal after = fail s
  handle_sequence s diverges after = fail s

  -- `HandlePictureDecode_`.
  unfoldable pub handle_decode : D → ℕ → Place → D
  handle_decode s n after =
      let (launched, gpu) = nv.decode_picture s.gpu n in
      if s.run
      then if s.hardware.initialized
        then if launched
          then record s { gpu = gpu; worker = after }
          else fail (record s { gpu = gpu })
        else fail s
      else record s { worker = after }

  -- The picture goes to its buffer.
  unfoldable pub rendered : D → Option (Frame × nv.driver.State) → Place → D
  rendered s none after = fail s
  rendered s (some (f, gpu)) after = record s {
    reorder_queue = bq.push Frame s.reorder_queue f;
    gpu = gpu;
    worker = after;
  }

  -- `HandlePictureDisplay_` with a buffer.
  unfoldable pub show : D → Display → Frame → Place → D
  show s d buf after =
      let arr : Frame = record buf { pts = d.timestamp } in
      if buf.defined
      then if mem_pts d.timestamp s.discard_pts
        then record s { reorder_queue = bq.push Frame s.reorder_queue arr; worker = after }
        else if d.progressive
        then rendered s (nv.render s.gpu d arr) after
        else fail s
      else record s { worker = after }

  unfoldable pub popped_buffer : D → Display → Place → Popped (bq.Queue Frame) Frame → Turn D
  popped_buffer s d after waits = blocked
  popped_buffer s d after killed = moved (record s { worker = after })
  popped_buffer s d after (got buf q) = moved (show (record s { frame_queue = q }) d buf after)

  -- A callback. What it returns to the parser is left out: whether the parser's call succeeds is the
  -- interface's.
  unfoldable pub handle : D → Callback → Place → Turn D
  handle s (sequence f) after =
      moved (handle_sequence s (initialize nv.driver f s.hardware s.gpu) after)
  handle s (decode n) after = moved (handle_decode s n after)
  handle s (display d) after =
      if s.run
      then popped_buffer s d after (bq.pop Frame s.frame_queue)
      else moved (record s { worker = after })

  -- A step of `LaunchThreadImpl`.
  unfoldable pub step_at : Place → D → Turn D
  step_at idle s = blocked
  step_at ended s = blocked
  step_at recording s = moved (record_error s)
  step_at stopping s = moved (end_run s)
  step_at killing s = moved (kill_frames s)
  step_at fetch s =
      if s.run
      then popped_packet s (bq.pop (Option Payload) s.pkt_queue)
      else moved (record s { worker = ended })
  step_at filter s = moved (filter_step s (nv.receive_filter s.gpu))
  step_at (callbacks [] done after) s = moved (if done then record s { worker = after } else fail s)
  step_at (callbacks (c ∷ cs) done after) s = handle s c (callbacks cs done after)

  unfoldable pub launch_step : D → Turn D
  launch_step s = step_at s.worker s

  unfoldable pub is_joinable : Place → Bool
  is_joinable idle = true
  is_joinable ended = true
  is_joinable other = false

  -- A parser for `Start`, where one can be made.
  unfoldable pub started : D → Option nv.driver.State → Outcome D
  started s none = fatal
  started s (some gpu) = ok (record s {
    pkt_queue = bq.new_queue (Option Payload);
    frame_queue = bq.new_queue Frame;
    reorder_queue = bq.new_queue Frame;
    gpu = gpu;
    run = true;
    worker = fetch;
  })

  -- `Start`.
  unfoldable pub start : D → Outcome D
  start s =
      check (not s.error_status)
      >> (if s.run then ok s else started s (nv.new_parser (nv.flush_buffers s.gpu)))

  unfoldable pub signal_stop : D → D
  signal_stop s =
      if s.run
      then record s {
        pkt_queue = bq.kill (Option Payload) s.pkt_queue;
        run = false;
        frame_queue = bq.kill Frame s.frame_queue;
        reorder_queue = bq.kill Frame s.reorder_queue;
      }
      else s

  unfoldable pub join : ℕ → D → Outcome D
  join zero s = diverges
  join (suc fuel) s = elim (is_joinable s.worker) [
    | true ↦ ok (record s { worker = idle })
    | false ↦ elim (launch_step s) [ blocked ↦ diverges | moved t ↦ join fuel t ]
  ]

  -- `Clear`.
  unfoldable pub clear : ℕ → D → Outcome D
  clear fuel s = do
    t ← join fuel (signal_stop s)
    ok (record t { frame_count = pos 0; discard_pts = []; error_status = false })

  -- `Push` up to its wait: whether it goes on.
  unfoldable pub push_begins : Option Payload → D → Outcome (Bool × D)
  push_begins (some p) s = check s.run >> ok (true, s)
  push_begins none s =
      check s.run >> ok (if s.draining then (false, s) else (true, record s { draining = true }))

  -- The rest of `Push`, which waits while too many packets are queued.
  unfoldable pub push_ends : Option Payload → Frame → D → Turn D
  push_ends p buf s =
      if ltb max_output_surfaces (length (bq.items (Option Payload) s.pkt_queue))
      then blocked
      else moved (record s {
        pkt_queue = bq.push (Option Payload) s.pkt_queue p;
        frame_queue = bq.push Frame s.frame_queue buf;
        frame_count = s.frame_count +ℤ pos 1;
      })

  unfoldable pub popped_frame : Frame → D → Popped (bq.Queue Frame) Frame → Answer D
  popped_frame old s waits = waiting
  popped_frame old s killed = if s.error_status then thrown else answered false old s
  popped_frame old s (got f q) =
      if s.error_status
      then thrown
      else answered true f (record s { reorder_queue = q; frame_count = s.frame_count -ℤ pos 1 })

  -- `Pop`.
  unfoldable pub pop : Frame → D → Answer D
  pop old s =
      if s.error_status
      then thrown
      else if (s.frame_count ==ℤ pos 0) && not s.draining
      then answered false old s
      else if ltb (length (bq.items Frame s.reorder_queue)) 1
      then answered false old s
      else popped_frame old s (bq.pop Frame s.reorder_queue)
