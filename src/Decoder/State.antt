-- ===== src/Decoder/State.antt =====
-- The state of `FFMPEGThreadedDecoder` (src/video/ffmpeg/threaded_decoder.h), and FFmpeg below it.
use peli.Base.{ℕ, Bool, true, false, Option, List, [], ℤ, pos, negsuc}
use peli.Reader.State.{Frame, Packet}
use peli.Decoder.Queue.{BlockingQueue}
use peli.Decoder.Picture.{Picture}

-- What `avcodec_receive_frame` returns.
pub data Received : Type 0 where
  picture : Received
  again : Received
  finished : Received
  broken : Received

-- `receive_frame` also gives what the frame holds after the call, and `filter` runs a picture
-- through the filter graph: `none` where the graph fails.
pub record Codec : Type 1 where
  pub State : Type 0
  pub send_packet : State → Option Packet → Bool × State
  pub receive_frame : State → Received × Picture × State
  pub filter : State → Picture → Option Picture × State
  pub flush_buffers : State → State

-- Where the worker stands. `idle` is no thread, `ended` one that returned and is not joined;
-- `deliver p d` has the picture `p` and waits for a buffer, `d` in the draining loop; `counting k`
-- has pushed a frame, must add it to `frame_count_` and goes on at `k`; `marking n` must still push
-- `n` of the frames that mark the end. In the handler of an error the worker is about to set the
-- error status at `recording`, to clear `run_` at `stopping`, and to kill the frame queue at
-- `killing`.
pub data Place : Type 0 where
  idle : Place
  fetch : Place
  deliver : Picture → Bool → Place
  drain : Place
  marking : ℕ → Place
  counting : Place → Place
  recording : Place
  stopping : Place
  killing : Place
  ended : Place

-- The message of an error is left out, and so is whether the queues exist: no call reaches one
-- before `Start`.
pub record Decoder (bq : BlockingQueue) (cd : Codec) : Type 0 where
  pub pkt_queue : bq.Queue (Option Packet)
  pub frame_queue : bq.Queue Frame
  pub buffer_queue : bq.Queue Frame
  pub frame_count : ℤ
  pub draining : Bool
  pub run : Bool
  pub has_filter : Bool
  pub codec : cd.State
  pub discard_pts : List ℤ
  pub error_status : Bool
  pub worker : Place

-- `NDArray::Empty({1}, kInt64, kCPU)`, which marks the end.
abbrev pub end_mark : Frame
end_mark = record { defined = true; size = 1; is_int64 = true; pts = negsuc 0; pixels = [] }

-- `NDArray::Empty({1}, kUInt8, kCPU)` with a `pts`: a frame that is not wanted.
abbrev pub skipped : ℤ → Frame
skipped pts = record { defined = true; size = 1; is_int64 = false; pts = pts; pixels = [] }

-- The constructor.
unfoldable pub new_decoder : (bq : BlockingQueue) (cd : Codec) → cd.State → Decoder bq cd
new_decoder bq cd codec = record {
  pkt_queue = bq.new_queue (Option Packet);
  frame_queue = bq.new_queue Frame;
  buffer_queue = bq.new_queue Frame;
  frame_count = pos 0;
  draining = false;
  run = false;
  has_filter = false;
  codec = codec;
  discard_pts = [];
  error_status = false;
  worker = idle;
}
