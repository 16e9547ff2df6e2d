-- ===== src/Reader/State.antt =====
-- The state of `VideoReader` (video_reader.h), the part of an `NDArray` that it looks at, and what
-- it calls: FFmpeg's demuxer and the decoder behind `ThreadedDecoderInterface`.
use peli.Base.{ℕ, Bool, true, false, Option, List, [], Outcome, ℤ, negsuc}

-- An `NDArray` that holds a frame: `Size()`, whether its type is `kInt64`, its `pts`, and its
-- bytes, which the reader only copies.
pub record Frame : Type 0 where
  pub defined : Bool
  pub size : ℕ
  pub is_int64 : Bool
  pub pts : ℤ
  pub pixels : List ℕ

-- `NDArray()`, and `NDArray::Empty({}, kUInt8, ctx_)`.
abbrev pub no_frame : Frame
no_frame = record { defined = false; size = 0; is_int64 = false; pts = negsuc 0; pixels = [] }

abbrev pub empty_frame : Frame
empty_frame = record no_frame { defined = true }

pub record Packet : Type 0 where
  pub stream_index : ℤ
  pub pts : ℤ
  pub dts : ℤ
  pub is_key : Bool

-- What `av_read_frame` returns.
pub data Read : Type 0 where
  packet : Packet → Read
  end_of_file : Read
  failed : Read

-- The demuxer and the decoder. An `Outcome` is `fatal` where the decoder throws. `push` takes the
-- packet, null to start draining, and whether a buffer of the pool goes with it; `pop` takes what
-- `*frame` holds before the call and returns what it holds after it.
pub record Backend : Type 1 where
  pub State : Type 0
  pub read_packet : State → Read × State
  pub seek_file : State → ℤ → Bool → Bool → Bool × State
  pub clear : State → State
  pub start : State → Outcome State
  pub push : State → Option Packet → Bool → Outcome State
  pub pop : State → Frame → Outcome (Bool × Frame × State)
  pub suggest_discard : State → List ℤ → State
  pub clear_discard : State → State

-- `AVFrameTime`, without the times in seconds, which are floats that nothing here reads.
pub record FrameTime : Type 0 where
  pub pts : ℤ
  pub dts : ℤ

-- The limits that come from environment variables; `warns n count` is the float comparison with
-- the warning threshold.
pub record Limits : Type 0 where
  pub rewind_retry_max : ℤ
  pub eof_retry_max : ℤ
  pub warns : ℕ → ℤ → Bool

-- `nb_frames` and `estimate` stand for the stream's metadata: the frame count that it states, and
-- the one computed in floats from its duration and frame rate.
pub record Reader : Type 0 where
  pub opened : Bool
  pub is_gpu : Bool
  pub key_indices : List ℤ
  pub pts_frame_map : List (ℤ × ℤ)
  pub tmp_key_frame : Frame
  pub overrun : Bool
  pub frame_ts : List FrameTime
  pub actv_stm_idx : ℤ
  pub nb_streams : ℕ
  pub nb_frames : ℤ
  pub estimate : ℤ
  pub curr_frame : ℤ
  pub eof : Bool
  pub cached_frame : Frame
  pub use_cached_frame : Bool
  pub failed_idx : List ℤ
  pub fault_tol_thresh : ℤ
  pub fault_warn_emit : Bool
  pub frame_size : ℕ

pub record Sys (be : Backend) : Type 0 where
  pub reader : Reader
  pub back : be.State
