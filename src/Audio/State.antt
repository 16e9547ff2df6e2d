-- ===== src/Audio/State.antt =====
-- The state of `AudioReader` (src/audio/audio_reader.h), and what it calls: FFmpeg's demuxer, decoder
-- and resampler.
use peli.Base.{ℕ, Bool, Option, List, ℤ}

-- `AVFrame` of samples.
pub record Frame : Type 0 where
  pub nb_samples : ℕ
  pub pts : ℤ
  pub sample_rate : ℤ
  pub nb_channels : ℕ

-- What `av_read_frame` returns; a packet is its stream's index.
pub data Read : Type 0 where
  packet : ℤ → Read
  end_of_file : Read
  failed : Read

-- What `avcodec_send_packet` returns.
pub data Sent : Type 0 where
  accepted : Sent
  full : Sent
  refused : Sent

-- What `avcodec_receive_frame` returns; `again` is `AVERROR(EAGAIN)`.
pub data Received : Type 0 where
  frame : Frame → Received
  again : Received
  finished : Received
  broken : Received

-- `AVStream`, as far as it is looked at.
pub record Stream : Type 0 where
  pub is_audio : Bool
  pub sample_rate : ℤ
  pub nb_channels : ℕ

-- `convert n f` is `swr_convert` into a buffer of `n` samples, of a frame's samples or of what is
-- held back: the count that it returns, and the buffer, by channel and place. `open_file` takes the
-- name, `open_bytes` the bytes; both are `none` where the file cannot be opened.
pub record Media : Type 1 where
  pub State : Type 0
  pub open_file : List ℕ → Option State
  pub open_bytes : List ℕ → Option State
  pub streams : State → List Stream
  pub open_codec : State → ℕ → Option State
  pub init_resampler : State → Bool → ℤ → Option State
  pub read_frame : State → Read × State
  pub send_packet : State → Sent × State
  pub send_null : State → Bool × State
  pub receive_frame : State → Received × State
  pub rescale_up : ℕ → ℤ → ℤ → ℕ
  pub alloc_samples : State → ℕ → ℕ → Bool
  pub convert : State → ℕ → Option Frame → ℤ × (ℕ → ℕ → ℕ) × State

-- A sample is its four bytes as a number. `padding` is in units of the stream's time base, and
-- `none` is the mark -1.0.
pub record Audio : Type 0 where
  pub output_vector : List (List ℕ)
  pub padding : Option ℤ
  pub mono : Bool
  pub original_sample_rate : ℤ
  pub target_sample_rate : ℤ
  pub num_channels : ℕ
  pub audio_stream_index : ℕ
  pub total_samples : ℕ
  pub total_converted : ℤ

pub record Sys (md : Media) : Type 0 where
  pub audio : Audio
  pub media : md.State
