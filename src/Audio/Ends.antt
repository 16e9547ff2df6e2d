-- ===== src/Audio/Ends.antt =====
-- A file that ends, and the count of what was saved of it.
use peli.Base.{ℕ, ◌+◌, ◌≡◌, ◌<◌, ◌⊎◌, Bool, Option, none, some, [], ℤ, pos, ◌<ℤ◌}
use peli.Audio.State.{Frame, packet, frame, Media, Audio}
use peli.Audio.Decode.{out_channels}
use peli.Audio.Rows.{HasRows}

-- What FFmpeg promises of a file that ends: the resampler holds back ever less while it is flushed,
-- the decoder has ever fewer frames ready, the file ever fewer packets unread, and each count is
-- below the fuel of its loop. No call of one of them adds to the counts of another.
pub record Ends (md : Media) (flushes frames packets : ℕ) : Type 0 where
  pub held : md.State → ℕ
  pub ready : md.State → ℕ
  pub unread : md.State → ℕ
  pub convert_held :
      (s : md.State) (n : ℕ) (f : Option Frame) → held (md.convert s n f).2 + 1 < flushes
  pub flush_held :
      (s : md.State) (n : ℕ)
      → pos 0 <ℤ (md.convert s n none).0
      → held (md.convert s n none).2 < held s
  pub convert_ready :
      (s : md.State) (n : ℕ) (f : Option Frame) → ready (md.convert s n f).2 ≡ ready s
  pub convert_unread :
      (s : md.State) (n : ℕ) (f : Option Frame) → unread (md.convert s n f).2 ≡ unread s
  pub receive_ready :
      (s : md.State) (f : Frame)
      → (md.receive_frame s).0 ≡ frame f
      → ready (md.receive_frame s).1 < ready s
  pub receive_unread : (s : md.State) → unread (md.receive_frame s).1 ≡ unread s
  pub send_ready : (s : md.State) → ready (md.send_packet s).1 < frames
  pub send_unread : (s : md.State) → unread (md.send_packet s).1 ≡ unread s
  pub null_ready : (s : md.State) → ready (md.send_null s).1 < frames
  pub init_unread :
      (s : md.State) (mono : Bool) (rate : ℤ) (t : md.State)
      → md.init_resampler s mono rate ≡ some t
      → unread t < packets
  pub read_unread :
      (s : md.State) (i : ℤ)
      → (md.read_frame s).0 ≡ packet i
      → unread (md.read_frame s).1 < unread s

-- Every frame that the decoder hands out has `k` channels, or is mixed down to `k`.
abbrev pub Uniform : Media → Bool → ℕ → Type 0
Uniform md mono k =
    (s : md.State) (f : Frame) → (md.receive_frame s).0 ≡ frame f → out_channels md mono f ≡ k

-- The channels that were saved are `k` rows of as many samples as were counted.
pub record Balanced (k : ℕ) (a : Audio) : Type 0 where
  pub samples : ℕ
  pub counted : a.total_converted ≡ pos samples
  pub rows : HasRows k samples a.output_vector
  pub channels : (a.output_vector ≡ []) ⊎ (a.num_channels ≡ k)
