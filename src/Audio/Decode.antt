-- ===== src/Audio/Decode.antt =====
-- `DecodePacket`, `HandleFrame` and `DrainDecoder`, and `Decode`, which opens the file for them
-- (src/audio/audio_reader.cc). A loop takes fuel.
use peli.Base.{
  ℕ, zero, suc, ◌+◌, Bool, true, false, Option, none, some, List, [], ◌∷◌, Outcome, ok, fatal,
  diverges, ◌>>=◌, ◌>>◌, check, or_fatal, if◌then◌else◌, ℤ, pos, negsuc, pos_part, ltb_ℤ, leb_ℤ,
  ◌==ℤ◌, ◌+ℤ◌,
}
use peli.Audio.State.{
  Frame, packet, end_of_file, failed, Sent, accepted, full, refused, Received, frame, again,
  finished, broken, Stream, Media, Audio, Sys,
}
use peli.Audio.Save.{save_to_vector}

-- The padding that the first frame fixes.
unfoldable pub pad : Option ℤ → ℤ → Option ℤ
pad none pts = some (if ltb_ℤ (pos 0) pts then pts else pos 0)
pad (some p) pts = some p

-- The first audio stream, from stream `i` on.
unfoldable pub find_audio : ℕ → List Stream → Option (ℕ × Stream)
find_audio i [] = none
find_audio i (s ∷ rest) = if s.is_audio then some (i, s) else find_audio (suc i) rest

pub data IoType : Type 0 where
  normal : IoType
  device : IoType
  raw_bytes : IoType
  invalid : IoType

abbrev pub new_audio : ℤ → Bool → Audio
new_audio sample_rate mono = record {
  output_vector = [];
  padding = none;
  mono = mono;
  original_sample_rate = pos 0;
  target_sample_rate = sample_rate;
  num_channels = 0;
  audio_stream_index = 0;
  total_samples = 0;
  total_converted = pos 0;
}

-- The fields that the stream fixes.
unfoldable pub select_stream : Audio → ℕ → Stream → Audio
select_stream a i s = record a {
  audio_stream_index = i;
  original_sample_rate = s.sample_rate;
  target_sample_rate =
      if a.target_sample_rate ==ℤ negsuc 0 then s.sample_rate else a.target_sample_rate;
  num_channels = s.nb_channels;
}

module _ (md : Media) where
  open md use {
    open_file, open_bytes, streams, open_codec, init_resampler, read_frame, send_packet, send_null,
    receive_frame, rescale_up, alloc_samples, convert,
  }

  -- A call of `swr_convert` and what is done with its samples; the count comes back too.
  unfoldable pub convert_some : ℕ → ℕ → Option Frame → Sys md → Outcome (ℤ × Sys md)
  convert_some channels n f s = do
    let (got, buffer, media) = convert s.media n f
    check (leb_ℤ (pos 0) got)
    saved ← save_to_vector buffer channels (pos_part got) s.audio.output_vector
    ok (
      got,
      record {
        audio = record s.audio {
          output_vector = saved;
          total_converted = s.audio.total_converted +ℤ got;
        };
        media = media;
      },
    )

  -- `while (gotSamples > 0)`.
  unfoldable pub flush : ℕ → ℕ → ℕ → ℤ → Sys md → Outcome (Sys md)
  flush zero channels n got s = diverges
  flush (suc fuel) channels n got s = elim (ltb_ℤ (pos 0) got) [
    | false ↦ ok s
    | true ↦ convert_some channels n none s >>= λ r. flush fuel channels n r.0 r.1
  ]

  unfoldable pub out_channels : Bool → Frame → ℕ
  out_channels mono f = if mono then 1 else f.nb_channels

  -- `HandleFrame`.
  unfoldable pub handle_frame : ℕ → Frame → Sys md → Outcome (Sys md)
  handle_frame fuel f s = do
    let channels = out_channels s.audio.mono f
    let padded = record s {
      audio = record s.audio { padding = pad s.audio.padding f.pts; num_channels = channels };
    }
    let n = rescale_up f.nb_samples s.audio.target_sample_rate f.sample_rate
    check (alloc_samples s.media channels n)
    (got, t) ← convert_some channels n (some f) padded
    flush fuel channels n got t

  -- The loop over the frames that the decoder has; what it returned last comes back too.
  unfoldable pub receive_loop : ℕ → ℕ → Sys md → Outcome (Received × Sys md)
  receive_loop flushes zero s = diverges
  receive_loop flushes (suc fuel) s =
      let (r, media) = receive_frame s.media in
      elim r [
        | frame f ↦
            handle_frame flushes f (record {
              audio = record s.audio { total_samples = s.audio.total_samples + f.nb_samples };
              media = media;
            })
            >>= λ t. receive_loop flushes fuel t
        | again ↦ ok (again, record s { media = media })
        | finished ↦ ok (finished, record s { media = media })
        | broken ↦ ok (broken, record s { media = media })
      ]

  -- `DrainDecoder`.
  unfoldable pub drain_decoder : ℕ → ℕ → Sys md → Outcome (Sys md)
  drain_decoder flushes fuel s =
      let (sent, media) = send_null s.media in
      elim sent [
        | true ↦ receive_loop flushes fuel (record s { media = media }) >>= λ r. ok r.1
        | false ↦ ok (record s { media = media })
      ]

  -- What follows the frames of a packet, with the rest of the loop.
  unfoldable pub after_receive : (Sys md → Outcome (Sys md)) → Received → Sys md → Outcome (Sys md)
  after_receive go_on again s = go_on s
  after_receive go_on finished s = ok s
  after_receive go_on broken s = ok s
  after_receive go_on (frame f) s = ok s

  -- What follows the sending of a packet.
  unfoldable pub after_send : ℕ → ℕ → (Sys md → Outcome (Sys md)) → Sent → Sys md → Outcome (Sys md)
  after_send flushes frames go_on refused s = ok s
  after_send flushes frames go_on accepted s =
      receive_loop flushes frames s >>= λ r. after_receive go_on r.0 r.1
  after_send flushes frames go_on full s =
      receive_loop flushes frames s >>= λ r. after_receive go_on r.0 r.1

  -- The loop over the packets of the file.
  unfoldable pub packet_loop : ℕ → ℕ → ℕ → Sys md → Outcome (Sys md)
  packet_loop flushes frames zero s = diverges
  packet_loop flushes frames (suc fuel) s =
      let (r, media) = read_frame s.media in
      elim r [
        | end_of_file ↦ ok (record s { media = media })
        | failed ↦ ok (record s { media = media })
        | packet i ↦ elim (i ==ℤ pos s.audio.audio_stream_index) [
          | false ↦ packet_loop flushes frames fuel (record s { media = media })
          | true ↦
              after_send flushes frames (packet_loop flushes frames fuel) ((send_packet media).0)
                (record s { media = (send_packet media).1 })
        ]
      ]

  -- `DecodePacket`.
  unfoldable pub decode_packet : ℕ → ℕ → ℕ → Sys md → Outcome (Sys md)
  decode_packet flushes frames fuel s = do
    media ← or_fatal (init_resampler s.media s.audio.mono s.audio.target_sample_rate)
    t ← packet_loop flushes frames fuel (record s { media = media })
    drain_decoder flushes frames t

  -- How the file is opened.
  unfoldable pub open_input : IoType → List ℕ → Outcome md.State
  open_input normal fn = or_fatal (open_file fn)
  open_input raw_bytes fn = or_fatal (open_bytes fn)
  open_input device fn = fatal
  open_input invalid fn = fatal

  -- `Decode`, from the constructor's fields.
  unfoldable pub decode : ℕ → ℕ → ℕ → IoType → List ℕ → ℤ → Bool → Outcome (Sys md)
  decode flushes frames fuel io fn sample_rate mono = do
    media ← open_input io fn
    (i, s) ← or_fatal (find_audio 0 (streams media))
    opened ← or_fatal (open_codec media i)
    decode_packet flushes frames fuel
        (record { audio = select_stream (new_audio sample_rate mono) i s; media = opened })
