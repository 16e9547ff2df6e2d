-- ===== src/Audio/Tests.antt =====
-- A file of two packets, of which each is a frame of two samples and one more that the resampler
-- holds back.
use peli.Base.{
  ℕ, ◌+◌, ◌-◌, ◌*◌, ◌≡◌, ◌<◌, refl, Bool, true, false, Option, none, some, List, [], ◌∷◌, ◌++◌,
  Outcome, ok, Ensures, arith, length, replicate, length-replicate, drop, take, ℤ, pos, ◌<ℤ◌,
  if◌then◌else◌, ◌==◌,
}
use peli.Audio.State.{
  Frame, Read, packet, end_of_file, accepted, Received, frame, again, Media, Audio, Sys,
}
use peli.Audio.Save.{push_samples, save_channels, first_channels, save_to_vector}
use peli.Audio.Decode.{
  normal, new_audio, pad, out_channels, find_audio, select_stream, convert_some, flush,
  handle_frame, receive_loop, drain_decoder, after_receive, after_send, packet_loop, decode_packet,
  open_input, decode,
}
use peli.Audio.Output.{
  sample_bytes, channel_bytes, store_channel, store_channels, to_ndarray, new_audio_reader,
}
use peli.Audio.Ends.{Ends, Balanced}
use peli.Audio.Totals.{decode_packet-Balanced}
use peli.Audio.Planar.{to_ndarray_overlap}
use peli.Audio.Mono.{IsMono, new_audio_reader-IsMono}
use peli.Reader.Batch.{write}

record Tape : Type 0 where
  unread : ℕ
  ready : ℕ
  held : ℕ

abbrev tape : Tape
tape = record { unread = 2; ready = 0; held = 0 }

abbrev stereo : Frame
stereo = record { nb_samples = 2; pts = pos 5; sample_rate = pos 8; nb_channels = 2 }

abbrev tape_read : Tape → Read × Tape
tape_read t =
    if t.unread == 0 then (end_of_file, t) else (packet (pos 0), record t { unread = t.unread - 1 })

abbrev tape_receive : Tape → Received × Tape
tape_receive t =
    if t.ready == 0 then (again, t) else (frame stereo, record t { ready = t.ready - 1 })

abbrev tape_convert : Tape → ℕ → Option Frame → ℤ × (ℕ → ℕ → ℕ) × Tape
tape_convert t n (some f) = (pos 2, λ c i. c * 100 + i, record t { held = 1 })
tape_convert t n none =
    (pos (if t.held == 0 then 0 else 1), λ c i. c * 100 + 9, record t { held = 0 })

abbrev tapes : Media
tapes = record {
  State = Tape;
  open_file = λ fn. some tape;
  open_bytes = λ bytes. none;
  streams = λ t. record { is_audio = true; sample_rate = pos 8; nb_channels = 2 } ∷ [];
  open_codec = λ t i. some t;
  init_resampler = λ t mono rate. some tape;
  read_frame = tape_read;
  send_packet = λ t. (accepted, record t { ready = 1 });
  send_null = λ t. (true, record t { ready = 0 });
  receive_frame = tape_receive;
  rescale_up = λ n a b. n;
  alloc_samples = λ t channels n. true;
  convert = tape_convert;
}

tape_held : (t : Tape) (n : ℕ) (f : Option Frame) → (tape_convert t n f).2.held + 1 < 4
tape_held t n none = omega arith
tape_held t n (some f) = omega arith

tape_flush :
    (t : Tape) (n : ℕ)
    → pos 0 <ℤ (tape_convert t n none).0
    → (tape_convert t n none).2.held < t.held
tape_flush t n h = ground arith

tape_ready : (t : Tape) (n : ℕ) (f : Option Frame) → (tape_convert t n f).2.ready ≡ t.ready
tape_ready t n none = refl
tape_ready t n (some f) = refl

tape_unread : (t : Tape) (n : ℕ) (f : Option Frame) → (tape_convert t n f).2.unread ≡ t.unread
tape_unread t n none = refl
tape_unread t n (some f) = refl

tape_frame :
    (t : Tape) (f : Frame) → (tape_receive t).0 ≡ frame f → (tape_receive t).1.ready < t.ready
tape_frame t f h = ground arith

tape_same : (t : Tape) → (tape_receive t).1.unread ≡ t.unread
tape_same t = ground arith

tape_packet : (t : Tape) (i : ℤ) → (tape_read t).0 ≡ packet i → (tape_read t).1.unread < t.unread
tape_packet t i h = ground arith

tape_start :
    (s : Tape) (mono : Bool) (rate : ℤ) (t : Tape)
    → ◌≡◌ {A = Option Tape} (some tape) (some t)
    → t.unread < 3
tape_start s mono rate t h = ground arith

tape-Ends : Ends tapes 4 2 3
tape-Ends = record {
  held = λ t. t.held;
  ready = λ t. t.ready;
  unread = λ t. t.unread;
  convert_held = tape_held;
  flush_held = tape_flush;
  convert_ready = tape_ready;
  convert_unread = tape_unread;
  receive_ready = tape_frame;
  receive_unread = tape_same;
  send_ready = λ t. omega arith;
  send_unread = λ t. refl;
  null_ready = λ t. omega arith;
  init_unread = tape_start;
  read_unread = tape_packet;
}

abbrev blank : ℕ → List ℕ
blank n = replicate n 0

blank_size : (n : ℕ) → length (blank n) ≡ n
blank_size n = length-replicate n 0

new_audio_reader-IsMono_example :
    Ensures (IsMono tapes) (new_audio_reader tapes blank 4 2 3 normal [] (pos 8) true)
new_audio_reader-IsMono_example =
    new_audio_reader-IsMono tapes 4 2 3 tape-Ends blank normal [] (pos 8) blank_size

abbrev blank_audio : Audio
blank_audio = new_audio (pos 8) false

tape_channels :
    (t : Tape) (f : Frame) → (tape_receive t).0 ≡ frame f → out_channels tapes false f ≡ 2
unfolding out_channels
tape_channels t f h = ground arith

decode_packet-Balanced_example :
    Ensures
      (λ (t : Sys tapes). Balanced 2 t.audio)
      (decode_packet tapes 4 2 3 (record { audio = blank_audio; media = tape }))
decode_packet-Balanced_example =
    decode_packet-Balanced tapes 4 2 3 2 false tape-Ends (omega arith) tape_channels
      (record { audio = blank_audio; media = tape }) refl refl refl

-- What the run of the example hands out.
abbrev samples_of : Outcome (Option (List ℕ) × Sys tapes) → List (List ℕ)
samples_of (ok (output, s)) = s.audio.output_vector
samples_of other = []

mono_run :
    samples_of (new_audio_reader tapes blank 4 2 3 normal [] (pos 8) true)
    ≡ (0 ∷ 1 ∷ 9 ∷ 0 ∷ 1 ∷ 9 ∷ []) ∷ []
unfolding new_audio_reader decode decode_packet open_input find_audio select_stream packet_loop
    after_send after_receive receive_loop drain_decoder handle_frame out_channels pad convert_some
    flush save_to_vector save_channels push_samples first_channels to_ndarray store_channels
    store_channel channel_bytes sample_bytes write
mono_run = refl

abbrev two_channels : Audio
two_channels = record (new_audio (pos 8) false) {
  output_vector = (1 ∷ 2 ∷ []) ∷ (3 ∷ 4 ∷ []) ∷ [];
  num_channels = 2;
}

to_ndarray_overlap_example :
    to_ndarray blank two_channels
    ≡ ok (
        some (
          take 2 (channel_bytes (1 ∷ 2 ∷ []))
          ++ (channel_bytes (3 ∷ 4 ∷ []) ++ drop 10 (blank 16))))
to_ndarray_overlap_example =
    to_ndarray_overlap blank two_channels (1 ∷ 2 ∷ []) (3 ∷ 4 ∷ []) blank_size refl refl refl
