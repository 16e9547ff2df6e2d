-- ===== src/Decoder/Tests.antt =====
-- A codec that hands out one small picture for each packet, and a run.
use peli.Base.{
  ℕ, ◌+◌, ◌*◌, ◌≡◌, ◌<◌, inl, ◌⊎◌, refl, true, false, some, [], ◌∷◌, ok, arith, length, take, pos,
  ◌+ℤ◌,
}
use peli.Reader.State.{Packet, no_frame}
use peli.Decoder.Lines.{lines}
use peli.Decoder.Picture.{
  rgb24, Picture, channels, bytes_at, image_frame, copy_to_ndarray, to_dl_tensor, as_ndarray,
}
use peli.Decoder.State.{
  picture, Codec, idle, fetch, deliver, counting, recording, stopping, Decoder, new_decoder,
  skipped,
}
use peli.Decoder.Worker.{
  moved, record_error, mem_pts, into_buffer, process_frame, queue_frame, decode_packet, take_packet,
  fetch_step, deliver_step, step_at, worker_step,
}
use peli.Decoder.Worker
use peli.Decoder.Client.{
  took, pop_takes, take_frame, is_idle, is_joinable, is_null, start, signal_stop, join, stop, clear,
  set_codec_context, push,
}
use peli.Decoder.Steps.{
  work, pushes, takes, starts, sets_codec, Owner, resting, holding, Reach, created, later, owed,
  held, is_stopping, frames,
}
use peli.Decoder.Stops.{weight}
use peli.Decoder.Reached.{frame_count_lem, stop_ends}
use peli.Decoder.Packed.{as_ndarray-eq-copy, as_ndarray_padded}

abbrev dot : ℕ → Picture
dot n = record {
  pts = pos n;
  width = 2;
  height = 1;
  line_size = 6;
  format = rgb24;
  on_device = false;
  bytes = n ∷ 1 ∷ 2 ∷ 3 ∷ 4 ∷ 5 ∷ [];
}

abbrev dots : Codec
dots = record {
  State = ℕ;
  send_packet = λ n p. (true, n + 1);
  receive_frame = λ n. (picture, dot n, n);
  filter = λ n p. (some p, n);
  flush_buffers = λ n. 0;
}

abbrev D : Type 0
D = Decoder lines dots

abbrev a_packet : Packet
a_packet = record { stream_index = pos 0; pts = pos 1; dts = pos 1; is_key = true }

abbrev running : D
running = record {
  pkt_queue = ([], false);
  frame_queue = ([], false);
  buffer_queue = ([], false);
  frame_count = pos 0;
  draining = false;
  run = true;
  has_filter = true;
  codec = 0;
  discard_pts = [];
  error_status = false;
  worker = fetch;
}

abbrev fed : D
fed = record running {
  pkt_queue = (some a_packet ∷ [], false);
  buffer_queue = (no_frame ∷ [], false);
}

abbrev taken : D
taken = record fed { pkt_queue = ([], false); codec = 1; worker = deliver (dot 1) false }

abbrev queued : D
queued = record taken {
  buffer_queue = ([], false);
  frame_queue = (image_frame (pos 1) 6 (1 ∷ 1 ∷ 2 ∷ 3 ∷ 4 ∷ 5 ∷ []) ∷ [], false);
  worker = counting fetch;
}

abbrev made : D
made = record running { run = false; has_filter = true; codec = 0; worker = idle }

sets : set_codec_context lines dots 1 0 (new_decoder lines dots 7) ≡ ok made
unfolding set_codec_context clear stop join signal_stop is_joinable new_decoder
sets = refl

starting : start lines dots made ≡ ok running
unfolding start is_idle
starting = refl

pushing : push lines dots (some a_packet) no_frame running ≡ ok fed
unfolding push is_null
pushing = refl

taking : worker_step lines dots fed ≡ moved taken
unfolding worker_step step_at fetch_step take_packet decode_packet
taking = refl

delivering : worker_step lines dots taken ≡ moved queued
unfolding worker_step step_at deliver_step process_frame mem_pts into_buffer queue_frame as_ndarray
    to_dl_tensor channels bytes_at
delivering = refl

queued_reached : Reach lines dots 7 resting queued
queued_reached =
    later
      (later
        (later (later (later created (sets_codec 1 0 sets)) (starts starting))
          (pushes (some a_packet) no_frame pushing))
        (work taking))
      (work delivering)

-- `Pop` takes the frame before the worker has counted it.
abbrev popped : D
popped = record queued { frame_queue = ([], false) }

abbrev in_pop : Owner
in_pop = holding (some (image_frame (pos 1) 6 (1 ∷ 1 ∷ 2 ∷ 3 ∷ 4 ∷ 5 ∷ [])))

popping :
    pop_takes lines dots queued
    ≡ took (some (image_frame (pos 1) 6 (1 ∷ 1 ∷ 2 ∷ 3 ∷ 4 ∷ 5 ∷ []))) popped
unfolding pop_takes take_frame
popping = refl

popped_reached : Reach lines dots 7 in_pop popped
popped_reached = later queued_reached (takes _ popping)

frame_count_lem_example :
    (popped.error_status ≡ is_stopping popped.worker)
    × ((popped.error_status ≡ true)
        ⊎ (popped.frame_count +ℤ pos (owed popped.worker)
            ≡ pos (length (frames lines dots popped) + held in_pop)))
frame_count_lem_example = frame_count_lem lines dots popped_reached refl

-- A packet that the codec refuses: the three stores of the handler, one after the other.
abbrev refusing : Codec
refusing = record dots { send_packet = λ n p. (false, n) }

abbrev at_error : Decoder lines refusing
at_error = record {
  pkt_queue = (some a_packet ∷ [], false);
  frame_queue = ([], false);
  buffer_queue = (no_frame ∷ [], false);
  frame_count = pos 0;
  draining = false;
  run = true;
  has_filter = true;
  codec = 0;
  discard_pts = [];
  error_status = false;
  worker = fetch;
}

fails :
    worker_step lines refusing at_error
    ≡ moved (record at_error { pkt_queue = ([], false); worker = recording })
unfolding worker_step step_at fetch_step take_packet decode_packet Worker.fail
fails = refl

handles :
    worker_step lines refusing (record at_error { worker = recording })
    ≡ moved (record at_error { error_status = true; worker = stopping })
unfolding worker_step step_at record_error
handles = refl

queued_weight : weight queued.worker < 3
unfolding weight
queued_weight = omega arith

stop_ends_example :
    (t : D) × (stop lines dots 3 queued ≡ ok t) × (t.worker ≡ idle) × (t.run ≡ false)
stop_ends_example = stop_ends lines dots 3 queued_reached queued_weight

-- A pts in the discard set gets the small frame.
skipping :
    process_frame lines dots (pos 4 ∷ pos 1 ∷ []) 0 (dot 1) no_frame ≡ ok (skipped (pos 1), 0)
unfolding process_frame mem_pts
skipping = refl

rgb_channels : channels (dot 3).format ≡ ok 3
unfolding channels
rgb_channels = refl

as_ndarray-eq-copy_example : as_ndarray (dot 3) ≡ copy_to_ndarray (dot 3)
as_ndarray-eq-copy_example =
    as_ndarray-eq-copy (dot 3) 3 (omega arith) rgb_channels (omega arith) (inl refl)

abbrev padded_dot : Picture
padded_dot = record (dot 3) { line_size = 8; bytes = 3 ∷ 1 ∷ 2 ∷ 3 ∷ 4 ∷ 5 ∷ 0 ∷ 0 ∷ [] }

as_ndarray_padded_example :
    as_ndarray padded_dot
    ≡ ok (record {
      shape = 1 ∷ 2 ∷ 4 ∷ [];
      frame = image_frame (pos 3) (1 * 2 * 4) (take (1 * 2 * 4) padded_dot.bytes);
    })
as_ndarray_padded_example =
    as_ndarray_padded padded_dot 3 4 (omega arith) rgb_channels refl refl (omega arith)
