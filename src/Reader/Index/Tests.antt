-- ===== src/Reader/Index/Tests.antt =====
-- A file whose packets come in the order of decoding: two groups of three frames, with a packet of
-- another stream among them.
use mathlib.Core.List.{Perm}
use peli.Base.{
  ℕ, suc, ◌≡◌, ◌≤◌, refl, Bool, true, false, Option, none, some, List, [], ◌∷◌, arith, ok, ◌>>=◌,
  get_elem?, pos, negsuc,
}
use peli.Reader.State.{Reader, no_frame, FrameTime, Packet, Read, packet, end_of_file, Backend, Sys}
use peli.Reader.Keyframes.{frame_count, metadata_count}
use peli.Reader.Decode.{find_key}
use peli.Reader.Seek.{seek}
use peli.Reader.Index.{index_keyframes}
use peli.Reader.Index.Times.{IsOrdered}
use peli.Reader.Index.Scan.{indexed_reader, packets_of, times_of, index_keyframes_lem}

abbrev video : ℕ → Bool → Packet
video n key = record { stream_index = pos 0; pts = pos n; dts = pos n; is_key = key }

abbrev packets : List Packet
packets =
    video 0 true
    ∷ video 2 false
    ∷ record (video 0 true) { stream_index = pos 1 }
    ∷ video 1 false
    ∷ video 5 true
    ∷ video 3 false
    ∷ video 4 false
    ∷ []

abbrev read_of : Option Packet → ℕ → Read × ℕ
read_of none n = (end_of_file, n)
read_of (some p) n = (packet p, suc n)

-- The state is the number of packets that were read.
abbrev tape : Backend
tape = record {
  State = ℕ;
  read_packet = λ n. read_of (get_elem? packets n) n;
  seek_file = λ n ts backward by_frame. (true, 0);
  clear = λ n. n;
  start = λ n. ok n;
  push = λ n p with_buffer. ok n;
  pop = λ n f. ok (false, f, n);
  suggest_discard = λ n ts. n;
  clear_discard = λ n. n;
}

abbrev new_reader : Reader
new_reader = record {
  opened = true;
  is_gpu = false;
  key_indices = [];
  pts_frame_map = [];
  tmp_key_frame = no_frame;
  overrun = false;
  frame_ts = [];
  actv_stm_idx = pos 0;
  nb_streams = 2;
  nb_frames = pos 6;
  estimate = pos 6;
  curr_frame = pos 0;
  eof = false;
  cached_frame = no_frame;
  use_cached_frame = true;
  failed_idx = [];
  fault_tol_thresh = negsuc 0;
  fault_warn_emit = false;
  frame_size = 2;
}

abbrev unread : Sys tape
unread = record { reader = new_reader; back = 0 }

index_keyframes_lem_example :
    let q = indexed_reader new_reader packets in
    (index_keyframes tape 8 unread
      ≡ (seek tape (record { reader = q; back = 7 }) (pos 0) >>= λ x. ok x.1))
    × IsOrdered q.frame_ts
    × Perm (times_of (packets_of (pos 0) packets)) q.frame_ts
    × ((j : ℕ) (t : FrameTime)
        → get_elem? q.frame_ts j ≡ some t
        → (k : ℕ) × (u : FrameTime) × (find_key t.pts q.pts_frame_map ≡ some (pos k))
          × (k ≤ j)
          × (get_elem? q.frame_ts k ≡ some u)
          × (u.pts ≡ t.pts))
unfolding frame_count metadata_count
index_keyframes_lem_example =
    index_keyframes_lem tape 8 unread packets 7 (pos 6) refl refl refl refl (omega arith)
      (omega arith) (refl, (refl, (refl, (refl, (refl, (refl, (refl, (refl, refl))))))))

-- The second keyframe is packet 3 of the stream, and frame 5 in the order of presentation.
key_places_in_file_order : (indexed_reader new_reader packets).key_indices ≡ pos 0 ∷ pos 3 ∷ []
key_places_in_file_order = refl
