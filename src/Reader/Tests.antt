-- ===== src/Reader/Tests.antt =====
-- A file of three frames with two keyframes, a decoder without delay, and the reader on it.
use peli.Base.{
  ℕ, zero, suc, ◌≡◌, ◌≤◌, ◌<◌, inl, inr, refl, sym, ap, ◌∙◌, subst, Bool, true, false, not, Option,
  none, some, List, [], ◌∷◌, arith, Outcome, ok, check, if◌then◌else◌, ltb, ◌==◌, get_elem?,
  get_elem?_total, ℤ, pos, negsuc, ◌==ℤ◌, ◌+ℤ◌, pos_part, Bool-cases,
}
use peli.Reader.State.{
  Reader, Frame, no_frame, FrameTime, Packet, Read, packet, end_of_file, Backend, Limits, Sys,
}
use peli.Reader.Keyframes.{frame_count, locate_keyframe}
use peli.Reader.Keyframes.Locate.{Located, locate_keyframe_lem}
use peli.Reader.Decode.{find_key, fetch_cached_frame, push_next, cache_frame}
use peli.Reader.Seek.{seek_accurate, next_frame, next_frame_impl, next_loop, deliver}
use peli.Reader.Batch.{get_batch, load_frame}
use peli.Reader.Batch.Once.{fits, frames_of, HasRoom, get_batch_lem}
use peli.Reader.Tolerance.{Fetches, fetch_cached_frame_lem}
use peli.Reader.Held.{held_key_frame}
use peli.Reader.Stream.{Stream, Indexed, Moves, sys_at}
use peli.Reader.Stream.Next.{Gives}
use peli.Reader.Stream.Access.{random_access}
use peli.Reader.Stream.Batches.{get_batch_intact}

abbrev frame : ℕ → Frame
frame n = record { defined = true; size = 2; is_int64 = false; pts = pos n; pixels = n ∷ 9 ∷ [] }

abbrev frames : List Frame
frames = frame 0 ∷ frame 1 ∷ frame 2 ∷ []

abbrev own_packet : ℕ → Packet
own_packet n = record { stream_index = pos 1; pts = pos n; dts = pos n; is_key = not (n == 1) }

abbrev next_packet : ℕ → Read
next_packet n = if ltb n 3 then packet (own_packet n) else end_of_file

frames-frame : (n : ℕ) {f : Frame} → get_elem? frames n ≡ some f → f ≡ frame n
frames-frame zero h = cc
frames-frame (suc zero) h = cc
frames-frame (suc (suc zero)) h = cc
frames-frame (suc (suc (suc n))) h = cc

abbrev pop_frame : Option Frame → ℕ → Frame → Outcome (Bool × Frame × ℕ)
pop_frame none n f = ok (false, f, n)
pop_frame (some g) n f = ok (true, g, suc n)

-- The state is the number of the next frame.
abbrev deck : Backend
deck = record {
  State = ℕ;
  read_packet = λ n. (next_packet n, n);
  seek_file = λ n ts backward by_frame. (true, pos_part ts);
  clear = λ n. n;
  start = λ n. ok n;
  push = λ n p with_buffer. ok n;
  pop = λ n f. pop_frame (get_elem? frames n) n f;
  suggest_discard = λ n ts. n;
  clear_discard = λ n. n;
}

abbrev time : ℕ → FrameTime
time n = record { pts = pos n; dts = pos n }

abbrev file : Reader
file = record {
  opened = true;
  is_gpu = false;
  key_indices = pos 0 ∷ pos 2 ∷ [];
  pts_frame_map = (pos 0, pos 0) ∷ (pos 1, pos 1) ∷ (pos 2, pos 2) ∷ [];
  tmp_key_frame = no_frame;
  overrun = false;
  frame_ts = time 0 ∷ time 1 ∷ time 2 ∷ [];
  actv_stm_idx = pos 1;
  nb_streams = 2;
  nb_frames = pos 3;
  estimate = pos 3;
  curr_frame = pos 0;
  eof = false;
  cached_frame = no_frame;
  use_cached_frame = true;
  failed_idx = [];
  fault_tol_thresh = negsuc 0;
  fault_warn_emit = false;
  frame_size = 2;
}

abbrev limits : Limits
limits = record { rewind_retry_max = pos 8; eof_retry_max = pos 16; warns = λ n c. false }

deck_stream : Stream deck (pos 1) false frames (pos 0 ∷ pos 2 ∷ []) 0 0
deck_stream = record {
  At = λ b e n w g d. b ≡ n;
  Fed = λ b e n w d. b ≡ n;
  read = λ {b} at. elim (Bool-cases (ltb b 3)) [
    | inl t ↦ inr (inl (own_packet b, b, rw t refl, refl, refl, at))
    | inr t ↦ inl (b, rw t refl, refl, at)
  ];
  drained = λ at. at;
  pop = λ {b} {e} {n} f at lt.
      let (g, got) = get_elem?_total frames n lt in
      let at_b : get_elem? frames b ≡ some g = ap (λ j. get_elem? frames j) at ∙ got in
      inl (g, suc b, 0, 0, omega arith, omega arith, rw at_b refl, (λ le. got), ap suc at);
  start = λ {b} at. (b, refl, at);
  suggest = λ ts le all at. at;
  keep = λ at. at;
  seek = λ b backward i k f key at. (
    pos_part f.pts,
    pos_part f.pts,
    0,
    0,
    omega arith,
    omega arith,
    refl,
    refl,
    ap (λ g. pos_part g.pts) (frames-frame k at),
  );
  picture = λ n at. (
    ap (λ g. g.defined) (frames-frame n at),
    subst (λ g. 1 < g.size) (sym (frames-frame n at)) (omega arith),
  );
}

abbrev IsMapped : ℕ → Frame → Type 0
IsMapped n f = (find_key f.pts file.pts_frame_map ≡ some (pos n)) × ((f.pts ==ℤ negsuc 0) ≡ false)

file_indexed : Indexed file frames
unfolding find_key
file_indexed = record {
  opened = refl;
  counted = refl;
  some_frame = omega arith;
  ascending = ((omega arith, tt), (tt, tt));
  first_key = refl;
  keys_below = (omega arith, (omega arith, tt));
  times = λ n at. times_at n at;
  mapped = λ n at. mapped_at n at;
}
  where
    times_at :
        (n : ℕ) {f : Frame}
        → get_elem? frames n ≡ some f
        → (t : FrameTime) × (get_elem? file.frame_ts n ≡ some t) × (t.pts ≡ f.pts)
    times_at zero h = (time 0, refl, cc)
    times_at (suc zero) h = (time 1, refl, cc)
    times_at (suc (suc zero)) h = (time 2, refl, cc)
    times_at (suc (suc (suc n))) h = cc

    mapped_at : (n : ℕ) {f : Frame} → get_elem? frames n ≡ some f → IsMapped n f
    mapped_at zero h = subst (IsMapped 0) (sym (frames-frame 0 h)) (refl, refl)
    mapped_at (suc zero) h = subst (IsMapped 1) (sym (frames-frame 1 h)) (refl, refl)
    mapped_at (suc (suc zero)) h = subst (IsMapped 2) (sym (frames-frame 2 h)) (refl, refl)
    mapped_at (suc (suc (suc n))) h = cc

abbrev at_start : Moves
at_start = record { overrun = false; tmp_key_frame = no_frame; cached_frame = no_frame }

-- From the start to the last frame, a keyframe.
random_access_example :
    (s : Sys deck) × (seek_accurate deck 1 1 (sys_at deck file at_start false (pos 0) 0) (pos 2)
      ≡ ok (true, s))
    × ((d : ℕ) × (d ≤ 3)
        × Gives deck file frames 0 0 deck_stream file_indexed
            (next_frame_impl deck limits 1 1 s)
            2
            d)
unfolding deck_stream
random_access_example =
    random_access deck file frames 0 0 deck_stream file_indexed limits 1 1 at_start false 0 2 0 0
      (omega arith) (omega arith) (omega arith) (omega arith) refl (omega arith)
      (0, 0, omega arith, omega arith, refl)

abbrev wanted : List ℤ
wanted = pos 1 ∷ pos 0 ∷ pos 1 ∷ pos 2 ∷ []

get_batch_intact_example :
    (t : Sys deck) × (get_batch deck limits 1 1
        (sys_at deck file at_start false (pos 0) 0)
        wanted
        none
      ≡ ok (some (1 ∷ 9 ∷ 0 ∷ 9 ∷ 1 ∷ 9 ∷ 2 ∷ 9 ∷ []), t))
unfolding HasRoom deck_stream
get_batch_intact_example =
    get_batch_intact deck file frames 0 0 deck_stream file_indexed limits 1 1 (omega arith)
      (omega arith) (omega arith)
      (λ k f at. subst (λ g. check (fits 2 g) ≡ ok tt) (sym (frames-frame k at)) refl) wanted none
      at_start false 0 0 0
      (
        (1, refl, omega arith),
        ((0, refl, omega arith), ((1, refl, omega arith), ((2, refl, omega arith), tt))),
      )
      tt (omega arith) refl (0, 0, omega arith, omega arith, refl)

-- From the start to the last frame, a keyframe, and then past it.
held_key_frame_example :
    (s t : Sys deck) × (f : Frame) × (seek_accurate deck 1 1
        (sys_at deck file at_start false (pos 0) 0)
        (pos 2)
      ≡ ok (true, s))
    × (seek_accurate deck 1 1 s (pos 3) ≡ ok (true, s))
    × (get_elem? frames 2 ≡ some f)
    × (next_frame deck limits 1 1 s ≡ ok (f, t))
unfolding deck_stream
held_key_frame_example =
    held_key_frame deck file frames 0 0 deck_stream file_indexed limits 1 1 at_start false 0 1 2 0 0
      (omega arith) (omega arith) (omega arith) (omega arith) refl
      (0, 0, omega arith, omega arith, refl)

locate_keyframe_lem_example : Located (pos 0 ∷ pos 2 ∷ []) (pos 1) (locate_keyframe file (pos 1))
unfolding frame_count
locate_keyframe_lem_example =
    locate_keyframe_lem file (pos 3) (pos 1) ((omega arith, tt), (tt, tt))
      (omega arith, (omega arith, tt)) refl

abbrev after : Sys deck
after = record { reader = record file { curr_frame = pos 1; cached_frame = frame 0 }; back = 1 }

taken :
    frames_of deck limits 1 1 2 (pos 3) [] (pos 0 ∷ pos 0 ∷ []) (record { reader = file; back = 0 })
    ≡ ok ((pos 0, 0 ∷ 9 ∷ []) ∷ (pos 0, 0 ∷ 9 ∷ []) ∷ [], after)
unfolding frames_of load_frame find_key next_frame_impl next_loop push_next frame_count cache_frame
    deliver ◌+ℤ◌
taken = refl

get_batch_lem_example :
    get_batch deck limits 1 1
      (record { reader = file; back = 0 })
      (pos 0 ∷ pos 0 ∷ [])
      (some (7 ∷ 7 ∷ 7 ∷ 7 ∷ []))
    ≡ ok (some (0 ∷ 9 ∷ 0 ∷ 9 ∷ []), after)
unfolding frame_count HasRoom
get_batch_lem_example =
    get_batch_lem deck limits 1 1 (record { reader = file; back = 0 }) (pos 0 ∷ pos 0 ∷ [])
      (some (7 ∷ 7 ∷ 7 ∷ 7 ∷ [])) (pos 3) refl refl refl taken

-- One position has failed before, and the tolerance is 1.
abbrev faulty : Reader
faulty = record file { cached_frame = frame 0; failed_idx = pos 1 ∷ []; fault_tol_thresh = pos 1 }

fetch_cached_frame_lem_example :
    Fetches faulty no_frame (pos 1) (fetch_cached_frame limits faulty no_frame (pos 1))
unfolding frame_count
fetch_cached_frame_lem_example =
    fetch_cached_frame_lem limits faulty no_frame (pos 1) (pos 3) refl refl (tt, tt)
