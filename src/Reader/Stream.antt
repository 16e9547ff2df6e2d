-- ===== src/Reader/Stream.antt =====
-- What the reader relies on of FFmpeg and the decoder on a file without damage, for a file whose
-- packets give the frames `frames` in order of their pts.
pub mod Feed
pub mod Skip
pub mod Seeks
pub mod Next
pub mod Access
pub mod Batches
use peli.Base.{
  ℕ, suc, ◌+◌, ◌≡◌, ◌≤◌, ◌<◌, ◌⊎◌, Bool, true, false, ◌&&◌, Option, none, some, List, [], ◌∷◌,
  Outcome, ok, length, get_elem?, All, ℤ, pos, negsuc, ◌==ℤ◌, ◌<ℤ◌,
}
use peli.Reader.State.{Reader, Frame, FrameTime, Packet, Read, packet, end_of_file, Backend, Sys}
use peli.Reader.Decode.{find_key}
use peli.Reader.Keyframes.Locate.{Ascending}

-- An array that holds no picture, and does not say that draining is over.
abbrev pub IsSmall : Frame → Type 0
IsSmall f = (f.size ≤ 1) × ((f.defined && f.is_int64) ≡ false)

-- `At b eof n w g d`: the next frame that comes out is frame `n`, after at most `w` pops that give
-- nothing; at most `g` packets of other streams come before the next one of this stream; and
-- frames before frame `d` may come out without their contents. `Fed` is the same after a packet
-- was pushed. `wait` and `gap` bound `w` and `g`.
pub record Stream (be : Backend) (active : ℤ) (gpu : Bool) (frames : List Frame) (keys : List ℤ)
    (wait gap : ℕ) : Type 1 where
  pub At : be.State → Bool → ℕ → ℕ → ℕ → ℕ → Type 0
  pub Fed : be.State → Bool → ℕ → ℕ → ℕ → Type 0
  pub read :
      {b : be.State} {n w g d : ℕ}
      → At b false n w g d
      → ((b' : be.State) × ((be.read_packet b).0 ≡ end_of_file)
          × (be.push (be.read_packet b).1 none gpu ≡ ok b')
          × Fed b' true n w d)
        ⊎ (((p : Packet) × (b' : be.State) × ((be.read_packet b).0 ≡ packet p)
              × ((p.stream_index ==ℤ active) ≡ true)
              × (be.push (be.read_packet b).1 (some p) gpu ≡ ok b')
              × Fed b' false n w d)
            ⊎ ((p : Packet) × (h : ℕ) × (g ≡ suc h)
                × ((be.read_packet b).0 ≡ packet p)
                × ((p.stream_index ==ℤ active) ≡ false)
                × At (be.read_packet b).1 false n w h d))
  pub drained : {b : be.State} {n w g d : ℕ} → At b true n w g d → Fed b true n w d
  pub pop :
      {b : be.State} {e : Bool} {n w d : ℕ} (f : Frame)
      → Fed b e n w d
      → n < length frames
      → ((f' : Frame) × (b' : be.State) × (v : ℕ) × (h : ℕ) × (v ≤ wait)
          × (h ≤ gap)
          × (be.pop b f ≡ ok (true, f', b'))
          × (d ≤ n → get_elem? frames n ≡ some f')
          × At b' e (suc n) v h d)
        ⊎ ((f' : Frame) × (b' : be.State) × (v : ℕ) × (h : ℕ) × (w ≡ suc v)
            × (h ≤ gap)
            × (be.pop b f ≡ ok (false, f', b'))
            × (IsSmall f → IsSmall f')
            × At b' e n v h d)
  pub start :
      {b : be.State} {e : Bool} {n w g d : ℕ}
      → At b e n w g d
      → (b' : be.State) × (be.start b ≡ ok b') × At b' e n w g d
  pub suggest :
      {b : be.State} {e : Bool} {n w g d : ℕ} (ts : List ℤ)
      → d ≤ n
      → ((i : ℕ) (t : ℤ)
          → get_elem? ts i ≡ some t
          → (f : Frame) × (get_elem? frames (n + i) ≡ some f) × (f.pts ≡ t))
      → At b e n w g d
      → At (be.suggest_discard b ts) e n w g (n + length ts)
  pub keep :
      {b : be.State} {e : Bool} {n w g d : ℕ} → At b e n w g d → At (be.clear_discard b) e n w g d
  pub seek :
      (b : be.State) (backward : Bool) (i k : ℕ) (f : Frame)
      → get_elem? keys i ≡ some (pos k)
      → get_elem? frames k ≡ some f
      → (b' : be.State) × (b'' : be.State) × (v : ℕ) × (h : ℕ) × (v ≤ wait)
        × (h ≤ gap)
        × (be.seek_file (be.clear b) f.pts backward false ≡ (true, b'))
        × (be.start b' ≡ ok b'')
        × At b'' false k v h 0
  pub picture :
      (n : ℕ) {f : Frame} → get_elem? frames n ≡ some f → (f.defined ≡ true) × (1 < f.size)

-- What `IndexKeyframes` has found of that file.
pub record Indexed (r : Reader) (frames : List Frame) : Type 0 where
  pub opened : r.opened ≡ true
  pub counted : length r.frame_ts ≡ length frames
  pub some_frame : 0 < length frames
  pub ascending : Ascending r.key_indices
  pub first_key : get_elem? r.key_indices 0 ≡ some (pos 0)
  pub keys_below : All (λ k. k <ℤ pos (length frames)) r.key_indices
  pub times :
      (n : ℕ) {f : Frame}
      → get_elem? frames n ≡ some f
      → (t : FrameTime) × (get_elem? r.frame_ts n ≡ some t) × (t.pts ≡ f.pts)
  pub mapped :
      (n : ℕ) {f : Frame}
      → get_elem? frames n ≡ some f
      → (find_key f.pts r.pts_frame_map ≡ some (pos n)) × ((f.pts ==ℤ negsuc 0) ≡ false)

-- The fields that seeking and decoding change.
pub record Moves : Type 0 where
  pub overrun : Bool
  pub tmp_key_frame : Frame
  pub cached_frame : Frame

-- The state of the reader `r` at `curr_frame`, with what else has changed.
abbrev pub reader_at : Reader → Moves → Bool → ℤ → Reader
reader_at r m e c = record r {
  overrun = m.overrun;
  tmp_key_frame = m.tmp_key_frame;
  cached_frame = m.cached_frame;
  eof = e;
  curr_frame = c;
}

abbrev pub sys_at : (be : Backend) → Reader → Moves → Bool → ℤ → be.State → Sys be
sys_at be r m e c b = record { reader = reader_at r m e c; back = b }
