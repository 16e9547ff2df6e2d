-- ===== src/Reader/Index.antt =====
-- `IndexKeyframes` (video_reader.cc): the times and the keyframes of a file, from its packets.
pub mod Times
pub mod Scan
mod Tests
use peli.Base.{
  ℕ, zero, suc, Bool, true, false, List, [], ◌∷◌, ◌++◌, Outcome, ok, fatal, diverges, ◌>>=◌, ◌>>◌,
  check, if◌then◌else◌, ℤ, pos, ltb_ℤ, leb_ℤ, ◌==ℤ◌, ◌+ℤ◌,
}
use peli.Reader.State.{Reader, FrameTime, Packet, Read, packet, end_of_file, failed, Backend, Sys}
use peli.Reader.Keyframes.{frame_count}
use peli.Reader.Seek.{seek}

abbrev pub time_of : Packet → FrameTime
time_of p = record { pts = p.pts; dts = p.dts }

-- `std::sort` by pts. The standard library leaves the order of equal times open; here
-- it is the reverse of theirs in the file, and no theorem depends on it.
unfoldable pub insert_time : FrameTime → List FrameTime → List FrameTime
insert_time t [] = t ∷ []
insert_time t (u ∷ ts) =
    let rest = insert_time t ts in if ltb_ℤ t.pts u.pts then t ∷ u ∷ ts else u ∷ rest

unfoldable pub sort_times : List FrameTime → List FrameTime
sort_times [] = []
sort_times (t ∷ ts) = insert_time t (sort_times ts)

-- `std::map::insert`, which keeps the value of a key that is there.
unfoldable pub insert_key : ℤ → ℤ → List (ℤ × ℤ) → List (ℤ × ℤ)
insert_key k v [] = (k, v) ∷ []
insert_key k v ((j, w) ∷ m) =
    let rest = insert_key k v m in if j ==ℤ k then (j, w) ∷ m else (j, w) ∷ rest

-- The loop that fills `pts_frame_map_`, from frame `i`.
unfoldable pub map_times : ℕ → List FrameTime → List (ℤ × ℤ) → List (ℤ × ℤ)
map_times i [] m = m
map_times i (t ∷ ts) m = map_times (suc i) ts (insert_key t.pts (pos i) m)

-- The reader after a packet of the active stream, the `count`th one.
unfoldable pub note_packet : Reader → ℕ → Packet → Reader
note_packet r count p = record r {
  frame_ts = r.frame_ts ++ (time_of p ∷ []);
  key_indices = if p.is_key then r.key_indices ++ (pos count ∷ []) else r.key_indices;
}

module _ (be : Backend) where
  open be use {State, read_packet}

  -- The loop over the packets of the file.
  unfoldable pub index_loop : ℕ → State → Reader → ℕ → Outcome (Reader × State)
  index_loop zero b r count = diverges
  index_loop (suc fuel) b r count =
      let (read, b') = read_packet b in
      let skip = index_loop fuel b' r count in
      let noted : Packet → Outcome (Reader × State) =
        λ p. index_loop fuel b' (note_packet r count p) (suc count) in
      elim read [
        | end_of_file ↦ ok (r, b')
        | failed ↦ fatal
        | packet p ↦ if p.stream_index ==ℤ r.actv_stm_idx then noted p else skip
      ]

  -- `IndexKeyframes`. `GetFrameCount` is asked first for the room to reserve.
  unfoldable pub index_keyframes : ℕ → Sys be → Outcome (Sys be)
  index_keyframes fuel s = do
    check (leb_ℤ (pos 0) s.reader.actv_stm_idx)
    let cleared = record s.reader { key_indices = []; frame_ts = [] }
    expected ← frame_count cleared
    (r, b) ← index_loop fuel s.back cleared 0
    let times = sort_times r.frame_ts
    let mapped = record r { frame_ts = times; pts_frame_map = map_times 0 times r.pts_frame_map }
    count ← frame_count mapped
    (found, t) ←
        seek be (record { reader = record mapped { curr_frame = count }; back = b }) (pos 0)
    ok t
