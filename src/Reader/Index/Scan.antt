-- ===== src/Reader/Index/Scan.antt =====
-- `IndexKeyframes` on a file whose packets can all be read.
use mathlib.Core.List.{Perm}
use peli.Base.{
  ℕ, zero, suc, ◌≡◌, ◌≤◌, ◌<◌, inl, inr, refl, sym, ap, ◌∙◌, Bool, true, false, some, List, [], ◌∷◌,
  ◌++◌, arith, ok, ◌>>=◌, if◌then◌else◌, ltb, length, length-perm, get_elem?, append_assoc,
  append_nil, ℤ, pos, leb_ℤ, ◌==ℤ◌, Bool-cases,
}
use peli.Reader.State.{Reader, FrameTime, Packet, packet, end_of_file, Backend, Sys}
use peli.Reader.Keyframes.{frame_count}
use peli.Reader.Decode.{find_key}
use peli.Reader.Seek.{seek}
use peli.Reader.Index.{time_of, sort_times, map_times, note_packet, index_loop, index_keyframes}
use peli.Reader.Index.Times.{IsOrdered, sort_times-IsOrdered, perm-sort_times, map_times_lem}

-- The packets of the stream `active`.
abbrev pub packets_of : ℤ → List Packet → List Packet
packets_of active [] = []
packets_of active (p ∷ ps) =
    let rest = packets_of active ps in if p.stream_index ==ℤ active then p ∷ rest else rest

abbrev pub times_of : List Packet → List FrameTime
times_of [] = []
times_of (p ∷ ps) = time_of p ∷ times_of ps

-- The places of the keyframes, where the first packet is at place `n`.
abbrev pub key_places : ℕ → List Packet → List ℤ
key_places n [] = []
key_places n (p ∷ ps) = let rest = key_places (suc n) ps in if p.is_key then pos n ∷ rest else rest

-- The reader with what a scan has found so far.
abbrev found_so_far : Reader → List FrameTime → List ℤ → Reader
found_so_far r ts ks = record r { frame_ts = ts; key_indices = ks }

append_if :
    (b : Bool) (ks : List ℤ) (k : ℤ) (rest : List ℤ)
    → (if b then ks ++ (k ∷ []) else ks) ++ rest ≡ ks ++ (if b then k ∷ rest else rest)
append_if true ks k rest = append_assoc ks (k ∷ []) rest
append_if false ks k rest = refl

-- The reader with the index of the packets `ps`, at the end of the file.
abbrev pub indexed_reader : Reader → List Packet → Reader
indexed_reader r ps =
    let own = packets_of r.actv_stm_idx ps in
    record r {
      frame_ts = sort_times (times_of own);
      key_indices = key_places 0 own;
      pts_frame_map = map_times 0 (sort_times (times_of own)) r.pts_frame_map;
      curr_frame = pos (length (sort_times (times_of own)));
    }

length-times_of : (ps : List Packet) → length (times_of ps) ≡ length ps
length-times_of [] = refl
length-times_of (p ∷ ps) = ap suc (length-times_of ps)

frame_count_timed :
    (r : Reader)
    → r.opened ≡ true
    → 0 < length r.frame_ts
    → frame_count r ≡ ok (pos (length r.frame_ts))
unfolding frame_count
frame_count_timed r opened some_time =
    let timed : ltb 0 (length r.frame_ts) ≡ true = ground arith in rw (timed, opened) refl

module _ (be : Backend) where
  -- Reading gives the packets `ps` and then the end of the file.
  abbrev pub Feeds : be.State → List Packet → be.State → Type 0
  Feeds b [] end = ((be.read_packet b).0 ≡ end_of_file) × ((be.read_packet b).1 ≡ end)
  Feeds b (p ∷ ps) end = ((be.read_packet b).0 ≡ packet p) × Feeds (be.read_packet b).1 ps end

  index_loop_lem :
      (ps : List Packet) (fuel : ℕ) (b end : be.State) (r : Reader) (ts : List FrameTime)
      (ks : List ℤ) (n : ℕ)
      → length ps < fuel
      → Feeds b ps end
      → index_loop be fuel b (found_so_far r ts ks) n ≡ (
          let own = packets_of r.actv_stm_idx ps in
          ok (found_so_far r (ts ++ times_of own) (ks ++ key_places n own), end))
  unfolding index_loop note_packet
  index_loop_lem ps zero b end r ts ks n lt h = absurd (omega arith)
  index_loop_lem [] (suc fuel) b end r ts ks n lt (over, here) =
      rw (index_loop, over, here, append_nil ts, append_nil ks) refl
  index_loop_lem (p ∷ ps) (suc fuel) b end r ts ks n lt (got, h) =
      elim (Bool-cases (p.stream_index ==ℤ r.actv_stm_idx)) [
        | inl own ↦
            let rest = packets_of r.actv_stm_idx ps in
            let all = ts ++ (time_of p ∷ times_of rest) in
            let keys = (if p.is_key then ks ++ (pos n ∷ []) else ks) ++ key_places (suc n) rest in
            let later =
              index_loop_lem ps fuel (be.read_packet b).1 end r (ts ++ (time_of p ∷ []))
                (if p.is_key then ks ++ (pos n ∷ []) else ks) (suc n) (omega arith) h in
            rw (index_loop, got, own)
              (later
                ∙ ap (λ l. ok (found_so_far r l keys, end))
                    (append_assoc ts (time_of p ∷ []) (times_of rest))
                ∙ ap (λ l. ok (found_so_far r all l, end))
                    (append_if p.is_key ks (pos n) (key_places (suc n) rest)))
        | inr other ↦
            rw (index_loop, got, other)
              (index_loop_lem ps fuel (be.read_packet b).1 end r ts ks n (omega arith) h)
      ]

  index_keyframes_eq :
      (fuel : ℕ) (s : Sys be) (ps : List Packet) (end : be.State) (expected : ℤ)
      → leb_ℤ (pos 0) s.reader.actv_stm_idx ≡ true
      → frame_count (found_so_far s.reader [] []) ≡ ok expected
      → s.reader.opened ≡ true
      → 0 < length (packets_of s.reader.actv_stm_idx ps)
      → length ps < fuel
      → Feeds s.back ps end
      → index_keyframes be fuel s ≡ (
          seek be (record { reader = indexed_reader s.reader ps; back = end }) (pos 0) >>= λ x.
          ok x.1)
  unfolding index_keyframes
  index_keyframes_eq fuel s ps end expected active counted opened some_own lt h =
      let own = packets_of s.reader.actv_stm_idx ps in
      let scanned = index_loop_lem ps fuel s.back end s.reader [] [] 0 lt h in
      let sorted : length (sort_times (times_of own)) ≡ length own =
        sym (length-perm (perm-sort_times (times_of own))) ∙ length-times_of own in
      let total =
        frame_count_timed (record (indexed_reader s.reader ps) { curr_frame = s.reader.curr_frame })
          opened (omega arith) in
      rw (active, counted, scanned, total) refl

  -- On a reader with a file, an active stream, a frame count to reserve for and an empty map, with
  -- fuel above the number of packets, where reading gives the packets `ps` and then the end of the
  -- file and some packet is of the active stream: `IndexKeyframes` is a `Seek` to frame 0, whose
  -- failure it passes over, from the index of those packets. The index holds the times of the active
  -- stream's packets, in ascending order of pts, the places of the keyframes counted in the order of
  -- the file, and a map that takes the pts of every frame to the first frame of the same pts.
  pub index_keyframes_lem :
      (fuel : ℕ) (s : Sys be) (ps : List Packet) (end : be.State) (expected : ℤ)
      → leb_ℤ (pos 0) s.reader.actv_stm_idx ≡ true
      → frame_count (found_so_far s.reader [] []) ≡ ok expected
      → s.reader.opened ≡ true
      → s.reader.pts_frame_map ≡ []
      → 0 < length (packets_of s.reader.actv_stm_idx ps)
      → length ps < fuel
      → Feeds s.back ps end
      → let q = indexed_reader s.reader ps in
        (index_keyframes be fuel s
          ≡ (seek be (record { reader = q; back = end }) (pos 0) >>= λ x. ok x.1))
        × IsOrdered q.frame_ts
        × Perm (times_of (packets_of s.reader.actv_stm_idx ps)) q.frame_ts
        × ((j : ℕ) (t : FrameTime)
            → get_elem? q.frame_ts j ≡ some t
            → (k : ℕ) × (u : FrameTime) × (find_key t.pts q.pts_frame_map ≡ some (pos k))
              × (k ≤ j)
              × (get_elem? q.frame_ts k ≡ some u)
              × (u.pts ≡ t.pts))
  index_keyframes_lem fuel s ps end expected active counted opened empty some_own lt h =
      let own = packets_of s.reader.actv_stm_idx ps in
      let times = sort_times (times_of own) in
      (
        index_keyframes_eq fuel s ps end expected active counted opened some_own lt h,
        sort_times-IsOrdered (times_of own),
        perm-sort_times (times_of own),
        λ j t at.
            let (k, u, found, le, at_k, same) = map_times_lem times j t at in
            (k, u, ap (λ m. find_key t.pts (map_times 0 times m)) empty ∙ found, le, at_k, same),
      )
