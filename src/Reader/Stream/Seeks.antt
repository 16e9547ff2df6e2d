-- ===== src/Reader/Stream/Seeks.antt =====
-- `Seek` and `CheckKeyFrame` at the keyframes of an intact stream.
use peli.Base.{
  ℕ, suc, ◌≡◌, ◌≤◌, ◌<◌, inl, inr, refl, ap, ◌∙◌, subst, Bool, true, false, some, List, arith, ok,
  length, get_elem?, get_elem?_total, ℤ, pos, ◌==ℤ◌, ltb_ℤ, Bool-cases,
}
use peli.Reader.State.{Reader, Frame, no_frame, Backend, Sys}
use peli.Reader.Keyframes.{frame_to_pts, index}
use peli.Reader.Decode.{judge_key_frame, check_key_frame}
use peli.Reader.Seek.{seek_tries, seek}
use peli.Reader.Stream.{Stream, Indexed, Moves, sys_at, reader_at}
use peli.Reader.Stream.Feed.{Stands, pop_next_lem}
use peli.Reader.Stream.Skip.{next_place}

abbrev pub uncached : Moves → Moves
uncached m = record m { cached_frame = no_frame }

seek_steps :
    (be : Backend) (s : Sys be) (p ts : ℤ) (b b' : be.State)
    → s.reader.opened ≡ true
    → (s.reader.curr_frame ==ℤ p) ≡ false
    → frame_to_pts (record s.reader { cached_frame = no_frame; eof = false }) p ≡ ok ts
    → seek_tries be (be.clear s.back) ts p (ltb_ℤ p s.reader.curr_frame) ≡ (true, b)
    → be.start b ≡ ok b'
    → seek be s p
      ≡ ok (
        true,
        record {
          reader = record s.reader { cached_frame = no_frame; eof = false; curr_frame = p };
          back = b';
        },
      )
unfolding seek
seek_steps be s p ts b b' opened away times found started =
    rw (away, times, found, started, opened) refl

seek_stay :
    (be : Backend) (s : Sys be) (p : ℤ)
    → s.reader.opened ≡ true
    → (s.reader.curr_frame ==ℤ p) ≡ true
    → seek be s p ≡ ok (true, s)
unfolding seek
seek_stay be s p opened here = rw (here, opened) refl

seek_tries_first :
    (be : Backend) (b : be.State) (ts p : ℤ) (backward : Bool) (b' : be.State)
    → be.seek_file b ts backward false ≡ (true, b')
    → seek_tries be b ts p backward ≡ (true, b')
unfolding seek_tries
seek_tries_first be b ts p true b' found = rw found refl
seek_tries_first be b ts p false b' found = rw found refl

module _ (be : Backend) (r : Reader) (frames : List Frame) (wait gap : ℕ)
    (stream : Stream be r.actv_stm_idx r.is_gpu frames r.key_indices wait gap)
    (indexed : Indexed r frames) where
  pub seek_tries_lem :
      (b : be.State) (backward : Bool) (i k : ℕ) (f : Frame)
      → get_elem? r.key_indices i ≡ some (pos k)
      → get_elem? frames k ≡ some f
      → (b' : be.State) × (b'' : be.State) × (seek_tries be (be.clear b) f.pts (pos k) backward
          ≡ (true, b'))
        × (be.start b' ≡ ok b'')
        × Stands be r frames wait gap stream b'' false k 0
  seek_tries_lem b backward i k f key at =
      let (b', b'', v, h, lv, lh, found, started, stands) = stream.seek b backward i k f key at in
      (
        b',
        b'',
        seek_tries_first be (be.clear b) f.pts (pos k) backward b' found,
        started,
        (v, h, lv, lh, stands),
      )

  frame_to_pts_lem :
      (m : Moves) (e : Bool) (c : ℤ) (k : ℕ) (f : Frame)
      → get_elem? frames k ≡ some f
      → frame_to_pts (reader_at r m e c) (pos k) ≡ ok f.pts
  unfolding frame_to_pts index
  frame_to_pts_lem m e c k f at = let (t, time, same) = indexed.times k at in rw (time) (ap ok same)

  -- `Seek` to a keyframe that the reader is not at.
  pub seek_away :
      (m : Moves) (e : Bool) (n : ℕ) (b : be.State) (i k : ℕ)
      → (pos n ==ℤ pos k) ≡ false
      → get_elem? r.key_indices i ≡ some (pos k)
      → k < length frames
      → (b' : be.State) × (seek be (sys_at be r m e (pos n) b) (pos k)
          ≡ ok (true, sys_at be r (uncached m) false (pos k) b'))
        × Stands be r frames wait gap stream b' false k 0
  seek_away m e n b i k away key lt =
      let (f, at) = get_elem?_total frames k lt in
      let (b', b'', found, started, stands) =
        seek_tries_lem b (ltb_ℤ (pos k) (pos n)) i k f key at in
      let steps =
        seek_steps be (sys_at be r m e (pos n) b) (pos k) f.pts b' b'' indexed.opened away
          (frame_to_pts_lem (uncached m) false (pos n) k f at) found started in
      (b'', steps, stands)

  -- `Seek` to a keyframe from wherever the reader stands.
  pub seek_lem :
      (m : Moves) (e : Bool) (n : ℕ) (b : be.State) (d i k : ℕ)
      → Stands be r frames wait gap stream b e n d
      → d ≤ n
      → get_elem? r.key_indices i ≡ some (pos k)
      → k < length frames
      → (m' : Moves) × (e' : Bool) × (b' : be.State) × (d' : ℕ) × (d' ≤ k)
        × ((m'.overrun ≡ m.overrun) × (m'.tmp_key_frame ≡ m.tmp_key_frame))
        × (seek be (sys_at be r m e (pos n) b) (pos k) ≡ ok (true, sys_at be r m' e' (pos k) b'))
        × Stands be r frames wait gap stream b' e' k d'
  seek_lem m e n b d i k at ld key lt = elim (Bool-cases (pos n ==ℤ pos k)) [
    | inl t ↦
        let same : n ≡ k = ground arith in
        (
          m,
          e,
          b,
          d,
          omega arith,
          (refl, refl),
          seek_stay be (sys_at be r m e (pos n) b) (pos k) indexed.opened t
              ∙ ap (λ j. ok (true, sys_at be r m e (pos j) b)) same,
          subst (λ j. Stands be r frames wait gap stream b e j d) same at,
        )
    | inr f ↦
        let (b', sought, stands) = seek_away m e n b i k f key lt in
        (uncached m, false, b', 0, omega arith, (refl, refl), sought, stands)
  ]

  judge_key_frame_lem :
      (m : Moves) (e : Bool) (k : ℕ) (b : be.State) (f : Frame)
      → get_elem? frames k ≡ some f
      → judge_key_frame be (sys_at be r m e (pos k) b) f
        ≡ ok (true, sys_at be r (record m { tmp_key_frame = f }) e (pos (suc k)) b)
  unfolding judge_key_frame
  judge_key_frame_lem m e k b f at =
      let (found, stamped) = indexed.mapped k at in
      let same : (pos k ==ℤ pos k) ≡ true = ground arith in
      elim (Bool-cases e) [
        | inl t ↦ rw (t, stamped, found, same, next_place k) refl
        | inr t ↦ rw (t, stamped, found, same, next_place k) refl
      ]

  -- `CheckKeyFrame` before a keyframe decodes it and keeps it.
  pub check_key_frame_lem :
      (feed fuel : ℕ) (m : Moves) (e : Bool) (k : ℕ) (b : be.State) (d : ℕ)
      → gap < feed
      → wait < fuel
      → k < length frames
      → d ≤ k
      → Stands be r frames wait gap stream b e k d
      → (f : Frame) × (get_elem? frames k ≡ some f)
        × ((e' : Bool) × (b' : be.State) × (check_key_frame be feed fuel (sys_at be r m e (pos k) b)
              ≡ ok (true, sys_at be r (record m { tmp_key_frame = f }) e' (pos (suc k)) b'))
            × Stands be r frames wait gap stream b' e' (suc k) d)
  unfolding check_key_frame
  check_key_frame_lem feed fuel m e k b d lf lw lt ld (w, g, hw, hg, at) =
      let (b₁, started, at₁) = stream.start at in
      let (e', b', f, popped, frame, stands) =
        pop_next_lem be r frames wait gap stream feed fuel m e (pos k) b₁ no_frame lf (omega arith)
          hg lt at₁ in
      (
        f,
        frame ld,
        (e', b', rw (started, popped) (judge_key_frame_lem m e' k b' f (frame ld)), stands),
      )
