-- ===== src/Reader/Stream/Skip.antt =====
-- `SkipFramesImpl` on an intact stream: skipping `m` frames moves on by `m` frames.
use peli.Base.{
  ℕ, zero, suc, ◌+◌, ◌-◌, ◌≡◌, ◌≤◌, ◌<◌, refl, ap, ◌∙◌, subst, Bool, true, false, some, List, [],
  ◌∷◌, arith, Outcome, ok, if◌then◌else◌, ltb, length, get_elem?, get_elem?_total, ℤ, pos, ◌+ℤ◌,
  ◌-ℤ◌, ltb_ℤ, pos-+ℤ,
}
use peli.Reader.State.{Reader, Frame, no_frame, Backend, Sys}
use peli.Reader.Keyframes.{frame_count, frames_to_pts, index}
use peli.Reader.Decode.{iota, skip_loop, skip_frames_impl}
use peli.Reader.Stream.{Stream, Indexed, Moves, sys_at, reader_at}
use peli.Reader.Stream.Feed.{Stands, pop_next_lem}

pub next_place : (n : ℕ) → pos n +ℤ pos 1 ≡ pos (suc n)
next_place n = pos-+ℤ n 1 ∙ ap pos (omega arith)

pub pos--ℤ : (n k : ℕ) → k ≤ n → pos n -ℤ pos k ≡ pos (n - k)
unfolding ◌-ℤ◌
pos--ℤ n k le = ground arith

-- The count is at least the frames left, so all of `m` is skipped.
at_most : (m l : ℕ) → m ≤ l → (if ltb_ℤ (pos m) (pos l) then pos m else pos l) ≡ pos m
at_most m l le = ground arith

-- The times `ts` are those of the frames from frame `n` on.
abbrev pub HavePts : List Frame → ℕ → List ℤ → Type 0
HavePts frames n ts =
    (i : ℕ) (t : ℤ)
    → get_elem? ts i ≡ some t
    → (f : Frame) × (get_elem? frames (n + i) ≡ some f) × (f.pts ≡ t)

HavePts-cons :
    (frames : List Frame) (n : ℕ) (t : ℤ) (ts : List ℤ) (f : Frame)
    → get_elem? frames n ≡ some f
    → t ≡ f.pts
    → HavePts frames (suc n) ts
    → HavePts frames n (t ∷ ts)
HavePts-cons frames n t ts f at same all zero u h =
    (f, ap (λ k. get_elem? frames k) (omega arith) ∙ at, cc)
HavePts-cons frames n t ts f at same all (suc i) u h =
    let (g, at', same') = all i u h in (g, ap (λ k. get_elem? frames k) (omega arith) ∙ at', same')

skip_frames_impl_steps :
    (be : Backend) (feed fuel k : ℕ) (s t : Sys be) (count left num : ℤ) (b : be.State)
    (ts : List ℤ)
    → s.reader.opened ≡ true
    → frame_count s.reader ≡ ok count
    → count -ℤ s.reader.curr_frame ≡ left
    → (if ltb_ℤ num left then num else left) ≡ pos (suc k)
    → be.start s.back ≡ ok b
    → frames_to_pts s.reader (iota (suc k) s.reader.curr_frame) ≡ ok ts
    → skip_loop be feed fuel (suc k) (record s { back = be.suggest_discard b ts }) no_frame ≡ ok t
    → skip_frames_impl be feed fuel s num ≡ ok (record t { back = be.clear_discard t.back })
unfolding skip_frames_impl
skip_frames_impl_steps be feed fuel k s t count left num b ts opened counted diff all started times
      skipped =
    let more : ltb_ℤ (pos (suc k)) (pos 1) ≡ false = ground arith in
    rw (counted, diff, all, more, started, times, skipped, opened) refl

module _ (be : Backend) (r : Reader) (frames : List Frame) (wait gap : ℕ)
    (stream : Stream be r.actv_stm_idx r.is_gpu frames r.key_indices wait gap)
    (indexed : Indexed r frames) where
  open stream use {At, start, suggest, keep}

  pub count_lem :
      (m : Moves) (e : Bool) (c : ℤ) → frame_count (reader_at r m e c) ≡ ok (pos (length frames))
  unfolding frame_count
  count_lem m e c =
      let some_time : ltb 0 (length frames) ≡ true = ground (arith, indexed.some_frame) in
      rw (indexed.counted, some_time, indexed.opened) refl

  -- The pts of the frames `n`, `n + 1`, ...
  pub frames_to_pts_lem :
      (k : ℕ) (m : Moves) (e : Bool) (c : ℤ) (n : ℕ)
      → n + k ≤ length frames
      → (ts : List ℤ) × (frames_to_pts (reader_at r m e c) (iota k (pos n)) ≡ ok ts)
        × (length ts ≡ k)
        × HavePts frames n ts
  unfolding frames_to_pts iota index
  frames_to_pts_lem zero m e c n le = ([], refl, refl, λ i t h. cc)
  frames_to_pts_lem (suc k) m e c n le =
      let (f, at) = get_elem?_total frames n (omega arith) in
      let (t, time, same) = indexed.times n at in
      let (ts, later, size, all) = frames_to_pts_lem k m e c (suc n) (omega arith) in
      (
        t.pts ∷ ts,
        rw (time, next_place n, later) refl,
        ap suc size,
        HavePts-cons frames n t.pts ts f at same all,
      )

  -- The outcome `out` is that the reader stands before frame `n`.
  abbrev pub Reaches : Moves → Outcome (Sys be) → ℕ → ℕ → Type 0
  Reaches m out n d =
      (e : Bool) × (b : be.State) × (out ≡ ok (sys_at be r m e (pos n) b))
      × Stands be r frames wait gap stream b e n d

  pub skip_loop_lem :
      (k feed fuel : ℕ) (m : Moves) (e : Bool) (n : ℕ) (b : be.State) (f : Frame) (d : ℕ)
      → gap < feed
      → wait < fuel
      → n + k ≤ length frames
      → Stands be r frames wait gap stream b e n d
      → Reaches m (skip_loop be feed fuel k (sys_at be r m e (pos n) b) f) (n + k) d
  unfolding skip_loop
  skip_loop_lem zero feed fuel m e n b f d lf lw le at =
      subst (λ j. Reaches m (ok (sys_at be r m e (pos n) b)) j d) (omega arith) (e, b, refl, at)
  skip_loop_lem (suc k) feed fuel m e n b f d lf lw le (w, g, hw, hg, at) =
      let (e₁, b₁, f₁, popped, _, at₁) =
        pop_next_lem be r frames wait gap stream feed fuel m e (pos n) b f lf (omega arith) hg
          (omega arith) at in
      let (e', b', later, at') =
        skip_loop_lem k feed fuel m e₁ (suc n) b₁ f₁ d lf lw (omega arith) at₁ in
      subst (λ j. Reaches m (skip_loop be feed fuel (suc k) (sys_at be r m e (pos n) b) f) j d)
        (omega arith) (e', b', rw (popped, next_place n) later, at')

  pub skip_frames_impl_lem :
      (k feed fuel : ℕ) (m : Moves) (e : Bool) (n : ℕ) (b : be.State) (d : ℕ)
      → gap < feed
      → wait < fuel
      → n + k ≤ length frames
      → d ≤ n
      → Stands be r frames wait gap stream b e n d
      → (d' : ℕ) × (d' ≤ n + k)
        × Reaches m (skip_frames_impl be feed fuel (sys_at be r m e (pos n) b) (pos k)) (n + k) d'
  unfolding skip_frames_impl
  skip_frames_impl_lem zero feed fuel m e n b d lf lw le ld at =
      let left = pos--ℤ (length frames) n (omega arith) in
      let none_left = at_most 0 (length frames - n) (omega arith) in
      (
        d,
        omega arith,
        subst
            (λ j. Reaches m (skip_frames_impl be feed fuel (sys_at be r m e (pos n) b) (pos 0)) j d)
            (omega arith)
            (e, b, rw (count_lem m e (pos n), left, none_left, indexed.opened) refl, at),
      )
  skip_frames_impl_lem (suc k) feed fuel m e n b d lf lw le ld (w, g, hw, hg, at) =
      let left = pos--ℤ (length frames) n (omega arith) in
      let all = at_most (suc k) (length frames - n) (omega arith) in
      let (b₁, started, at₁) = start at in
      let (ts, times, size, have) = frames_to_pts_lem (suc k) m e (pos n) n le in
      let at₂ = suggest ts ld have at₁ in
      let (e', b', skipped, (w', g', hw', hg', at₃)) =
        skip_loop_lem (suc k) feed fuel m e n (be.suggest_discard b₁ ts) no_frame (n + length ts) lf
          lw le (w, g, hw, hg, at₂) in
      let steps =
        skip_frames_impl_steps be feed fuel k (sys_at be r m e (pos n) b) _ _ _ (pos (suc k)) b₁ ts
          indexed.opened (count_lem m e (pos n)) left all started times skipped in
      (n + length ts, omega arith, (e', be.clear_discard b', steps, (w', g', hw', hg', keep at₃)))
