-- ===== src/Reader/Seek.antt =====
-- `Seek`, `SeekAccurate`, `SkipFrames` and `NextFrame`.
use peli.Base.{
  ℕ, zero, suc, Bool, true, false, not, ◌&&◌, ◌||◌, Option, none, some, List, Outcome, ok, fatal,
  diverges, ◌>>=◌, ◌>>◌, check, or_fatal, if◌then◌else◌, ltb, leb, get_elem?, ℤ, pos, ltb_ℤ, leb_ℤ,
  ◌==ℤ◌, ◌+ℤ◌, ◌-ℤ◌,
}
use peli.Reader.State.{Frame, no_frame, empty_frame, Backend, Limits, Sys}
use peli.Reader.Keyframes.{frame_count, frame_to_pts, locate_keyframe, upper_bound}
use peli.Reader.Decode.{
  cache_frame, fetch_cached_frame, push_next, check_key_frame, skip_frames_impl,
}

module _ (be : Backend) where
  open be use {State, seek_file, clear, start, pop}

  -- The three tries of `Seek`: as the direction says, backward, and by frame number.
  unfoldable pub seek_tries : State → ℤ → ℤ → Bool → Bool × State
  seek_tries b ts p backward =
      let (found, b₁) = seek_file b ts backward false in
      let (found', b₂) =
        if not backward && not found then seek_file b₁ ts true false else (found, b₁) in
      if found' then (found', b₂) else seek_file b₂ p true true

  -- `Seek`.
  unfoldable pub seek : Sys be → ℤ → Outcome (Bool × Sys be)
  seek s p =
      if not s.reader.opened
      then ok (false, s)
      else if s.reader.curr_frame ==ℤ p
      then ok (true, s)
      else (do
        let r = record s.reader { cached_frame = no_frame; eof = false }
        ts ← frame_to_pts r p
        let (found, b) = seek_tries (clear s.back) ts p (ltb_ℤ p r.curr_frame)
        b' ← start b
        ok (found, record { reader = if found then record r { curr_frame = p } else r; back = b' }))

  -- `SeekAccurate` from a keyframe whose frame is `p`'s or comes before it, by what
  -- `CheckKeyFrame` found.
  unfoldable pub seek_on : ℕ → ℕ → Sys be → ℤ → ℤ → Bool → Outcome (Bool × Sys be)
  seek_on feed fuel s p key_pos true =
      if ltb_ℤ (pos 0) (p -ℤ key_pos)
      then (do t ← skip_frames_impl be feed fuel s (p -ℤ s.reader.curr_frame); ok (true, t))
      else if p -ℤ key_pos ==ℤ pos 0
      then ok (true, record s { reader = record s.reader { overrun = true } })
      else ok (true, s)
  seek_on feed fuel s p key_pos false =
      if ltb_ℤ s.reader.curr_frame p
      then (do t ← skip_frames_impl be feed fuel s (p -ℤ s.reader.curr_frame); ok (true, t))
      else (do
        key ← locate_keyframe s.reader p
        (_, t) ← seek s key
        u ← skip_frames_impl be feed fuel t (p -ℤ key)
        ok (true, u))

  -- The seeks of `SeekAccurate`: to the start, to the keyframe, and on.
  unfoldable pub seek_via : ℕ → ℕ → Sys be → ℤ → ℤ → Outcome (Bool × Sys be)
  seek_via feed fuel s p key_pos = do
    (at_start, s₁) ← seek s (pos 0)
    (if not at_start then ok (false, s₁) else (do
      (at_key, s₂) ← seek s₁ key_pos
      (if not at_key then ok (false, s₂) else (do
        (exact, s₃) ← check_key_frame be feed fuel s₂
        seek_on feed fuel s₃ p key_pos exact))))

  -- `SeekAccurate`.
  unfoldable pub seek_accurate : ℕ → ℕ → Sys be → ℤ → Outcome (Bool × Sys be)
  seek_accurate feed fuel s p =
      if not s.reader.opened
      then ok (false, s)
      else if s.reader.curr_frame ==ℤ p
      then ok (true, s)
      else (do
        key_pos ← locate_keyframe s.reader p
        curr_key_pos ← locate_keyframe s.reader s.reader.curr_frame
        let s₁ : Sys be = record s { reader = record s.reader { overrun = false } }
        (if not (key_pos ==ℤ curr_key_pos) || ltb_ℤ p s.reader.curr_frame
            then seek_via feed fuel s₁ p key_pos
            else (do
              t ← skip_frames_impl be feed fuel s₁ (p -ℤ s₁.reader.curr_frame)
              ok (true, t))))

  -- Where the first keyframe above `p` is, less one: `std::upper_bound(...) - 1` as an index,
  -- which must not be negative.
  unfoldable pub bound_before : List ℤ → ℤ → Outcome (ℕ × ℤ)
  bound_before ks p = elim (upper_bound ks p) [
    | zero ↦ fatal
    | suc i ↦ (do k ← or_fatal (get_elem? ks i); ok (i, k))
  ]

  -- `SkipFrames`.
  unfoldable pub skip_frames : ℕ → ℕ → Sys be → ℤ → Outcome (Sys be)
  skip_frames feed fuel s num = if not s.reader.opened || ltb_ℤ num (pos 1) then ok s else (do
    count ← frame_count s.reader
    let left = count -ℤ s.reader.curr_frame
    let n = if ltb_ℤ num left then num else left
    (i₁, k₁) ← bound_before s.reader.key_indices s.reader.curr_frame
    (i₂, k₂) ← bound_before s.reader.key_indices (s.reader.curr_frame +ℤ n)
    (if ltb i₁ i₂
        then (do
          (_, t) ← seek s k₂
          skip_frames_impl be feed fuel t (n +ℤ (s.reader.curr_frame -ℤ k₂)))
        else skip_frames_impl be feed fuel s n))

  -- What a round of `NextFrameImpl` makes of a popped array of at most one element: the frame to
  -- return, or the reader to go on with and the two retry counters.
  unfoldable pub small_frame :
      Limits → ℕ → ℕ → Sys be → Frame → ℤ → ℤ → Outcome (Option Frame × Sys be × ℤ × ℤ)
  small_frame limits feed fuel s f rewind_offset retry =
      if f.defined && f.is_int64
      then (do
        (fetched, f', r) ← fetch_cached_frame limits s.reader f s.reader.curr_frame
        (if fetched then ok (some f', record s { reader = r }, rewind_offset, retry) else (do
          check (not (ltb_ℤ limits.rewind_retry_max rewind_offset))
          (_, t) ← seek_accurate feed fuel s (s.reader.curr_frame -ℤ rewind_offset)
          ok (none, t, rewind_offset +ℤ pos 1, retry))))
      else if s.reader.eof && ltb_ℤ limits.eof_retry_max retry
      then (do
        (fetched, f', r) ← fetch_cached_frame limits s.reader f s.reader.curr_frame
        if fetched then ok (some f', record s { reader = r }, rewind_offset, retry) else fatal)
      else ok (none, s, rewind_offset, retry +ℤ pos 1)

  -- The end of `NextFrameImpl`: a frame that is defined moves the reader on.
  unfoldable pub deliver : Sys be → Frame → Frame × Sys be
  deliver s f =
      if f.defined
      then (
        f,
        record s {
          reader = cache_frame (record s.reader { curr_frame = s.reader.curr_frame +ℤ pos 1 }) f;
        },
      )
      else (f, s)

  -- The loop of `NextFrameImpl`.
  unfoldable pub next_loop : Limits → ℕ → ℕ → ℕ → Sys be → Frame → ℤ → ℤ → Outcome (Frame × Sys be)
  next_loop limits feed fuel zero s f rewind_offset retry = diverges
  next_loop limits feed fuel (suc rounds) s f rewind_offset retry = do
    s₁ ← push_next be feed s
    count ← frame_count s₁.reader
    (if leb_ℤ count s₁.reader.curr_frame then ok (empty_frame, s₁) else (do
      (ret, f', b) ← pop s₁.back f
      let s₂ : Sys be = record s₁ { back = b }
      (if leb f'.size 1
          then (do
            (result, s₃, offset', retry') ← small_frame limits feed fuel s₂ f' rewind_offset retry
            elim result [
              | some g ↦ ok (deliver s₃ g)
              | none ↦ next_loop limits feed fuel rounds s₃ f' offset' retry'
            ])
          else (let again = next_loop limits feed fuel rounds s₂ f' rewind_offset retry in
              if ret then ok (deliver s₂ f') else again))))

  -- `NextFrameImpl`.
  unfoldable pub next_frame_impl : Limits → ℕ → ℕ → Sys be → Outcome (Frame × Sys be)
  next_frame_impl limits feed fuel s =
      if s.reader.overrun
      then ok (s.reader.tmp_key_frame, record s { reader = record s.reader { overrun = false } })
      else (do
        b ← start s.back
        next_loop limits feed fuel fuel (record s { back = b }) no_frame (pos 0) (pos 0))

  -- `NextFrame`.
  unfoldable pub next_frame : Limits → ℕ → ℕ → Sys be → Outcome (Frame × Sys be)
  next_frame limits feed fuel s =
      if not s.reader.opened then ok (no_frame, s) else next_frame_impl limits feed fuel s
