-- ===== src/Reader/Decode.antt =====
-- Packets in, frames out: `PushNext`, `CacheFrame`, `FetchCachedFrame`, `CheckKeyFrame` and
-- `SkipFramesImpl`. A loop gets `fuel` rounds.
use peli.Base.{
  ℕ, zero, suc, Bool, true, false, not, ◌&&◌, ◌||◌, Option, none, some, List, [], ◌∷◌, Outcome, ok,
  fatal, diverges, ◌>>=◌, ◌>>◌, check, if◌then◌else◌, leb, ◌==◌, length, ℤ, pos, negsuc, pos_part,
  ltb_ℤ, leb_ℤ, ◌==ℤ◌, ◌+ℤ◌, ◌-ℤ◌,
}
use peli.Reader.State.{Reader, Frame, no_frame, packet, end_of_file, failed, Backend, Limits, Sys}
use peli.Reader.Keyframes.{frame_count, frames_to_pts}

-- `std::map::find`.
unfoldable pub find_key {ℓ} : {A : Type ℓ} → ℤ → List (ℤ × A) → Option A
find_key k [] = none
find_key k ((j, v) ∷ m) = let rest = find_key k m in if j ==ℤ k then some v else rest

-- `std::unordered_set::insert`.
unfoldable pub insert_failed : ℤ → List ℤ → List ℤ
insert_failed p [] = p ∷ []
insert_failed p (q ∷ qs) = if q ==ℤ p then q ∷ qs else q ∷ insert_failed p qs

-- The positions `p`, `p + 1`, ... that `std::iota` writes.
unfoldable pub iota : ℕ → ℤ → List ℤ
iota zero p = []
iota (suc n) p = p ∷ iota n (p +ℤ pos 1)

-- `CacheFrame`. A cache that is not defined is first allocated at the reader's frame size.
unfoldable pub cache_frame : Reader → Frame → Reader
cache_frame r f =
    if r.use_cached_frame
    then (let cached : Frame =
          if r.cached_frame.defined
          then r.cached_frame
          else record no_frame { defined = true; size = r.frame_size } in
        if f.defined && cached.size == f.size
        then record r { cached_frame = record cached { pts = f.pts; pixels = f.pixels } }
        else record r { cached_frame = cached })
    else r

-- `FetchCachedFrame`: whether the cached frame stands in for frame `p`, and the frame.
unfoldable pub fetch_cached_frame : Limits → Reader → Frame → ℤ → Outcome (Bool × Frame × Reader)
fetch_cached_frame limits r f p =
    if not r.use_cached_frame || leb r.cached_frame.size 1 then ok (false, f, r) else (do
      let target : Frame =
          if not f.defined || not (f.size == r.cached_frame.size)
          then record no_frame { defined = true; size = r.frame_size }
          else f
      let frame = record target { pts = r.cached_frame.pts; pixels = r.cached_frame.pixels }
      check (target.size == r.cached_frame.size)
      let failed_idx = insert_failed p r.failed_idx
      let failed_count = length failed_idx
      check (not (leb_ℤ (pos 0) r.fault_tol_thresh && ltb_ℤ r.fault_tol_thresh (pos failed_count)))
      count ← frame_count r
      ok (
        true,
        frame,
        record r {
          failed_idx = failed_idx;
          fault_warn_emit = r.fault_warn_emit || limits.warns failed_count count;
        },
      ))

module _ (be : Backend) where
  open be use {State, read_packet, start, push, pop, suggest_discard, clear_discard}

  -- `PushNext`: one packet of the active stream goes to the decoder, or the end of the file.
  unfoldable pub push_next : ℕ → Sys be → Outcome (Sys be)
  push_next zero s = if s.reader.eof then ok s else diverges
  push_next (suc fuel) s =
      let again : State → Outcome (Sys be) = λ b. push_next fuel (record s { back = b }) in
      if s.reader.eof
      then ok s
      else (let (read, b) = read_packet s.back in
          elim read [
            | end_of_file ↦ (do
              b' ← push b none s.reader.is_gpu
              ok (record { reader = record s.reader { eof = true }; back = b' }))
            | failed ↦ fatal
            | packet p ↦
                if p.stream_index ==ℤ s.reader.actv_stm_idx
                then (do b' ← push b (some p) s.reader.is_gpu; ok (record s { back = b' }))
                else again b
          ])

  -- `do { PushNext(); ret = decoder_->Pop(&frame); } while (!ret)`.
  unfoldable pub pop_next : ℕ → ℕ → Sys be → Frame → Outcome (Frame × Sys be)
  pop_next feed zero s f = diverges
  pop_next feed (suc fuel) s f = do
    s₁ ← push_next feed s
    (ret, f', b) ← pop s₁.back f
    let again = pop_next feed fuel (record s₁ { back = b }) f'
    if ret then ok (f', record s₁ { back = b }) else again

  -- The outcome of `CheckKeyFrame` once a frame is there.
  unfoldable pub judge_key_frame : Sys be → Frame → Outcome (Bool × Sys be)
  judge_key_frame s f =
      if s.reader.eof && (f.pts ==ℤ negsuc 0)
      then (do
        count ← frame_count s.reader
        ok (false, record s { reader = record s.reader { curr_frame = count } }))
      else if f.pts ==ℤ negsuc 0
      then fatal
      else (let found : ℤ = elim (find_key f.pts s.reader.pts_frame_map) [
        | none ↦ s.reader.curr_frame
        | some i ↦ i
      ] in
          if s.reader.curr_frame ==ℤ found
          then ok (
            true,
            record s {
              reader = record s.reader {
                curr_frame = s.reader.curr_frame +ℤ pos 1;
                tmp_key_frame = f;
              };
            },
          )
          else ok (false, record s { reader = record s.reader { curr_frame = found +ℤ pos 1 } }))

  -- `CheckKeyFrame`.
  unfoldable pub check_key_frame : ℕ → ℕ → Sys be → Outcome (Bool × Sys be)
  check_key_frame feed fuel s = do
    b ← start s.back
    (f, s₁) ← pop_next feed fuel (record s { back = b }) no_frame
    judge_key_frame s₁ f

  -- The loop of `SkipFramesImpl`: each frame popped counts, whatever it is.
  unfoldable pub skip_loop : ℕ → ℕ → ℕ → Sys be → Frame → Outcome (Sys be)
  skip_loop feed fuel zero s f = ok s
  skip_loop feed fuel (suc n) s f = do
    (f', s₁) ← pop_next feed fuel s f
    skip_loop feed fuel n
        (record s₁ { reader = record s₁.reader { curr_frame = s₁.reader.curr_frame +ℤ pos 1 } }) f'

  -- `SkipFramesImpl`.
  unfoldable pub skip_frames_impl : ℕ → ℕ → Sys be → ℤ → Outcome (Sys be)
  skip_frames_impl feed fuel s num =
      if s.reader.opened
      then (do
        count ← frame_count s.reader
        let left = count -ℤ s.reader.curr_frame
        let n = if ltb_ℤ num left then num else left
        (if ltb_ℤ n (pos 1) then ok s else (do
          b ← start s.back
          pts ← frames_to_pts s.reader (iota (pos_part n) s.reader.curr_frame)
          s₁ ← skip_loop feed fuel (pos_part n) (record s { back = suggest_discard b pts }) no_frame
          ok (record s₁ { back = clear_discard s₁.back }))))
      else ok s
