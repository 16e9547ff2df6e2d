-- ===== src/Reader/Stream/Next.antt =====
-- `NextFrameImpl` on an intact stream.
use peli.Base.{
  ℕ, zero, suc, ◌+◌, ◌≡◌, ◌≤◌, ◌<◌, inl, inr, refl, ap, ◌∙◌, Bool, true, false, none, some, List,
  arith, Outcome, ok, if◌then◌else◌, leb, length, get_elem?, ℤ, pos, ◌≤ℤ◌, ltb_ℤ, leb_ℤ, Bool-cases,
}
use peli.Reader.State.{Reader, Frame, no_frame, Backend, Limits, Sys}
use peli.Reader.Decode.{cache_frame}
use peli.Reader.Seek.{small_frame, deliver, next_loop, next_frame_impl}
use peli.Reader.Stream.{Stream, Indexed, Moves, sys_at, reader_at, IsSmall}
use peli.Reader.Stream.Feed.{Stands, push_next_lem}
use peli.Reader.Stream.Skip.{next_place, count_lem}

by_cases {ℓ κ} :
    {A : Type ℓ} (P : A → Type κ) (b : Bool) (x y : A) → P x → P y → P (if b then x else y)
by_cases P true x y h k = h
by_cases P false x y h k = k

-- `CacheFrame` changes the cached frame only.
cache_frame_lem :
    (q : Reader) (f : Frame)
    → cache_frame q f ≡ record q { cached_frame = (cache_frame q f).cached_frame }
unfolding cache_frame
cache_frame_lem q f =
    let P : Reader → Type 0 = λ z. z ≡ record q { cached_frame = z.cached_frame } in
    by_cases P q.use_cached_frame _ _ (by_cases P _ _ _ refl refl) refl

-- A pop that gave nothing costs one retry.
small_frame_lem :
    (be : Backend) (limits : Limits) (feed fuel : ℕ) (s : Sys be) (f : Frame) (offset : ℤ) (q : ℕ)
    → IsSmall f
    → pos q ≤ℤ limits.eof_retry_max
    → small_frame be limits feed fuel s f offset (pos q) ≡ ok (none, s, offset, pos (suc q))
unfolding small_frame
small_frame_lem be limits feed fuel s f offset q (size, unmarked) le =
    let early : ltb_ℤ limits.eof_retry_max (pos q) ≡ false = ground arith in
    elim (Bool-cases s.reader.eof) [
      | inl t ↦ rw (unmarked, t, early, next_place q) refl
      | inr t ↦ rw (unmarked, t, next_place q) refl
    ]

next_frame_impl_steps :
    (be : Backend) (limits : Limits) (feed fuel : ℕ) (s : Sys be) (b : be.State)
    → s.reader.overrun ≡ false
    → be.start s.back ≡ ok b
    → next_frame_impl be limits feed fuel s
      ≡ next_loop be limits feed fuel fuel (record s { back = b }) no_frame (pos 0) (pos 0)
unfolding next_frame_impl
next_frame_impl_steps be limits feed fuel s b clear started = rw (started, clear) refl

abbrev with_reader : (be : Backend) → Frame → be.State → Reader → Frame × Sys be
with_reader be f b q = (f, record { reader = q; back = b })

module _ (be : Backend) (r : Reader) (frames : List Frame) (wait gap : ℕ)
    (stream : Stream be r.actv_stm_idx r.is_gpu frames r.key_indices wait gap)
    (indexed : Indexed r frames) where
  -- The outcome `out` is frame `n`, and the reader stands before the next one.
  abbrev pub Gives : Outcome (Frame × Sys be) → ℕ → ℕ → Type 0
  Gives out n d =
      (f : Frame) × (get_elem? frames n ≡ some f)
      × ((m : Moves) × (e : Bool) × (b : be.State) × (m.overrun ≡ false)
          × (out ≡ ok (f, sys_at be r m e (pos (suc n)) b))
          × Stands be r frames wait gap stream b e (suc n) d)

  deliver_lem :
      (m : Moves) (e : Bool) (n : ℕ) (b : be.State) (f : Frame)
      → f.defined ≡ true
      → m.overrun ≡ false
      → (m' : Moves) × (m'.overrun ≡ false)
        × (deliver be (sys_at be r m e (pos n) b) f ≡ (f, sys_at be r m' e (pos (suc n)) b))
  unfolding deliver
  deliver_lem m e n b f defined clear =
      let q = reader_at r m e (pos (suc n)) in
      (
        record m { cached_frame = (cache_frame q f).cached_frame },
        clear,
        rw (defined, next_place n)
            (ap (with_reader be (record f { defined = true }) b)
              (cache_frame_lem q (record f { defined = true }))),
      )

  pub next_loop_lem :
      (limits : Limits) (feed fuel rounds : ℕ) (m : Moves) (e : Bool) (n : ℕ) (b : be.State)
      (f : Frame) (offset : ℤ) (q w g d : ℕ)
      → gap < feed
      → w < rounds
      → g ≤ gap
      → n < length frames
      → d ≤ n
      → m.overrun ≡ false
      → pos (q + w) ≤ℤ limits.eof_retry_max
      → IsSmall f
      → stream.At b e n w g d
      → Gives
          (next_loop be limits feed fuel rounds (sys_at be r m e (pos n) b) f offset (pos q))
          n
          d
  unfolding next_loop
  next_loop_lem limits feed fuel zero m e n b f offset q w g d lf lw lg ln ld clear lr small at =
      absurd (omega arith)
  next_loop_lem limits feed fuel (suc rounds) m e n b f offset q w g d lf lw lg ln ld clear lr small
        at =
      let (e₁, b₁, pushed, fed) =
        push_next_lem be r frames wait gap stream feed m e (pos n) b at (omega arith) in
      let counted = count_lem be r frames wait gap stream indexed m e₁ (pos n) in
      let inside : leb_ℤ (pos (length frames)) (pos n) ≡ false = ground arith in
      elim (stream.pop f fed ln) [
        | inl (f', b', v, h, lv, lh, popped, frame, at') ↦
            let (defined, big) = stream.picture n (frame ld) in
            let large : leb f'.size 1 ≡ false = ground arith in
            let (m', clear', delivered) = deliver_lem m e₁ n b' f' defined clear in
            (
              f',
              frame ld,
              (
                m',
                e₁,
                b',
                clear',
                rw (pushed, counted, inside, popped, large, delivered) refl,
                (v, h, lv, lh, at'),
              ),
            )
        | inr (f', b', v, h, less, lh, popped, still, at') ↦
            let tiny : leb f'.size 1 ≡ true = ground (arith, (still small).0) in
            let again =
              small_frame_lem be limits feed fuel (sys_at be r m e₁ (pos n) b') f' offset q
                (still small) (omega arith) in
            let (g', at_n, (m', e', b'', clear', later, stands)) =
              next_loop_lem limits feed fuel rounds m e₁ n b' f' offset (suc q) v h d lf
                (omega arith) lh ln ld clear (omega arith) (still small) at' in
            (
              g',
              at_n,
              (
                m',
                e',
                b'',
                clear',
                rw (pushed, counted, inside, popped, tiny, again) later,
                stands,
              ),
            )
      ]

  pub next_frame_impl_lem :
      (limits : Limits) (feed fuel : ℕ) (m : Moves) (e : Bool) (n : ℕ) (b : be.State) (d : ℕ)
      → gap < feed
      → wait < fuel
      → n < length frames
      → d ≤ n
      → m.overrun ≡ false
      → pos wait ≤ℤ limits.eof_retry_max
      → Stands be r frames wait gap stream b e n d
      → Gives (next_frame_impl be limits feed fuel (sys_at be r m e (pos n) b)) n d
  unfolding next_frame_impl
  next_frame_impl_lem limits feed fuel m e n b d lf lw ln ld clear lr (w, g, hw, hg, at) =
      let (b₁, started, at₁) = stream.start at in
      let (f, at_n, (m', e', b', clear', given, stands)) =
        next_loop_lem limits feed fuel fuel m e n b₁ no_frame (pos 0) 0 w g d lf (omega arith) hg ln
          ld clear (omega arith) (omega arith, refl) at₁ in
      (
        f,
        at_n,
        (
          m',
          e',
          b',
          clear',
          next_frame_impl_steps be limits feed fuel (sys_at be r m e (pos n) b) b₁ clear started
              ∙ given,
          stands,
        ),
      )
