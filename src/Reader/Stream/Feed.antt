-- ===== src/Reader/Stream/Feed.antt =====
-- `PushNext` and `Pop` on an intact stream: what one round of decoding does.
use peli.Base.{
  ℕ, zero, suc, ◌≡◌, ◌≤◌, ◌<◌, inl, inr, refl, Bool, true, false, some, List, arith, ok, length,
  get_elem?, ℤ,
}
use peli.Reader.State.{Reader, Frame, Backend}
use peli.Reader.Decode.{push_next, pop_next}
use peli.Reader.Stream.{Stream, Moves, sys_at}

module _ (be : Backend) (r : Reader) (frames : List Frame) (wait gap : ℕ)
    (stream : Stream be r.actv_stm_idx r.is_gpu frames r.key_indices wait gap) where
  open stream use {At, Fed, read, drained, pop}
  open be use {read_packet}

  -- `At` within the stream's bounds.
  abbrev pub Stands : be.State → Bool → ℕ → ℕ → Type 0
  Stands b e n d = (w : ℕ) × (g : ℕ) × (w ≤ wait) × (g ≤ gap) × At b e n w g d

  pub push_next_lem :
      (feed : ℕ) (m : Moves) (e : Bool) (c : ℤ) (b : be.State) {n w g d : ℕ}
      → At b e n w g d
      → g < feed
      → (e' : Bool) × (b' : be.State) × (push_next be feed (sys_at be r m e c b)
          ≡ ok (sys_at be r m e' c b'))
        × Fed b' e' n w d
  unfolding push_next
  push_next_lem zero m e c b at lt = absurd (omega arith)
  push_next_lem (suc feed) m true c b at lt = (true, b, refl, drained at)
  push_next_lem (suc feed) m false c b at lt = elim (read at) [
    | inl (b', eq, pushed, fed) ↦ (true, b', rw (eq, pushed) refl, fed)
    | inr (inl (p, b', eq, own, pushed, fed)) ↦ (false, b', rw (eq, own, pushed) refl, fed)
    | inr (inr (p, h, less, eq, other, at')) ↦
        let (e', b', later, fed) =
          push_next_lem feed m false c (read_packet b).1 at' (omega arith) in
        (e', b', rw (eq, other) later, fed)
  ]

  -- `CheckKeyFrame` and `SkipFramesImpl` take any frame that comes out.
  pub pop_next_lem :
      (feed fuel : ℕ) (m : Moves) (e : Bool) (c : ℤ) (b : be.State) (f : Frame) {n w g d : ℕ}
      → gap < feed
      → w < fuel
      → g ≤ gap
      → n < length frames
      → At b e n w g d
      → (e' : Bool) × (b' : be.State) × (f' : Frame) × (pop_next be feed fuel
            (sys_at be r m e c b)
            f
          ≡ ok (f', sys_at be r m e' c b'))
        × (d ≤ n → get_elem? frames n ≡ some f')
        × Stands b' e' (suc n) d
  unfolding pop_next
  pop_next_lem feed zero m e c b f lf lt lg ln at = absurd (omega arith)
  pop_next_lem feed (suc fuel) m e c b f lf lt lg ln at =
      let (e₁, b₁, pushed, fed) = push_next_lem feed m e c b at (omega arith) in
      elim (pop f fed ln) [
        | inl (f', b', v, h, lv, lh, popped, frame, at') ↦
            (e₁, b', f', rw (pushed, popped) refl, frame, (v, h, lv, lh, at'))
        | inr (f', b', v, h, less, lh, popped, small, at') ↦
            let (e', b'', g', later, frame, at'') =
              pop_next_lem feed fuel m e₁ c b' f' lf (omega arith) lh ln at' in
            (e', b'', g', rw (pushed, popped) later, frame, at'')
      ]
