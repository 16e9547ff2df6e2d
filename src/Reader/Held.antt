-- ===== src/Reader/Held.antt =====
-- A keyframe that `SeekAccurate` decoded and holds back (`overrun_`), and a seek that finds the
-- reader at its target already.
use peli.Base.{
  ℕ, suc, ◌-◌, ◌≡◌, ◌≢◌, ◌≤◌, ◌<◌, inl, inr, refl, ap, ◌∙◌, subst, Bool, true, false, not, ◌||◌,
  some, List, [], ◌∷◌, arith, Outcome, ok, length, get_elem?, All-get, ℤ, pos, ◌==ℤ◌, ◌-ℤ◌, ◌≤ℤ◌,
  ◌<ℤ◌, ltb_ℤ, eq_of_parts,
}
use peli.Reader.State.{Reader, Frame, Backend, Limits, Sys}
use peli.Reader.Keyframes.Locate.{Located, locate_keyframe_lem}
use peli.Reader.Seek.{seek_on, seek_via, seek_accurate, next_frame, next_frame_impl}
use peli.Reader.Stream.{Stream, Indexed, Moves, sys_at, reader_at}
use peli.Reader.Stream.Feed.{Stands}
use peli.Reader.Stream.Skip.{pos--ℤ, count_lem}
use peli.Reader.Stream.Seeks.{seek_lem, check_key_frame_lem}
use peli.Reader.Stream.Access.{
  Located-key, seek_accurate_steps, seek_accurate_stay, next_frame_impl_held,
}

-- The keyframe that `LocateKeyframe` finds for the position of a keyframe is that keyframe.
Located-itself :
    (ks : List ℤ) (i k : ℕ) (out : Outcome ℤ)
    → get_elem? ks 0 ≡ some (pos 0)
    → get_elem? ks i ≡ some (pos k)
    → Located ks (pos k) out
    → out ≡ ok (pos k)
unfolding Located
Located-itself [] i k out first at found = absurd (cc)
Located-itself (k₀ ∷ ks) i k out first at (inl (le, eq)) =
    let head : k₀ ≡ pos 0 = cc in
    let low : pos k ≤ℤ pos 0 = subst (λ z. pos k ≤ℤ z) head le in
    let zero : 0 ≡ k = omega arith in eq ∙ ap (λ j. ok (pos j)) zero
Located-itself (k₀ ∷ ks) i k out first at (inr (lt, (j, eq, (_, le, all)))) =
    let ge : pos k ≤ℤ j = All-get (λ l. l ≤ℤ pos k → l ≤ℤ j) (k₀ ∷ ks) i all at (omega arith) in
    let same : j ≡ pos k = omega (arith, eq_of_parts j (pos k)) in eq ∙ ap ok same

next_frame_open :
    (be : Backend) (limits : Limits) (feed fuel : ℕ) (s : Sys be)
    → s.reader.opened ≡ true
    → next_frame be limits feed fuel s ≡ next_frame_impl be limits feed fuel s
unfolding next_frame
next_frame_open be limits feed fuel s opened = rw opened refl

module _ (be : Backend) (r : Reader) (frames : List Frame) (wait gap : ℕ)
    (stream : Stream be r.actv_stm_idx r.is_gpu frames r.key_indices wait gap)
    (indexed : Indexed r frames) where
  -- The reader after `out`, a seek to the keyframe `k`: it stands before the frame after it, and
  -- holds the keyframe's frame back.
  abbrev HoldsBack : Outcome (Bool × Sys be) → ℕ → Type 0
  HoldsBack out k =
      (m : Moves) × (e : Bool) × (b : be.State) × (out ≡ ok (true, sys_at be r m e (pos (suc k)) b))
      × (m.overrun ≡ true)
      × (get_elem? frames k ≡ some m.tmp_key_frame)

  seek_on_key :
      (feed fuel : ℕ) (m : Moves) (e : Bool) (k : ℕ) (b : be.State)
      → get_elem? frames k ≡ some m.tmp_key_frame
      → HoldsBack (seek_on be feed fuel (sys_at be r m e (pos (suc k)) b) (pos k) (pos k) true) k
  unfolding seek_on
  seek_on_key feed fuel m e k b at =
      let none_left : pos k -ℤ pos k ≡ pos 0 =
        let e : k - k ≡ 0 = omega arith in pos--ℤ k k (omega arith) ∙ ap pos e in
      (record m { overrun = true }, e, b, rw none_left refl, refl, at)

  seek_via_key :
      (feed fuel : ℕ) (m : Moves) (e : Bool) (n i k : ℕ) (b : be.State) (d : ℕ)
      → gap < feed
      → wait < fuel
      → k < length frames
      → d ≤ n
      → get_elem? r.key_indices i ≡ some (pos k)
      → Stands be r frames wait gap stream b e n d
      → HoldsBack (seek_via be feed fuel (sys_at be r m e (pos n) b) (pos k) (pos k)) k
  unfolding seek_via
  seek_via_key feed fuel m e n i k b d lf lw lt ld key stands =
      let (m₁, e₁, b₁, d₁, ld₁, _, first, stands₁) =
        seek_lem be r frames wait gap stream indexed m e n b d 0 0 stands ld indexed.first_key
          (omega arith) in
      let (m₂, e₂, b₂, d₂, ld₂, _, second, stands₂) =
        seek_lem be r frames wait gap stream indexed m₁ e₁ 0 b₁ d₁ i k stands₁ ld₁ key lt in
      let (f, at, (e₃, b₃, checked, stands₃)) =
        check_key_frame_lem be r frames wait gap stream indexed feed fuel m₂ e₂ k b₂ d₂ lf lw lt ld₂
          stands₂ in
      rw (first, second, checked)
        (seek_on_key feed fuel (record m₂ { tmp_key_frame = f }) e₃ k b₃ at)

  -- `SeekAccurate` goes to the keyframe by way of the start.
  seek_key :
      (feed fuel : ℕ) (m : Moves) (e : Bool) (n i k : ℕ) (b : be.State) (d : ℕ)
      → gap < feed
      → wait < fuel
      → n ≢ k
      → d ≤ n
      → get_elem? r.key_indices i ≡ some (pos k)
      → Stands be r frames wait gap stream b e n d
      → HoldsBack (seek_accurate be feed fuel (sys_at be r m e (pos n) b) (pos k)) k
  seek_key feed fuel m e n i k b d lf lw ne ld key stands =
      let counted = count_lem be r frames wait gap stream indexed m e (pos n) in
      let located = λ (p : ℤ).
        locate_keyframe_lem (reader_at r m e (pos n)) (pos (length frames)) p indexed.ascending
          indexed.keys_below counted in
      let at_k = Located-itself r.key_indices i k _ indexed.first_key key (located (pos k)) in
      let (_, h, _, at_n, le) =
        Located-key r.key_indices n _ indexed.ascending indexed.first_key (located (pos n)) in
      let below : pos k <ℤ pos (length frames) =
        All-get (λ j. j <ℤ pos (length frames)) r.key_indices i indexed.keys_below key in
      let away : (pos n ==ℤ pos k) ≡ false = ground (arith, ne) in
      let via : (not (pos k ==ℤ pos h) || ltb_ℤ (pos k) (pos n)) ≡ true = ground (arith, ne, le) in
      rw
        (
          seek_accurate_steps be feed fuel (sys_at be r m e (pos n) b) (pos k) (pos k) (pos h)
              indexed.opened away at_k at_n,
          via,
        )
        (seek_via_key feed fuel (record m { overrun = false }) e n i k b d lf lw (omega arith) ld
          key stands)

  -- On an intact file, with fuel above the stream's bounds, from a reader that stands before another
  -- frame, let `SeekAccurate` go to a
  -- keyframe `k`. It succeeds. A further `SeekAccurate` to the frame after the keyframe then
  -- succeeds as well and changes nothing, and the next frame that `NextFrame` returns is frame `k`.
  pub held_key_frame :
      (limits : Limits) (feed fuel : ℕ) (m : Moves) (e : Bool) (n i k : ℕ) (b : be.State) (d : ℕ)
      → gap < feed
      → wait < fuel
      → n ≢ k
      → d ≤ n
      → get_elem? r.key_indices i ≡ some (pos k)
      → Stands be r frames wait gap stream b e n d
      → (s t : Sys be) × (f : Frame) × (seek_accurate be feed fuel
            (sys_at be r m e (pos n) b)
            (pos k)
          ≡ ok (true, s))
        × (seek_accurate be feed fuel s (pos (suc k)) ≡ ok (true, s))
        × (get_elem? frames k ≡ some f)
        × (next_frame be limits feed fuel s ≡ ok (f, t))
  held_key_frame limits feed fuel m e n i k b d lf lw ne ld key stands =
      let (m', e', b', sought, held, at) =
        seek_key feed fuel m e n i k b d lf lw ne ld key stands in
      let s = sys_at be r m' e' (pos (suc k)) b' in
      let here : (pos (suc k) ==ℤ pos (suc k)) ≡ true = ground arith in
      (
        s,
        record s { reader = record s.reader { overrun = false } },
        m'.tmp_key_frame,
        sought,
        seek_accurate_stay be feed fuel s (pos (suc k)) indexed.opened here,
        at,
        next_frame_open be limits feed fuel s indexed.opened
            ∙ next_frame_impl_held be limits feed fuel s held,
      )
