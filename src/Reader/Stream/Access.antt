-- ===== src/Reader/Stream/Access.antt =====
-- `SeekAccurate` on an intact stream, and the frame that is read after it.
use peli.Base.{
  ℕ, suc, ◌+◌, ◌-◌, ◌≡◌, ◌≤◌, ◌<◌, ◌⊎◌, inl, inr, refl, sym, ap, ◌∙◌, subst, Bool, true, false,
  ◌||◌, not, some, List, [], ◌∷◌, arith, Outcome, ok, ◌>>=◌, if◌then◌else◌, ltb, length, get_elem?,
  All, All-get, All-weaken, ℤ, pos, negsuc, ◌==ℤ◌, ◌-ℤ◌, ◌≤ℤ◌, ltb_ℤ, Bool-cases,
}
use peli.Reader.State.{Reader, Frame, Backend, Limits, Sys}
use peli.Reader.Keyframes.{locate_keyframe}
use peli.Reader.Keyframes.Locate.{Ascending, Located, locate_keyframe_lem}
use peli.Reader.Decode.{skip_frames_impl}
use peli.Reader.Seek.{seek_on, seek_via, seek_accurate, next_frame_impl}
use peli.Reader.Stream.{Stream, Indexed, Moves, sys_at, reader_at}
use peli.Reader.Stream.Feed.{Stands}
use peli.Reader.Stream.Skip.{pos--ℤ, count_lem, skip_frames_impl_lem}
use peli.Reader.Stream.Seeks.{seek_lem, check_key_frame_lem}
use peli.Reader.Stream.Next.{Gives, next_frame_impl_lem}

natural : (j : ℤ) → pos 0 ≤ℤ j → (n : ℕ) × (j ≡ pos n)
natural (pos n) h = (n, refl)
natural (negsuc n) h = absurd (omega arith)

from_first : (k : ℤ) (ks : List ℤ) → Ascending (k ∷ ks) → All (λ j. k ≤ℤ j) (k ∷ ks)
from_first k ks (hk, h) = (omega arith, All-weaken (λ a lt. omega arith) ks hk)

-- The keyframe that `LocateKeyframe` finds, where the first frame is one.
pub Located-key :
    (ks : List ℤ) (p : ℕ) (out : Outcome ℤ)
    → Ascending ks
    → get_elem? ks 0 ≡ some (pos 0)
    → Located ks (pos p) out
    → (i : ℕ) × (k : ℕ) × (get_elem? ks i ≡ some (pos k)) × (out ≡ ok (pos k)) × (k ≤ p)
unfolding Located
Located-key [] p out asc first h = cc
Located-key (k₀ ∷ ks) p out asc first (inl (le, eq)) = (0, 0, first, eq, omega arith)
Located-key (k₀ ∷ ks) p out asc first (inr (lt, (j, eq, ((i, at), le, all)))) =
    let head : k₀ ≡ pos 0 = cc in
    let low : k₀ ≤ℤ j = All-get (λ j. k₀ ≤ℤ j) (k₀ ∷ ks) i (from_first k₀ ks asc) at in
    let zero_low : pos 0 ≤ℤ j = subst (λ k. k ≤ℤ j) head low in
    let (n, same) = natural j zero_low in
    let le_n : pos n ≤ℤ pos p = subst (λ z. z ≤ℤ pos p) same le in
    (i, n, at ∙ ap some same, eq ∙ ap ok same, omega arith)

pub seek_accurate_steps :
    (be : Backend) (feed fuel : ℕ) (s : Sys be) (p key here : ℤ)
    → s.reader.opened ≡ true
    → (s.reader.curr_frame ==ℤ p) ≡ false
    → locate_keyframe s.reader p ≡ ok key
    → locate_keyframe s.reader s.reader.curr_frame ≡ ok here
    → seek_accurate be feed fuel s p ≡ (
        let s₁ : Sys be = record s { reader = record s.reader { overrun = false } } in
        if not (key ==ℤ here) || ltb_ℤ p s.reader.curr_frame
        then seek_via be feed fuel s₁ p key
        else (skip_frames_impl be feed fuel s₁ (p -ℤ s.reader.curr_frame) >>= λ t. ok (true, t)))
unfolding seek_accurate
seek_accurate_steps be feed fuel s p key here opened away at_p at_curr =
    rw (away, at_p, at_curr, opened) refl

pub seek_accurate_stay :
    (be : Backend) (feed fuel : ℕ) (s : Sys be) (p : ℤ)
    → s.reader.opened ≡ true
    → (s.reader.curr_frame ==ℤ p) ≡ true
    → seek_accurate be feed fuel s p ≡ ok (true, s)
unfolding seek_accurate
seek_accurate_stay be feed fuel s p opened here = rw (here, opened) refl

-- A keyframe that was decoded already is returned first.
pub next_frame_impl_held :
    (be : Backend) (limits : Limits) (feed fuel : ℕ) (s : Sys be)
    → s.reader.overrun ≡ true
    → next_frame_impl be limits feed fuel s
      ≡ ok (s.reader.tmp_key_frame, record s { reader = record s.reader { overrun = false } })
unfolding next_frame_impl
next_frame_impl_held be limits feed fuel s held = rw held refl

module _ (be : Backend) (r : Reader) (frames : List Frame) (wait gap : ℕ)
    (stream : Stream be r.actv_stm_idx r.is_gpu frames r.key_indices wait gap)
    (indexed : Indexed r frames) where
  -- The outcome `out` of a seek is that frame `p` comes next: from the decoder, or as the keyframe
  -- that was decoded already.
  abbrev pub Sought : Outcome (Bool × Sys be) → ℕ → Type 0
  Sought out p =
      (m : Moves) × (e : Bool) × (b : be.State) × (d : ℕ) × (((m.overrun ≡ false)
          × (d ≤ p)
          × (out ≡ ok (true, sys_at be r m e (pos p) b))
          × Stands be r frames wait gap stream b e p d)
        ⊎ ((m.overrun ≡ true)
            × (d ≤ suc p)
            × (get_elem? frames p ≡ some m.tmp_key_frame)
            × (out ≡ ok (true, sys_at be r m e (pos (suc p)) b))
            × Stands be r frames wait gap stream b e (suc p) d))

  -- `SkipFramesImpl(p - curr_frame_)`.
  skip_to :
      (feed fuel : ℕ) (m : Moves) (e : Bool) (n p : ℕ) (b : be.State) (d : ℕ)
      → gap < feed
      → wait < fuel
      → n ≤ p
      → p ≤ length frames
      → d ≤ n
      → m.overrun ≡ false
      → Stands be r frames wait gap stream b e n d
      → Sought
          (skip_frames_impl be feed fuel (sys_at be r m e (pos n) b) (pos p -ℤ pos n) >>= λ t.
            ok (true, t))
          p
  skip_to feed fuel m e n p b d lf lw le lp ld clear at =
      let (d', ld', (e', b', skipped, stands)) =
        skip_frames_impl_lem be r frames wait gap stream indexed (p - n) feed fuel m e n b d lf lw
          (omega arith) ld at in
      let there : n + (p - n) ≡ p = omega arith in
      (
        m,
        e',
        b',
        d',
        inl (
          clear,
          omega arith,
          rw (pos--ℤ p n le, skipped, there) refl,
          subst (λ j. Stands be r frames wait gap stream b' e' j d') there stands,
        ),
      )

  seek_on_lem :
      (feed fuel : ℕ) (m : Moves) (e : Bool) (k p : ℕ) (b : be.State) (d : ℕ)
      → gap < feed
      → wait < fuel
      → k ≤ p
      → p < length frames
      → d ≤ suc k
      → m.overrun ≡ false
      → get_elem? frames k ≡ some m.tmp_key_frame
      → Stands be r frames wait gap stream b e (suc k) d
      → Sought (seek_on be feed fuel (sys_at be r m e (pos (suc k)) b) (pos p) (pos k) true) p
  unfolding seek_on
  seek_on_lem feed fuel m e k p b d lf lw le lp ld clear at stands =
      let diff = pos--ℤ p k le in
      elim (Bool-cases (ltb k p)) [
        | inl t ↦
            let ahead : ltb_ℤ (pos 0) (pos (p - k)) ≡ true = ground arith in
            rw (diff, ahead)
              (skip_to feed fuel m e (suc k) p b d lf lw (ground arith) (omega arith) ld clear
                stands)
        | inr t ↦
            let behind : ltb_ℤ (pos 0) (pos (p - k)) ≡ false = ground arith in
            let zero : (pos (p - k) ==ℤ pos 0) ≡ true = ground arith in
            let same : k ≡ p = ground arith in
            let kept = record m { overrun = true } in
            rw (diff, behind, zero)
              (
                kept,
                e,
                b,
                d,
                inr (
                  refl,
                  omega arith,
                  ap (λ j. get_elem? frames j) (sym same) ∙ at,
                  ap (λ j. ok (true, sys_at be r kept e (pos (suc j)) b)) same,
                  subst (λ j. Stands be r frames wait gap stream b e (suc j) d) same stands,
                ),
              )
      ]

  seek_via_lem :
      (feed fuel : ℕ) (m : Moves) (e : Bool) (n p i k : ℕ) (b : be.State) (d : ℕ)
      → gap < feed
      → wait < fuel
      → k ≤ p
      → p < length frames
      → d ≤ n
      → m.overrun ≡ false
      → get_elem? r.key_indices i ≡ some (pos k)
      → Stands be r frames wait gap stream b e n d
      → Sought (seek_via be feed fuel (sys_at be r m e (pos n) b) (pos p) (pos k)) p
  unfolding seek_via
  seek_via_lem feed fuel m e n p i k b d lf lw le lp ld clear key stands =
      let (m₁, e₁, b₁, d₁, ld₁, (c₁, _), first, stands₁) =
        seek_lem be r frames wait gap stream indexed m e n b d 0 0 stands ld indexed.first_key
          (omega arith) in
      let (m₂, e₂, b₂, d₂, ld₂, (c₂, _), second, stands₂) =
        seek_lem be r frames wait gap stream indexed m₁ e₁ 0 b₁ d₁ i k stands₁ ld₁ key
          (omega arith) in
      let (f, at, (e₃, b₃, checked, stands₃)) =
        check_key_frame_lem be r frames wait gap stream indexed feed fuel m₂ e₂ k b₂ d₂ lf lw
          (omega arith) ld₂ stands₂ in
      rw (first, second, checked)
        (seek_on_lem feed fuel (record m₂ { tmp_key_frame = f }) e₃ k p b₃ d₂ lf lw le lp
          (omega arith) (c₂ ∙ c₁ ∙ clear) at stands₃)

  located :
      (m : Moves) (e : Bool) (c : ℤ) (p : ℕ)
      → (i : ℕ) × (k : ℕ) × (get_elem? r.key_indices i ≡ some (pos k))
        × (locate_keyframe (reader_at r m e c) (pos p) ≡ ok (pos k))
        × (k ≤ p)
  located m e c p = Located-key r.key_indices p _ indexed.ascending indexed.first_key (
      locate_keyframe_lem (reader_at r m e c) (pos (length frames)) (pos p) indexed.ascending
        indexed.keys_below (count_lem be r frames wait gap stream indexed m e c))

  pub seek_accurate_lem :
      (feed fuel : ℕ) (m : Moves) (e : Bool) (n p : ℕ) (b : be.State) (d : ℕ)
      → gap < feed
      → wait < fuel
      → p < length frames
      → d ≤ n
      → m.overrun ≡ false
      → Stands be r frames wait gap stream b e n d
      → Sought (seek_accurate be feed fuel (sys_at be r m e (pos n) b) (pos p)) p
  seek_accurate_lem feed fuel m e n p b d lf lw lp ld clear stands =
      elim (Bool-cases (pos n ==ℤ pos p)) [
        | inl t ↦
            let same : n ≡ p = ground arith in
            (
              m,
              e,
              b,
              d,
              inl (
                clear,
                omega arith,
                seek_accurate_stay be feed fuel (sys_at be r m e (pos n) b) (pos p) indexed.opened t
                    ∙ ap (λ j. ok (true, sys_at be r m e (pos j) b)) same,
                subst (λ j. Stands be r frames wait gap stream b e j d) same stands,
              ),
            )
        | inr away ↦
            let (i, k, key, at_p, le) = located m e (pos n) p in
            let (_, h, _, at_n, _) = located m e (pos n) n in
            let open_m = record m { overrun = false } in
            let steps =
              seek_accurate_steps be feed fuel (sys_at be r m e (pos n) b) (pos p) (pos k) (pos h)
                indexed.opened away at_p at_n in
            elim (Bool-cases (not (pos k ==ℤ pos h) || ltb_ℤ (pos p) (pos n))) [
              | inl t ↦
                  rw (steps, t)
                    (seek_via_lem feed fuel open_m e n p i k b d lf lw le lp ld refl key stands)
              | inr t ↦
                  rw (steps, t)
                    (skip_to feed fuel open_m e n p b d lf lw (ground arith) (omega arith) ld refl
                      stands)
            ]
      ]

  -- From a reader that stands before some frame of an intact file (or at its end) and holds no
  -- keyframe back, with fuel above the stream's bounds and an end-of-file retry limit of at least
  -- the pops that may give nothing, `SeekAccurate` to any frame of the file succeeds, and the next
  -- `NextFrameImpl` returns that very frame and leaves the reader before the one after it.
  pub random_access :
      (limits : Limits) (feed fuel : ℕ) (m : Moves) (e : Bool) (n p : ℕ) (b : be.State) (d : ℕ)
      → gap < feed
      → wait < fuel
      → p < length frames
      → d ≤ n
      → m.overrun ≡ false
      → pos wait ≤ℤ limits.eof_retry_max
      → Stands be r frames wait gap stream b e n d
      → (s : Sys be) × (seek_accurate be feed fuel (sys_at be r m e (pos n) b) (pos p)
          ≡ ok (true, s))
        × ((d' : ℕ) × (d' ≤ suc p)
            × Gives be r frames wait gap stream indexed
                (next_frame_impl be limits feed fuel s)
                p
                d')
  random_access limits feed fuel m e n p b d lf lw lp ld clear lr stands =
      let (m', e', b', d', either) =
        seek_accurate_lem feed fuel m e n p b d lf lw lp ld clear stands in
      elim either [
        | inl (clear', ld', sought, stands') ↦ (
          sys_at be r m' e' (pos p) b',
          sought,
          (
            d',
            omega arith,
            next_frame_impl_lem be r frames wait gap stream indexed limits feed fuel m' e' p b' d'
                lf lw lp ld' clear' lr stands',
          ),
        )
        | inr (held, ld', at, sought, stands') ↦ (
          sys_at be r m' e' (pos (suc p)) b',
          sought,
          (
            d',
            ld',
            (
              m'.tmp_key_frame,
              at,
              (
                record m' { overrun = false },
                e',
                b',
                refl,
                next_frame_impl_held be limits feed fuel (sys_at be r m' e' (pos (suc p)) b') held,
                stands',
              ),
            ),
          ),
        )
      ]
