-- ===== src/Reader/Tolerance.antt =====
-- The fault tolerance of `FetchCachedFrame` (video_reader.cc): how many positions may get the
-- cached frame in place of their own.
use peli.Base.{
  ◌≡◌, ◌≤◌, ◌⊎◌, inl, inr, refl, sym, Bool, true, false, not, ◌&&◌, ◌||◌, List, [], ◌∷◌, arith,
  Outcome, ok, fatal, ◌>>◌, ◌∙◌, check, if◌then◌else◌, leb, ◌==◌, length, All, ℤ, pos, ◌==ℤ◌, ◌≤ℤ◌,
  ◌<ℤ◌, leb_ℤ, ltb_ℤ, Bool-cases,
}
use peli.Reader.State.{Reader, Frame, no_frame, Limits}
use peli.Reader.Keyframes.{frame_count}
use peli.Reader.Decode.{insert_failed, fetch_cached_frame}

-- No position twice.
abbrev pub IsDistinct : List ℤ → Type 0
IsDistinct [] = Unit
IsDistinct (p ∷ ps) = All (λ q. (p ==ℤ q) ≡ false) ps × IsDistinct ps

abbrev pub Has : ℤ → List ℤ → Type 0
Has p [] = ⊥
Has p (q ∷ qs) = ((q ==ℤ p) ≡ true) ⊎ Has p qs

All-insert_failed :
    (P : ℤ → Type 0) (p : ℤ) (qs : List ℤ) → P p → All P qs → All P (insert_failed p qs)
unfolding insert_failed
All-insert_failed P p [] h k = (h, tt)
All-insert_failed P p (q ∷ qs) h (hq, k) = elim (Bool-cases (q ==ℤ p)) [
  | inl t ↦ rw t (hq, k)
  | inr f ↦ rw f (hq, All-insert_failed P p qs h k)
]

insert_failed-IsDistinct : (p : ℤ) (qs : List ℤ) → IsDistinct qs → IsDistinct (insert_failed p qs)
unfolding insert_failed
insert_failed-IsDistinct p [] h = (tt, tt)
insert_failed-IsDistinct p (q ∷ qs) (hq, h) = elim (Bool-cases (q ==ℤ p)) [
  | inl t ↦ rw t (hq, h)
  | inr f ↦
      rw f (All-insert_failed (λ r. (q ==ℤ r) ≡ false) p qs f hq, insert_failed-IsDistinct p qs h)
]

insert_failed-Has : (p : ℤ) (qs : List ℤ) → Has p (insert_failed p qs)
unfolding insert_failed
insert_failed-Has p [] = inl (ground arith)
insert_failed-Has p (q ∷ qs) = elim (Bool-cases (q ==ℤ p)) [
  | inl t ↦ rw t (inl t)
  | inr f ↦ rw f (inr (insert_failed-Has p qs))
]

-- The positions afterwards are those before it and this one.
insert_failed-keeps : (p r : ℤ) (qs : List ℤ) → Has r qs → Has r (insert_failed p qs)
unfolding insert_failed
insert_failed-keeps p r [] h = absurd h
insert_failed-keeps p r (q ∷ qs) h = elim (Bool-cases (q ==ℤ p)) [
  | inl t ↦ rw t h
  | inr f ↦
      rw f (elim h [ inl here ↦ inl here | inr later ↦ inr (insert_failed-keeps p r qs later) ])
]

insert_failed-only :
    (p r : ℤ) (qs : List ℤ) → Has r (insert_failed p qs) → Has r qs ⊎ ((p ==ℤ r) ≡ true)
unfolding insert_failed
insert_failed-only p r [] (inl here) = inr here
insert_failed-only p r [] (inr later) = absurd later
insert_failed-only p r (q ∷ qs) h =
    (elim (q ==ℤ p)
        as (λ b.
          Has r (if b then q ∷ qs else q ∷ insert_failed p qs)
          → Has r (q ∷ qs) ⊎ ((p ==ℤ r) ≡ true)) [
            | true ↦ λ k. inl k
            | false ↦ λ k. elim k [
              | inl here ↦ inl (inl here)
              | inr later ↦ elim (insert_failed-only p r qs later) [
                | inl was ↦ inl (inr was)
                | inr new ↦ inr new
              ]
            ]
          ])
      h

-- What `FetchCachedFrame` does for position `p`: there is no cached frame; or one more position
-- would be too many; or the cached frame is the answer.
unfoldable pub Fetches : Reader → Frame → ℤ → Outcome (Bool × Frame × Reader) → Type 0
Fetches r f p out =
    (((r.use_cached_frame ≡ false) ⊎ (r.cached_frame.size ≤ 1)) × (out ≡ ok (false, f, r)))
    ⊎ (((pos 0 ≤ℤ r.fault_tol_thresh)
          × (r.fault_tol_thresh <ℤ pos (length (insert_failed p r.failed_idx)))
          × (out ≡ fatal))
        ⊎ ((g : Frame) × (q : Reader) × (out ≡ ok (true, g, q))
            × (g.pixels ≡ r.cached_frame.pixels)
            × (g.size ≡ r.cached_frame.size)
            × Has p q.failed_idx
            × ((p' : ℤ) → Has p' r.failed_idx → Has p' q.failed_idx)
            × ((p' : ℤ) → Has p' q.failed_idx → Has p' r.failed_idx ⊎ ((p ==ℤ p') ≡ true))
            × IsDistinct q.failed_idx
            × ((r.fault_tol_thresh <ℤ pos 0) ⊎ (pos (length q.failed_idx) ≤ℤ r.fault_tol_thresh))))

-- The frame that the cached bytes are copied to.
abbrev target : Frame → Reader → Frame
target f r =
    if not f.defined || not (f.size == r.cached_frame.size)
    then record no_frame { defined = true; size = r.frame_size }
    else f

abbrev recovered : Frame → Reader → Frame
recovered f r = record (target f r) { pts = r.cached_frame.pts; pixels = r.cached_frame.pixels }

-- The reader with the position among the failed ones.
abbrev failed_reader : Limits → Reader → ℤ → ℤ → Reader
failed_reader limits r p count =
    let failed_idx = insert_failed p r.failed_idx in
    record r {
      failed_idx = failed_idx;
      fault_warn_emit = r.fault_warn_emit || limits.warns (length failed_idx) count;
    }

target_size :
    (f : Frame) (r : Reader)
    → r.cached_frame.size ≡ r.frame_size
    → (target f r).size ≡ r.cached_frame.size
target_size f r same = elim (Bool-cases (not f.defined || not (f.size == r.cached_frame.size))) [
  | inl t ↦ rw t (sym same)
  | inr t ↦ rw t (ground arith)
]

fetch_none :
    (limits : Limits) (r : Reader) (f : Frame) (p : ℤ)
    → (not r.use_cached_frame || leb r.cached_frame.size 1) ≡ true
    → fetch_cached_frame limits r f p ≡ ok (false, f, r)
unfolding fetch_cached_frame
fetch_none limits r f p h = rw h refl

-- With a cached frame, what is left is the test of the tolerance.
fetch_some :
    (limits : Limits) (r : Reader) (f : Frame) (p count : ℤ)
    → (not r.use_cached_frame || leb r.cached_frame.size 1) ≡ false
    → ((target f r).size == r.cached_frame.size) ≡ true
    → frame_count r ≡ ok count
    → let failed_idx = insert_failed p r.failed_idx in
      fetch_cached_frame limits r f p ≡ (
        check (
          not (
            leb_ℤ (pos 0) r.fault_tol_thresh && ltb_ℤ r.fault_tol_thresh (pos (length failed_idx))))
        >> ok (true, recovered f r, failed_reader limits r p count))
unfolding fetch_cached_frame
fetch_some limits r f p count h size counted = rw (h, size, counted) refl

-- On a reader whose frames are counted, whose cached frame has the reader's frame size and whose
-- failed positions are distinct, `FetchCachedFrame` for a position either finds no cached frame and
-- changes nothing; or throws, and then the tolerance is not negative and the failed positions with
-- this one are more than it; or returns the bytes of the cached frame, and then the failed positions
-- are exactly the earlier ones and this one, distinct and, if the tolerance is not negative, not more
-- than it.
pub fetch_cached_frame_lem :
    (limits : Limits) (r : Reader) (f : Frame) (p count : ℤ)
    → frame_count r ≡ ok count
    → r.cached_frame.size ≡ r.frame_size
    → IsDistinct r.failed_idx
    → Fetches r f p (fetch_cached_frame limits r f p)
unfolding Fetches
fetch_cached_frame_lem limits r f p count counted same distinct =
    let failed = insert_failed p r.failed_idx in
    let fits = target_size f r same in
    let size : ((target f r).size == r.cached_frame.size) ≡ true = ground arith in
    elim (Bool-cases (not r.use_cached_frame || leb r.cached_frame.size 1)) [
      | inl t ↦ inl (ground arith, fetch_none limits r f p t)
      | inr t ↦
          let eq = fetch_some limits r f p count t size counted in
          elim (Bool-cases
            (leb_ℤ (pos 0) r.fault_tol_thresh && ltb_ℤ r.fault_tol_thresh (pos (length failed)))) [
              | inl many ↦ inr (inl (ground arith, ground arith, eq ∙ rw many refl))
              | inr few ↦ inr (
                  inr (
                    recovered f r,
                    failed_reader limits r p count,
                    eq ∙ rw few refl,
                    refl,
                    fits,
                    insert_failed-Has p r.failed_idx,
                    λ p'. insert_failed-keeps p p' r.failed_idx,
                    λ p'. insert_failed-only p p' r.failed_idx,
                    insert_failed-IsDistinct p r.failed_idx distinct,
                    ground arith,
                  ))
            ]
    ]
