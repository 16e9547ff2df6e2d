-- ===== src/Reader/Stream/Batches.antt =====
-- `GetBatch` on an intact stream.
use peli.Base.{
  ℕ, suc, ◌*◌, ◌≡◌, ◌≤◌, ◌<◌, inl, inr, refl, sym, ap, ◌∙◌, subst, Bool, true, false, Option, none,
  some, List, [], ◌∷◌, ◌++◌, arith, ok, check, if◌then◌else◌, ltb, length, get_elem?, All,
  All-append, append_assoc, append_nil, ℤ, pos, negsuc, ◌==ℤ◌, ◌≤ℤ◌, ltb_ℤ, leb_ℤ, Bool-cases,
  Option-cases,
}
use peli.Reader.State.{Reader, Frame, Backend, Limits, Sys}
use peli.Reader.Decode.{find_key}
use peli.Reader.Seek.{seek_accurate, next_frame_impl}
use peli.Reader.Batch.{load_frame, get_batch}
use peli.Reader.Batch.Places.{same_key}
use peli.Reader.Batch.Buffer.{flat}
use peli.Reader.Batch.Once.{fits, frames_of, HasRoom, get_batch_lem}
use peli.Reader.Stream.{Stream, Indexed, Moves, sys_at}
use peli.Reader.Stream.Feed.{Stands}
use peli.Reader.Stream.Skip.{count_lem}
use peli.Reader.Stream.Next.{Gives, next_frame_impl_lem}
use peli.Reader.Stream.Access.{random_access}

abbrev pub pixels_of : Option Frame → List ℕ
pixels_of none = []
pixels_of (some f) = f.pixels

-- The bytes of the frame at a position of the file.
abbrev pub pixels_at : List Frame → ℤ → List ℕ
pixels_at frames (negsuc n) = []
pixels_at frames (pos n) = pixels_of (get_elem? frames n)

-- Each position with the bytes of its frame.
abbrev pub shots : List Frame → List ℤ → List (ℤ × List ℕ)
shots frames [] = []
shots frames (p ∷ ps) = (p, pixels_at frames p) ∷ shots frames ps

abbrev IsShot : List Frame → ℤ × List ℕ → Type 0
IsShot frames (p, bytes) = bytes ≡ pixels_at frames p

abbrev pub IsInside : List Frame → ℤ → Type 0
IsInside frames p = (k : ℕ) × (p ≡ pos k) × (k < length frames)

find_key-IsShot :
    (frames : List Frame) (slots : List (ℤ × List ℕ)) (p : ℤ) (bytes : List ℕ)
    → All (IsShot frames) slots
    → find_key p slots ≡ some bytes
    → bytes ≡ pixels_at frames p
unfolding find_key
find_key-IsShot frames [] p bytes h e = cc
find_key-IsShot frames ((q, b) ∷ slots) p bytes (hb, h) e = elim (same_key q p) [
  | inl (same, t) ↦
      let found : some b ≡ some bytes = rw t at e in
      let value : b ≡ bytes = cc in sym value ∙ hb ∙ ap (pixels_at frames) same
  | inr t ↦ find_key-IsShot frames slots p bytes h (rw t at e)
]

load_frame_steps :
    (be : Backend) (limits : Limits) (feed fuel : ℕ) (s t u : Sys be) (p count : ℤ) (found : Bool)
    (f : Frame)
    → ltb_ℤ p count ≡ true
    → leb_ℤ (pos 0) p ≡ true
    → (if s.reader.curr_frame ==ℤ p then ok (true, s) else seek_accurate be feed fuel s p)
      ≡ ok (found, t)
    → next_frame_impl be limits feed fuel t ≡ ok (f, u)
    → ltb f.size 1 ≡ false
    → load_frame be limits feed fuel count s p ≡ ok (f, u)
unfolding load_frame
load_frame_steps be limits feed fuel s t u p count found f below above sought given full =
    rw (below, above, sought, given, full) refl

module _ (be : Backend) (r : Reader) (frames : List Frame) (wait gap : ℕ)
    (stream : Stream be r.actv_stm_idx r.is_gpu frames r.key_indices wait gap)
    (indexed : Indexed r frames) (limits : Limits) (feed fuel : ℕ) (feeds : gap < feed)
    (pops : wait < fuel) (retries : pos wait ≤ℤ limits.eof_retry_max) where
  load_frame_lem :
      (m : Moves) (e : Bool) (n k : ℕ) (b : be.State) (d : ℕ)
      → k < length frames
      → d ≤ n
      → m.overrun ≡ false
      → Stands be r frames wait gap stream b e n d
      → (d' : ℕ) × (d' ≤ suc k)
        × Gives be r frames wait gap stream indexed
            (load_frame be limits feed fuel
              (pos (length frames))
              (sys_at be r m e (pos n) b)
              (pos k))
            k
            d'
  load_frame_lem m e n k b d lt ld clear stands =
      let s = sys_at be r m e (pos n) b in
      let counted = count_lem be r frames wait gap stream indexed m e (pos n) in
      let below : ltb_ℤ (pos k) (pos (length frames)) ≡ true = ground arith in
      let above : leb_ℤ (pos 0) (pos k) ≡ true = ground arith in
      elim (Bool-cases (pos n ==ℤ pos k)) [
        | inl t ↦
            let same : n ≡ k = ground arith in
            let (f, at, (m', e', b', clear', given, stands')) =
              next_frame_impl_lem be r frames wait gap stream indexed limits feed fuel m e n b d
                feeds pops (omega arith) ld clear retries stands in
            let (defined, big) = stream.picture n at in
            let full : ltb f.size 1 ≡ false = ground arith in
            let loaded =
              load_frame_steps be limits feed fuel s s _ (pos k) (pos (length frames)) true f below
                above (rw t refl) given full in
            (
              d,
              omega arith,
              (
                f,
                ap (λ j. get_elem? frames j) (sym same) ∙ at,
                (
                  m',
                  e',
                  b',
                  clear',
                  loaded ∙ ap (λ j. ok (f, sys_at be r m' e' (pos (suc j)) b')) same,
                  subst (λ j. Stands be r frames wait gap stream b' e' (suc j) d) same stands',
                ),
              ),
            )
        | inr t ↦
            let (s', sought, (d', ld', (f, at, (m', e', b', clear', given, stands')))) =
              random_access be r frames wait gap stream indexed limits feed fuel m e n k b d feeds
                pops lt ld clear retries stands in
            let (defined, big) = stream.picture k at in
            let full : ltb f.size 1 ≡ false = ground arith in
            let loaded =
              load_frame_steps be limits feed fuel s s' _ (pos k) (pos (length frames)) true f below
                above (rw t sought) given full in
            (d', ld', (f, at, (m', e', b', clear', loaded, stands')))
      ]

  frames_of_lem :
      (shape : (k : ℕ) (f : Frame)
        → get_elem? frames k ≡ some f
        → check (fits r.frame_size f) ≡ ok tt)
      (ps : List ℤ) (slots : List (ℤ × List ℕ)) (m : Moves) (e : Bool) (n : ℕ) (b : be.State)
      (d : ℕ)
      → All (IsInside frames) ps
      → All (IsShot frames) slots
      → d ≤ n
      → m.overrun ≡ false
      → Stands be r frames wait gap stream b e n d
      → (t : Sys be) × (frames_of be limits feed fuel r.frame_size
            (pos (length frames))
            slots
            ps
            (sys_at be r m e (pos n) b)
          ≡ ok (slots ++ shots frames ps, t))
  unfolding frames_of
  frames_of_lem shape [] slots m e n b d inside kept ld clear stands = (
    sys_at be r m e (pos n) b,
    ap (λ l. ok (l, sys_at be r m e (pos n) b)) (sym (append_nil slots)),
  )
  frames_of_lem shape (p ∷ ps) slots m e n b d ((k, same, lt), inside) kept ld clear stands =
      let there =
        ap (λ l. l) (append_assoc slots ((p, pixels_at frames p) ∷ []) (shots frames ps)) in
      let s = sys_at be r m e (pos n) b in
      elim (Option-cases (find_key p slots)) [
        | inl new ↦
            let (d', ld', (f, at, (m', e', b', clear', loaded, stands'))) =
              load_frame_lem m e n k b d lt ld clear stands in
            let bytes : f.pixels ≡ pixels_at frames p =
              sym (ap (pixels_at frames) same ∙ ap pixels_of at) in
            let (t, later) =
              frames_of_lem shape ps (slots ++ ((p, f.pixels) ∷ [])) m' e' (suc k) b' d' inside
                (All-append (IsShot frames) slots ((p, f.pixels) ∷ []) kept (bytes, tt)) ld' clear'
                stands' in
            let loaded_p : load_frame be limits feed fuel (pos (length frames)) s p
                ≡ ok (f, sys_at be r m' e' (pos (suc k)) b') =
              ap (load_frame be limits feed fuel (pos (length frames)) s) same ∙ loaded in
            (
              t,
              rw (frames_of, new, loaded_p, shape k f at)
                  (later
                    ∙ ap (λ l. ok ((slots ++ ((p, l) ∷ [])) ++ shots frames ps, t)) bytes
                    ∙ ap (λ l. ok (l, t)) there),
            )
        | inr (bytes, old) ↦
            let value = find_key-IsShot frames slots p bytes kept old in
            let (t, later) =
              frames_of_lem shape ps (slots ++ ((p, bytes) ∷ [])) m e n b d inside
                (All-append (IsShot frames) slots ((p, bytes) ∷ []) kept (value, tt)) ld clear
                stands in
            (
              t,
              rw (frames_of, old)
                  (later
                    ∙ ap (λ l. ok ((slots ++ ((p, l) ∷ [])) ++ shots frames ps, t)) value
                    ∙ ap (λ l. ok (l, t)) there),
            )
      ]

  -- On an intact file whose frames all have the reader's size, from a reader that holds no keyframe
  -- back, and with fuel and an end-of-file retry limit above the stream's bounds, `GetBatch` of any
  -- positions of the file, in any order and repeated or not, into no buffer or one of the right
  -- size, returns the bytes of the frames at those positions, in that order.
  pub get_batch_intact :
      (shape : (k : ℕ) (f : Frame)
        → get_elem? frames k ≡ some f
        → check (fits r.frame_size f) ≡ ok tt)
      (indices : List ℤ) (buf : Option (List ℕ)) (m : Moves) (e : Bool) (n : ℕ) (b : be.State)
      (d : ℕ)
      → All (IsInside frames) indices
      → HasRoom (length indices * r.frame_size) buf
      → d ≤ n
      → m.overrun ≡ false
      → Stands be r frames wait gap stream b e n d
      → (t : Sys be) × (get_batch be limits feed fuel (sys_at be r m e (pos n) b) indices buf
          ≡ ok (some (flat (shots frames indices)), t))
  get_batch_intact shape indices buf m e n b d inside room ld clear stands =
      let (t, taken) = frames_of_lem shape indices [] m e n b d inside tt ld clear stands in
      (
        t,
        get_batch_lem be limits feed fuel (sys_at be r m e (pos n) b) indices buf
            (pos (length frames)) indexed.opened
            (count_lem be r frames wait gap stream indexed m e (pos n)) room taken,
      )
