-- ===== src/Reader/Batch.antt =====
-- `GetBatch` (video_reader.cc): frames by position into one buffer, each position decoded once.
-- The buffer is its bytes, and `frame_size` is the length of a frame of height by width by 3.
pub mod Places
pub mod Buffer
pub mod Once
use peli.Base.{
  ℕ, zero, suc, ◌+◌, ◌*◌, ◌≡◌, Bool, true, false, ◌&&◌, not, Option, none, some, List, [], ◌∷◌,
  Outcome, ok, fatal, diverges, ◌>>=◌, ◌>>◌, check, if◌then◌else◌, ltb, leb, ◌==◌, length, take,
  drop, replicate, ◌++◌, ℤ, pos, ltb_ℤ, leb_ℤ, ◌==ℤ◌,
}
use peli.Reader.State.{Reader, Frame, Backend, Limits, Sys}
use peli.Reader.Keyframes.{frame_count}
use peli.Reader.Decode.{find_key}
use peli.Reader.Seek.{seek_accurate, next_frame_impl}
use Prim.Native.Nat.{◌/◌}

-- `unique_indices`: for each value its first place in the list.
unfoldable pub first_places : ℕ → List ℤ → List (ℤ × ℕ) → List (ℤ × ℕ)
first_places i [] seen = seen
first_places i (p ∷ ps) seen =
    first_places (suc i) ps (elim (find_key p seen) [ none ↦ (p, i) ∷ seen | some j ↦ seen ])

-- The bytes of a view of `n` bytes at `offset`, and a write through it.
unfoldable pub view : List ℕ → ℕ → ℕ → List ℕ
view buf offset n = take n (drop offset buf)

unfoldable pub write : List ℕ → ℕ → List ℕ → List ℕ
write buf offset bytes = take offset buf ++ (bytes ++ drop (offset + length bytes) buf)

-- The bytes of an element: a frame is `kUInt8`, or `kInt64` where the decoder marks it so.
unfoldable pub element_size : Frame → ℕ
element_size f = if f.is_int64 then 8 else 1

-- The copy of a frame to the buffer: the view that `CreateOffsetView` makes must end inside it, and
-- `CopyTo` wants as many bytes on both sides.
unfoldable pub store_frame : ℕ → List ℕ → ℕ → Frame → Outcome (List ℕ × ℕ)
store_frame n buf offset f = do
  check f.defined
  check (leb (n * element_size f + offset) (length buf))
  check (length f.pixels == n * element_size f)
  ok (write buf offset f.pixels, offset + n * element_size f)

-- The copy of a frame that the buffer has already, at place `j`, to place `i`.
unfoldable pub copy_frame : ℕ → List ℕ → ℕ → ℕ → ℕ → Outcome (List ℕ × ℕ)
copy_frame n buf offset i j = do
  check (ltb j i)
  check (ltb 0 i)
  let old_offset = offset / i * j
  check (leb (n + old_offset) (length buf))
  check (leb (n + offset) (length buf))
  ok (write buf offset (view buf old_offset n), offset + n)

module _ (be : Backend) where
  -- The frame of one position that is not in the buffer yet.
  unfoldable pub load_frame : Limits → ℕ → ℕ → ℤ → Sys be → ℤ → Outcome (Frame × Sys be)
  load_frame limits feed fuel count s p = do
    check (ltb_ℤ p count)
    check (leb_ℤ (pos 0) p)
    let sought = if s.reader.curr_frame ==ℤ p then ok (true, s) else seek_accurate be feed fuel s p
    (_, s₁) ← sought
    (f, s₂) ← next_frame_impl be limits feed fuel s₁
    check (not (ltb f.size 1 && s₂.reader.eof))
    ok (f, s₂)

  -- The loop of `GetBatch` from place `i`.
  unfoldable pub batch_loop :
      Limits
      → ℕ
      → ℕ
      → ℕ
      → ℤ
      → List (ℤ × ℕ)
      → ℕ
      → List ℤ
      → List ℕ
      → ℕ
      → Sys be
      → Outcome (List ℕ × Sys be)
  batch_loop limits feed fuel n count seen i [] buf offset s = ok (buf, s)
  batch_loop limits feed fuel n count seen i (p ∷ ps) buf offset s =
      let again : List ℕ × ℕ → Sys be → Outcome (List ℕ × Sys be) =
        λ step t. batch_loop limits feed fuel n count seen (suc i) ps step.0 step.1 t in
      let load : Outcome (List ℕ × Sys be) = (do
        (f, t) ← load_frame limits feed fuel count s p
        step ← store_frame n buf offset f
        again step t) in
      elim (find_key p seen) [
        | none ↦ load
        | some j ↦ if j == i then load else (do step ← copy_frame n buf offset i j; again step s)
      ]

  -- `GetBatch`. A reader that has no file returns an array that is not defined.
  unfoldable pub get_batch :
      Limits → ℕ → ℕ → Sys be → List ℤ → Option (List ℕ) → Outcome (Option (List ℕ) × Sys be)
  get_batch limits feed fuel s indices buf = if not s.reader.opened then ok (none, s) else (do
    let n = s.reader.frame_size
    let memory : List ℕ = elim buf [ none ↦ replicate (length indices * n) 0 | some bytes ↦ bytes ]
    count ← frame_count s.reader
    (filled, t) ←
        batch_loop limits feed fuel n count (first_places 0 indices []) 0 indices memory 0 s
    ok (some filled, t))
