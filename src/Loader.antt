-- ===== src/Loader.antt =====
-- src/video/video_loader.cc: `VideoLoader`, which asks a sampler for the next samples and a reader
-- for their frames.
mod Serve
mod Tests
use peli.Base.{
  ℕ, zero, suc, ◌+◌, ◌*◌, ◌/◌, ◌%◌, ◌-◌, Bool, true, false, not, ◌&&◌, Option, none, some, List, [],
  ◌∷◌, ◌++◌, Outcome, ok, fatal, ◌>>=◌, ◌>>◌, check, or_fatal, if◌then◌else◌, ltb, leb, ◌==◌,
  length, get_elem?, ℤ, pos, ◌-ℤ◌, ltb_ℤ, leb_ℤ, ◌==ℤ◌,
}
use peli.Sampler.Batches.{Samples}
use peli.Sampler.Ordered
use peli.Sampler.Ordered.{Ordered, new_sequential, new_random, reset_sequential, reset_random}
use peli.Sampler.FileOrder
use peli.Sampler.FileOrder.{FileOrder, new_file_order}

-- The samplers behind `SamplerInterface`, and its virtual functions. `sampler_reset` takes what the
-- shuffle makes of the visit order of a random or of a file-order sampler.
pub data Sampler : Type 0 where
  sequential : Ordered → Sampler
  random : Ordered → Sampler
  file_order : FileOrder → Sampler

unfoldable pub sampler_has_next : Sampler → Bool
sampler_has_next (sequential s) = Ordered.has_next s
sampler_has_next (random s) = Ordered.has_next s
sampler_has_next (file_order s) = FileOrder.has_next s

unfoldable pub sampler_next : Sampler → Outcome (Samples × Sampler)
sampler_next (sequential s) = do (b, t) ← Ordered.next s; ok (b, sequential t)
sampler_next (random s) = do (b, t) ← Ordered.next s; ok (b, random t)
sampler_next (file_order s) = do (b, t) ← FileOrder.next s; ok (b, file_order t)

unfoldable pub sampler_size : Sampler → ℕ
sampler_size (sequential s) = Ordered.size s
sampler_size (random s) = Ordered.size s
sampler_size (file_order s) = FileOrder.size s

unfoldable pub sampler_reset : Sampler → List Samples → List ℕ → Sampler
sampler_reset (sequential s) batches files = sequential (reset_sequential s)
sampler_reset (random s) batches files = random (reset_random s batches)
sampler_reset (file_order s) batches files = file_order (FileOrder.reset s files)

-- What the loader uses of its readers: `GetBatch` of reader `i`, with no buffer.
pub record Readers : Type 1 where
  pub State : Type 0
  pub Data : Type 0
  pub empty : Data
  pub get_batch : State → ℕ → List ℤ → Outcome (Data × State)

-- `next_ready` is the flags of the data (1) and of the indices (2).
pub record Loader (rs : Readers) : Type 0 where
  pub batch_size : ℤ
  pub next_ready : ℕ
  pub next_data : rs.Data
  pub next_indices : List ℤ
  pub sampler : Sampler
  pub readers : rs.State

unfoldable pub frames_of_samples : Samples → List ℤ
frames_of_samples [] = []
frames_of_samples ((i, p) ∷ samples) = p ∷ frames_of_samples samples

-- The file and the frame of each sample, as one vector.
unfoldable pub label : ℕ → List ℤ → List ℤ
label i [] = []
label i (p ∷ ps) = pos i ∷ p ∷ label i ps

-- `std::max(0, n)`.
unfoldable pub at_least_zero : ℤ → ℤ
at_least_zero n = if ltb_ℤ n (pos 0) then pos 0 else n

-- The constructor's loop over the files, each with the size of its key indices and its frame count:
-- the lengths and the ranges.
unfoldable pub file_ranges : List (ℕ × ℤ) → Outcome (List ℤ × List ℤ)
file_ranges [] = ok ([], [])
file_ranges ((keys, count) ∷ files) = do
  check (ltb 0 keys)
  check (ltb_ℤ (pos 0) count)
  (lens, ranges) ← file_ranges files
  ok (count ∷ lens, pos 0 ∷ (count -ℤ pos 1) ∷ ranges)

-- The sampler of a shuffle mode: 0 none, 1 random file order, 2 random.
unfoldable pub new_sampler : ℤ → List ℤ → List ℤ → ℤ → ℤ → ℤ → Outcome Sampler
new_sampler (pos zero) lens ranges bs interval skip = do
  s ← new_sequential lens ranges bs interval skip
  ok (sequential s)
new_sampler (pos (suc zero)) lens ranges bs interval skip = do
  s ← new_file_order lens ranges bs interval skip
  ok (file_order s)
new_sampler (pos (suc (suc zero))) lens ranges bs interval skip = do
  s ← new_random lens ranges bs interval skip
  ok (random s)
new_sampler _ lens ranges bs interval skip = fatal

module _ (rs : Readers) where
  open rs use {State, Data, empty}

  -- The constructor up to its `Reset`, for as many contexts as `contexts` says.
  unfoldable pub new_loader : List (ℕ × ℤ) → ℕ → List ℤ → ℤ → ℤ → ℤ → State → Outcome (Loader rs)
  new_loader files contexts shape interval skip shuffle readers = do
    check (length shape == 4)
    check (leb 1 (length files))
    check (leb 1 contexts)
    (lens, ranges) ← file_ranges files
    bs ← or_fatal (get_elem? shape 0)
    sampler ← new_sampler shuffle lens ranges bs (at_least_zero interval) (at_least_zero skip)
    ok (record {
      batch_size = bs;
      next_ready = 0;
      next_data = empty;
      next_indices = [];
      sampler = sampler;
      readers = readers;
    })

  unfoldable pub loader_reset : Loader rs → List Samples → List ℕ → Loader rs
  loader_reset l batches files = record l { sampler = sampler_reset l.sampler batches files }

  unfoldable pub loader_has_next : Loader rs → Bool
  loader_has_next l = sampler_has_next l.sampler

  -- `Next`.
  unfoldable pub loader_next : Loader rs → Outcome (Loader rs)
  loader_next l =
      if not (loader_has_next l)
      then ok (record l { next_data = empty; next_indices = []; next_ready = 3 })
      else (do
        (samples, sampler) ← sampler_next l.sampler
        check (pos (length samples) ==ℤ l.batch_size)
        first ← or_fatal (get_elem? samples 0)
        let indices = frames_of_samples samples
        (batch, readers) ← rs.get_batch l.readers first.0 indices
        ok (record l {
          next_data = batch;
          next_indices = label first.0 indices;
          next_ready = 3;
          sampler = sampler;
          readers = readers;
        }))

  -- `NextData`: `next_ready_ & 1` and `next_ready_ &= 0xFE`.
  unfoldable pub loader_next_data : Loader rs → Outcome (Data × Loader rs)
  loader_next_data l = do
    check (l.next_ready % 2 == 1)
    ok (l.next_data, record l { next_ready = l.next_ready - l.next_ready % 2 })

  -- `NextIndices`: `next_ready_ & 2` and `next_ready_ &= 0xFD`.
  unfoldable pub loader_next_indices : Loader rs → Outcome (List ℤ × Loader rs)
  loader_next_indices l = do
    check (l.next_ready / 2 % 2 == 1)
    ok (l.next_indices, record l { next_ready = l.next_ready - 2 * (l.next_ready / 2 % 2) })

  unfoldable pub loader_length : Loader rs → ℕ
  loader_length l = sampler_size l.sampler
