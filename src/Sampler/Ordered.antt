-- ===== src/Sampler/Ordered.antt =====
-- src/sampler/sequential_sampler.cc and random_sampler.cc: the batches of all files are laid out
-- once and served one after the other. The two differ in `Reset`, where the random sampler
-- shuffles; the shuffled order, the work of `std::random_shuffle`, is an argument.
pub mod Plan
pub mod Frames
pub mod Epoch
pub mod Service
use peli.Base.{
  ℕ, zero, suc, ◌+◌, ◌/◌, ◌%◌, ◌≡◌, Bool, List, [], ◌∷◌, ◌++◌, Outcome, ok, fatal, ◌>>=◌, ◌>>◌,
  check, or_fatal, ltb, leb, ◌==◌, length, get_elem?, replicate, ℤ, pos, negsuc, pos_part, leb_ℤ,
}
use peli.Sampler.Batches.{SamplerIndex, Samples, resolve_end, check_range, batches, rounds}

-- The members of `SequentialSampler`, which are those of `RandomSampler`.
pub record Ordered : Type 0 where
  pub bs : ℕ
  pub samples : Samples
  pub curr : ℕ
  pub visit_order : List Samples

-- The constructor's loop over the files, from file `i` on. A range vector that is too short is not
-- reached: its size is checked first.
unfoldable pub visit_batches : ℕ → List ℤ → List ℤ → ℤ → ℤ → ℤ → Outcome (List Samples)
visit_batches i (len ∷ lens) (begin ∷ last ∷ range) bs interval skip = do
  let end = resolve_end len last
  check_range len begin end
  here ← batches (rounds begin end) i begin end bs interval skip
  rest ← visit_batches (i + 1) lens range bs interval skip
  ok (here ++ rest)
visit_batches i lens range bs interval skip = ok []

-- `samples_.resize(bs)`, which throws where a negative `bs` becomes a huge size.
unfoldable pub resized : ℤ → Outcome Samples
resized (pos n) = ok (replicate n (0, pos 0))
resized (negsuc n) = fatal

-- The constructor of `SequentialSampler`.
unfoldable pub new_sequential : List ℤ → List ℤ → ℤ → ℤ → ℤ → Outcome Ordered
unfolding resized
new_sequential lens range bs interval skip = do
  check (length range % 2 == 0)
  check (length lens == length range / 2)
  samples ← resized bs
  order ← visit_batches 0 lens range bs interval skip
  ok (record { bs = pos_part bs; samples = samples; curr = 0; visit_order = order })

-- The constructor of `RandomSampler`, which is the same code.
unfoldable pub new_random : List ℤ → List ℤ → ℤ → ℤ → ℤ → Outcome Ordered
unfolding resized
new_random lens range bs interval skip = do
  check (length range % 2 == 0)
  check (length lens == length range / 2)
  samples ← resized bs
  order ← visit_batches 0 lens range bs interval skip
  ok (record { bs = pos_part bs; samples = samples; curr = 0; visit_order = order })

-- `SequentialSampler::Reset`.
unfoldable pub reset_sequential : Ordered → Ordered
reset_sequential s = record s { curr = 0 }

-- `RandomSampler::Reset`.
unfoldable pub reset_random : Ordered → List Samples → Ordered
reset_random s shuffled = record s { visit_order = shuffled; curr = 0 }

unfoldable pub has_next : Ordered → Bool
has_next s = ltb s.curr (length s.visit_order)

unfoldable pub next : Ordered → Outcome (Samples × Ordered)
unfolding has_next
next s = do
  check (has_next s)
  check (length s.samples == s.bs)
  samples ← or_fatal (get_elem? s.visit_order s.curr)
  ok (samples, record s { samples = samples; curr = s.curr + 1 })

unfoldable pub size : Ordered → ℕ
size s = length s.visit_order
