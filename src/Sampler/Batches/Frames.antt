-- ===== src/Sampler/Batches/Frames.antt =====
-- The frames of one batch, and the batches of one file, with a batch size of at least one and an
-- interval and a skip that are not negative, as `VideoLoader` passes them.
use peli.Base.{
  ℕ, zero, suc, ◌+◌, ◌*◌, ◌≡◌, ◌<◌, refl, ap, ◌∙◌, some, List, [], ◌∷◌, arith, length, get_elem?,
  All, ℤ, pos, ◌+ℤ◌, ◌-ℤ◌, ◌≤ℤ◌, ◌<ℤ◌, +ℤ_parts, -ℤ_parts, eq_of_parts, pos-+ℤ, pos-*ℤ, int_laws,
}
use peli.Sampler.Batches.{SamplerIndex, Samples, bs_skip, bs_length, batch_from}

-- The frames from one start to the next, for a batch of `b + 1` samples.
pub bs_skip-pos : (b i s : ℕ) → bs_skip (pos (suc b)) (pos i) (pos s) ≡ pos (b * (1 + i) + 1 + s)
unfolding bs_skip
bs_skip-pos b i s =
    rw (pos-+ℤ 1 i, pos-*ℤ (suc b) (1 + i))
      (eq_of_parts _ _ (
        omega (
          arith,
          -ℤ_parts (pos (suc b * (1 + i))) (pos i),
          +ℤ_parts (pos (suc b * (1 + i)) -ℤ pos i) (pos s),
        )))

pub bs_length-pos : (b i s : ℕ) → bs_length (pos (suc b)) (pos i) (pos s) ≡ pos (b * (1 + i) + 1)
unfolding bs_length
bs_length-pos b i s = rw (bs_skip-pos b i s) (omega int_laws)

pub offset_next : (k i : ℕ) → pos k +ℤ (pos i +ℤ pos 1) ≡ pos (k + (1 + i))
offset_next k i = rw (pos-+ℤ i 1, pos-+ℤ k (i + 1)) (ap pos (omega arith))

pub length-batch_from : (i : ℕ) (b o t : ℤ) (n : ℕ) → length (batch_from i b o t n) ≡ n
unfolding batch_from
length-batch_from i b o t zero = refl
length-batch_from i b o t (suc n) = ap suc (length-batch_from i b (o +ℤ (t +ℤ pos 1)) t n)

-- Sample `j` of a batch is `j` intervals after its start.
pub get_elem?-batch_from :
    (i : ℕ) (b : ℤ) (k t n j : ℕ)
    → j < n
    → get_elem? (batch_from i b (pos k) (pos t) n) j ≡ some (i, b +ℤ pos (k + j * (1 + t)))
unfolding batch_from
get_elem?-batch_from i b k t zero j h = absurd (omega arith)
get_elem?-batch_from i b k t (suc n) zero h = ap (λ (o : ℕ). some (i, b +ℤ pos o)) (omega arith)
get_elem?-batch_from i b k t (suc n) (suc j) h = rw (offset_next k t) (
    get_elem?-batch_from i b (k + (1 + t)) t n j (omega arith)
    ∙ ap (λ (o : ℕ). some (i, b +ℤ pos o)) (omega arith))

-- A sample of file `i` with a frame of the range.
abbrev pub InRange : ℕ → ℤ → ℤ → SamplerIndex → Type 0
InRange i begin end s = (s.0 ≡ i) × (begin ≤ℤ s.1) × (s.1 <ℤ end)

pub batch_from-InRange :
    (i : ℕ) (begin end b : ℤ) (k t n : ℕ)
    → begin ≤ℤ b
    → b +ℤ pos (k + n * (1 + t)) ≤ℤ end +ℤ pos t
    → All (InRange i begin end) (batch_from i b (pos k) (pos t) n)
unfolding batch_from
batch_from-InRange i begin end b k t zero lo hi = tt
batch_from-InRange i begin end b k t (suc n) lo hi = (
  (
    refl,
    omega (arith, +ℤ_parts b (pos k)),
    omega (arith, +ℤ_parts b (pos k), +ℤ_parts b (pos (k + suc n * (1 + t))), +ℤ_parts end (pos t)),
  ),
  rw (offset_next k t) (
      batch_from-InRange i begin end b (k + (1 + t)) t n lo (
        omega (
          arith,
          hi,
          +ℤ_parts b (pos (k + suc n * (1 + t))),
          +ℤ_parts b (pos (k + (1 + t) + n * (1 + t))),
          +ℤ_parts end (pos t),
        ))),
)

-- The first `n` batches of a file: one every `step` frames from `b` on.
unfoldable pub laid : ℕ → ℕ → ℤ → ℤ → ℤ → ℕ → List Samples
laid zero i b step interval bs = []
laid (suc n) i b step interval bs =
    batch_from i b (pos 0) interval bs ∷ laid n i (b +ℤ step) step interval bs
