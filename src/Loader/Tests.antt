-- ===== src/Loader/Tests.antt =====
-- A loader of one file of 7 frames, read in batches of 2 with one frame between two samples.
use peli.Base.{ℕ, suc, ◌≡◌, refl, List, [], ◌∷◌, arith, ok, ℤ, pos, ◌+ℤ◌, ◌-ℤ◌, ◌*ℤ◌}
use peli.Sampler.Batches.{
  Samples, resolve_end, check_range, bs_skip, bs_length, batch_from, batches,
}
use peli.Sampler.Ordered
use peli.Sampler.Ordered.{Ordered, new_sequential}
use peli.Loader.{
  Readers, Loader, Sampler, sequential, sampler_next, sampler_has_next, frames_of_samples,
  at_least_zero, file_ranges, new_sampler, new_loader, loader_has_next, loader_next,
}
use peli.Loader.Serve.{Holds, loader_next_lem}

-- The state counts the calls, and the data are the file and the positions asked for.
abbrev shelf : Readers
shelf = record {
  State = ℕ;
  Data = List ℤ;
  empty = [];
  get_batch = λ n i ps. ok (pos i ∷ ps, suc n);
}

abbrev first_batch : Samples
first_batch = (0, pos 0) ∷ (0, pos 2) ∷ []

abbrev plan : ℕ → Samples → Sampler
plan n samples =
    sequential (record { bs = 2; samples = samples; curr = n; visit_order = first_batch ∷ [] })

abbrev loader : Loader shelf
loader = record {
  batch_size = pos 2;
  next_ready = 0;
  next_data = [];
  next_indices = [];
  sampler = plan 0 ((0, pos 0) ∷ (0, pos 0) ∷ []);
  readers = 0;
}

-- Frame 6, the last one, is outside the range, and so is the batch of the frames 4 and 6.
loader_run :
    new_loader shelf
      ((1, pos 7) ∷ [])
      1
      (pos 2 ∷ pos 8 ∷ pos 8 ∷ pos 3 ∷ [])
      (pos 1)
      (pos 1)
      (pos 0)
      0
    ≡ ok loader
unfolding new_loader file_ranges new_sampler at_least_zero new_sequential Ordered.visit_batches
    check_range resolve_end batches bs_skip bs_length batch_from ◌+ℤ◌ ◌-ℤ◌ ◌*ℤ◌
loader_run = refl

loader_next_lem_example :
    (k : Loader shelf) × (loader_next shelf loader ≡ ok k)
    × (k.sampler ≡ plan 1 first_batch)
    × (k.readers ≡ 1)
    × Holds shelf k (pos 0 ∷ pos 0 ∷ pos 2 ∷ []) (pos 0 ∷ pos 0 ∷ pos 0 ∷ pos 2 ∷ [])
unfolding loader_has_next sampler_has_next sampler_next Ordered.has_next Ordered.next
    frames_of_samples
loader_next_lem_example =
    loader_next_lem shelf loader first_batch (plan 1 first_batch) 0 (pos 0 ∷ pos 0 ∷ pos 2 ∷ []) 1
      refl refl refl (omega arith) (refl, (refl, tt)) refl
