-- ===== src/Sampler/Tests.antt =====
-- Runs of the samplers on small files, and the theorems on them.
use mathlib.Core.List.Perm
use mathlib.Core.List.{Perm}
use peli.Base.{
  ℕ, ◌<ℤ◌, replicate, ◌≡◌, refl, List, [], ◌∷◌, ok, diverges, arith, All, ℤ, pos, ◌+ℤ◌, ◌-ℤ◌, ◌*ℤ◌,
}
use peli.Sampler.Batches.{
  Samples, resolve_end, check_range, bs_skip, bs_length, batch_from, batches, rounds,
}
use peli.Sampler.Batches.Frames.{laid}
use peli.Sampler.Batches.Laid.{step}
use peli.Sampler.Batches.Stuck.{batches_stuck}
use peli.Sampler.Ordered
use peli.Sampler.Ordered.{Ordered, new_sequential, new_random, reset_sequential, reset_random}
use peli.Sampler.Ordered.Plan.{Plan, Builds, new_sequential-Builds}
use peli.Sampler.Ordered.Frames.{IsBatch}
use peli.Sampler.Ordered.Service.{Serves, sequential_service, random_service}
use peli.Sampler.FileOrder
use peli.Sampler.FileOrder.{FileOrder, new_file_order, div_ℤ, repeated, visit_files}
use peli.Sampler.FileOrder.Build
use peli.Sampler.FileOrder.Build.{new_file_order-Builds}
use peli.Sampler.FileOrder.Run.{Runs}
use peli.Sampler.FileOrder.Epoch.{Used, unused, served, reshuffled, file_order_service}
use peli.Sampler.FileOrder.Plan.{file_record}
use peli.Sampler.Compare.{exact_end, exact_fit}

-- Two files, of 9 and 6 frames, whose last frames the loader leaves out.
abbrev lens : List ℤ
lens = pos 9 ∷ pos 6 ∷ []

abbrev range : List ℤ
range = pos 0 ∷ pos 8 ∷ pos 0 ∷ pos 5 ∷ []

abbrev order : List Samples
order =
    ((0, pos 0) ∷ (0, pos 2) ∷ [])
    ∷ ((0, pos 4) ∷ (0, pos 6) ∷ [])
    ∷ ((1, pos 0) ∷ (1, pos 2) ∷ [])
    ∷ []

abbrev sequential : Ordered
sequential = record {
  bs = 2;
  samples = (0, pos 0) ∷ (0, pos 0) ∷ [];
  curr = 0;
  visit_order = order;
}

sequential_run : new_sequential lens range (pos 2) (pos 1) (pos 1) ≡ ok sequential
unfolding new_sequential Ordered.visit_batches check_range resolve_end batches bs_skip bs_length
    batch_from ◌+ℤ◌ ◌-ℤ◌ ◌*ℤ◌
sequential_run = refl

sequential_service_example :
    Serves 1 1 1 lens range (reset_sequential sequential) (Ordered.size sequential) order
    × Plan 1 1 1 0 lens range order
    × All (IsBatch 1 1 1 0 lens range) order
sequential_service_example = sequential_service 1 1 1 lens range sequential sequential_run

new_sequential-Builds_example :
    Builds 1 1 1 lens range (new_sequential lens range (pos 2) (pos 1) (pos 1))
new_sequential-Builds_example = new_sequential-Builds 1 1 1 lens range

random_run : new_random lens range (pos 2) (pos 1) (pos 1) ≡ ok sequential
unfolding new_random Ordered.visit_batches check_range resolve_end batches bs_skip bs_length
    batch_from ◌+ℤ◌ ◌-ℤ◌ ◌*ℤ◌
random_run = refl

abbrev shuffled : List Samples
shuffled =
    ((0, pos 4) ∷ (0, pos 6) ∷ [])
    ∷ ((0, pos 0) ∷ (0, pos 2) ∷ [])
    ∷ ((1, pos 0) ∷ (1, pos 2) ∷ [])
    ∷ []

random_service_example :
    Serves 1 1 1 lens range (reset_random sequential shuffled) (Ordered.size sequential) shuffled
    × Plan 1 1 1 0 lens range order
    × All (IsBatch 1 1 1 0 lens range) order
random_service_example =
    random_service 1 1 1 lens range sequential shuffled random_run (Perm.swap _ _ _)

batches_stuck_example : batches 100 0 (pos 0) (pos 8) (pos 0) (pos 0) (pos 0) ≡ diverges
batches_stuck_example = batches_stuck 100 0 (pos 0) (pos 8) 0 0 (omega arith) (omega arith)

-- Here the first file, with batches of two frames and no gap, is read to its end at frame 8.
abbrev file_order : FileOrder
file_order = record {
  bs = 2;
  samples = (0, pos 0) ∷ (0, pos 0) ∷ [];
  records =
      record { begin = pos 0; end = pos 8; interval = pos 0; skip = pos 0; current = pos 0 }
      ∷ record { begin = pos 0; end = pos 5; interval = pos 0; skip = pos 0; current = pos 0 }
      ∷ [];
  visit_order = 0 ∷ 0 ∷ 0 ∷ 0 ∷ 1 ∷ 1 ∷ [];
  visit_idx = 0;
}

file_order_run : new_file_order lens range (pos 2) (pos 0) (pos 0) ≡ ok file_order
unfolding new_file_order visit_files check_range resolve_end bs_skip div_ℤ repeated ◌+ℤ◌ ◌-ℤ◌ ◌*ℤ◌
file_order_run = refl

-- A shuffle, one batch of the epoch, and another shuffle.
abbrev one_order : List ℕ
one_order = 0 ∷ 0 ∷ 0 ∷ 1 ∷ 0 ∷ 1 ∷ []

abbrev partly : FileOrder
partly = record {
  bs = 2;
  samples = (0, pos 0) ∷ (0, pos 1) ∷ [];
  records =
      record { begin = pos 0; end = pos 8; interval = pos 0; skip = pos 0; current = pos 2 }
      ∷ record { begin = pos 0; end = pos 5; interval = pos 0; skip = pos 0; current = pos 0 }
      ∷ [];
  visit_order = one_order;
  visit_idx = 1;
}

partly_run :
    FileOrder.next (FileOrder.reset file_order one_order)
    ≡ ok ((0, pos 0) ∷ (0, pos 1) ∷ [], partly)
unfolding FileOrder.next FileOrder.reset FileOrder.has_next FileOrder.fill ◌+ℤ◌ ◌-ℤ◌
partly_run = refl

partly_Used : Used file_order partly
partly_Used =
    served ((0, pos 0) ∷ (0, pos 1) ∷ [])
      (reshuffled one_order unused (Perm.cons 0 (Perm.cons 0 (Perm.cons 0 (Perm.swap _ _ _)))))
      partly_run

file_order_service_example :
    Build.IsBuilt 1 0 0 lens range file_order
    × Perm file_order.visit_order (0 ∷ 0 ∷ 0 ∷ 1 ∷ 1 ∷ 0 ∷ [])
    × Runs 1 0 0
        (Build.planned_records 1 0 0 lens range)
        []
        6
        (FileOrder.reset partly (0 ∷ 0 ∷ 0 ∷ 1 ∷ 1 ∷ 0 ∷ []))
unfolding FileOrder.size
file_order_service_example =
    file_order_service 1 0 0 lens range file_order partly (0 ∷ 0 ∷ 0 ∷ 1 ∷ 1 ∷ 0 ∷ [])
      file_order_run partly_Used
      (Perm.cons 0 (Perm.cons 0 (Perm.cons 0 (Perm.cons 1 (Perm.swap _ _ _)))))

new_file_order-Builds_example :
    Build.Builds 1 0 0 lens range (new_file_order lens range (pos 2) (pos 0) (pos 0))
new_file_order-Builds_example = new_file_order-Builds 1 0 0 lens range

fits_in : exact_end 1 0 0 (pos 0) 3 <ℤ pos 9
unfolding ◌+ℤ◌
fits_in = omega arith

exact_fit_example :
    (batches
        (rounds (pos 0) (exact_end 1 0 0 (pos 0) 3))
        0
        (pos 0)
        (exact_end 1 0 0 (pos 0) 3)
        (pos 2)
        (pos 0)
        (pos 0)
      ≡ ok (laid 3 0 (pos 0) (pos (step 1 0 0)) (pos 0) 2))
    × (new_file_order (pos 9 ∷ []) (pos 0 ∷ exact_end 1 0 0 (pos 0) 3 ∷ []) (pos 2) (pos 0) (pos 0)
        ≡ ok (record {
          bs = 2;
          samples = replicate 2 (0, pos 0);
          records = file_record 1 0 0 (pos 0) (exact_end 1 0 0 (pos 0) 3) ∷ [];
          visit_order = replicate 4 0;
          visit_idx = 0;
        }))
exact_fit_example = exact_fit 1 0 0 3 (pos 9) (pos 0) (omega arith) fits_in
