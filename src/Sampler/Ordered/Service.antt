-- ===== src/Sampler/Ordered/Service.antt =====
-- From the constructor to the end of an epoch.
use mathlib.Core.List.{Perm}
use peli.Base.{
  ℕ, suc, ◌≡◌, sym, subst, ◌∙◌, inl, inr, false, List, Outcome, ok, fatal, arith, All, All-weaken,
  ℤ, pos,
}
use peli.Sampler.Batches.{Samples}
use peli.Sampler.Ordered.{
  Ordered, new_sequential, new_random, reset_sequential, reset_random, has_next, next, size,
}
use peli.Sampler.Ordered.Plan.{Plan, Builds, IsFresh, new_sequential-Builds, new_random-Builds}
use peli.Sampler.Ordered.Frames.{IsBatch, Plan-IsBatch}
use peli.Sampler.Ordered.Epoch.{IsReady, run, sequential_epoch, random_epoch}

module _ (b t s : ℕ) where
  Fresh_of_Builds :
      (lens range : List ℤ) (o : Outcome Ordered) (q : Ordered)
      → Builds b t s lens range o
      → o ≡ ok q
      → IsFresh b t s lens range q
  Fresh_of_Builds lens range o q (inl (q', eq, config, fresh)) h =
      let same : q' ≡ q = cc in subst (IsFresh b t s lens range) same fresh
  Fresh_of_Builds lens range o q (inr (eq, _)) h = absurd (ground arith)

  Fresh-IsReady : (lens range : List ℤ) (q : Ordered) → IsFresh b t s lens range q → IsReady q
  Fresh-IsReady lens range q f = (
    f.buffer ∙ sym f.sized,
    All-weaken (λ batch h. h.0 ∙ sym f.sized) q.visit_order
        (Plan-IsBatch b t s 0 lens range q.visit_order f.plan),
  )

  -- What a whole epoch after `start` serves is `order`.
  abbrev pub Serves : List ℤ → List ℤ → Ordered → ℕ → List Samples → Type 0
  Serves lens range start n order =
      (end : Ordered) × (run n start ≡ ok (order, end))
      × (has_next end ≡ false)
      × (next end ≡ fatal)

  -- With a batch size of at least 1 and an interval and a skip that are not negative, a sequential
  -- sampler that the constructor built serves after a reset its visit order in `Size` calls, and
  -- then `HasNext` is false and `Next` fails. The visit order holds, file by file, exactly the
  -- batches that end before the file's range does, each of the batch size and with all its samples
  -- of one file and in that file's range.
  pub sequential_service :
      (lens range : List ℤ) (q : Ordered)
      → new_sequential lens range (pos (suc b)) (pos t) (pos s) ≡ ok q
      → Serves lens range (reset_sequential q) (size q) q.visit_order
        × Plan b t s 0 lens range q.visit_order
        × All (IsBatch b t s 0 lens range) q.visit_order
  sequential_service lens range q h =
      let fresh = Fresh_of_Builds lens range _ q (new_sequential-Builds b t s lens range) h in
      (
        sequential_epoch q (Fresh-IsReady lens range q fresh),
        fresh.plan,
        Plan-IsBatch b t s 0 lens range q.visit_order fresh.plan,
      )

  -- With a batch size of at least 1 and an interval and a skip that are not negative, a random
  -- sampler that the constructor built, reset with any permutation of its visit order, serves that
  -- permutation in `Size` calls, and then `HasNext` is false and `Next` fails. The visit order is,
  -- file by file, exactly the batches that end before the file's range does, each of the batch
  -- size and with all its samples of one file and in that file's range.
  pub random_service :
      (lens range : List ℤ) (q : Ordered) (shuffled : List Samples)
      → new_random lens range (pos (suc b)) (pos t) (pos s) ≡ ok q
      → Perm q.visit_order shuffled
      → Serves lens range (reset_random q shuffled) (size q) shuffled
        × Plan b t s 0 lens range q.visit_order
        × All (IsBatch b t s 0 lens range) q.visit_order
  random_service lens range q shuffled h p =
      let fresh = Fresh_of_Builds lens range _ q (new_random-Builds b t s lens range) h in
      (
        random_epoch q shuffled p (Fresh-IsReady lens range q fresh),
        fresh.plan,
        Plan-IsBatch b t s 0 lens range q.visit_order fresh.plan,
      )
