-- ===== src/Sampler/Ordered/Plan.antt =====
-- The constructors of the two samplers: when they succeed, and the batches that they lay out.
use peli.Base.{
  ℕ, suc, ◌+◌, ◌*◌, ◌/◌, ◌%◌, ◌≡◌, ◌<◌, ◌↔◌, ◌⊎◌, refl, inl, inr, List, [], ◌∷◌, ◌++◌, Outcome, ok,
  fatal, check_eq, arith, length, length-replicate, replicate, ℤ, pos, ◌+ℤ◌, ◌<ℤ◌,
}
use peli.Sampler.Batches.{Samples, resolve_end, batches, rounds}
use peli.Sampler.Batches.Range.{AreRanges, CheckResult, check_range_lem}
use peli.Sampler.Batches.Frames.{laid}
use peli.Sampler.Batches.Laid.{Lays, span, step, batches-Lays}
use peli.Sampler.Ordered.{Ordered, visit_batches, new_sequential, new_random}

-- Batches of `b + 1` samples, of interval `t` and skip `s`.
module _ (b t s : ℕ) where
  -- The visit order holds, file by file, the batches that end before the file's range does.
  abbrev pub Plan : ℕ → List ℤ → List ℤ → List Samples → Type 0
  Plan i (len ∷ lens) (begin ∷ end ∷ range) order =
      (n : ℕ) × (rest : List Samples) × (order
        ≡ laid n i begin (pos (step b t s)) (pos t) (suc b) ++ rest)
      × ((k : ℕ) → (k < n) ↔ (begin +ℤ pos (k * step b t s + span b t s) <ℤ resolve_end len end))
      × Plan (i + 1) lens range rest
  Plan i _ _ order = order ≡ []

  abbrev Visits : ℕ → List ℤ → List ℤ → Outcome (List Samples) → Type 0
  Visits i lens range o =
      ((order : List Samples) × (o ≡ ok order) × AreRanges lens range × Plan i lens range order)
      ⊎ ((o ≡ fatal) × ¬ AreRanges lens range)

  abbrev visit : ℕ → List ℤ → List ℤ → Outcome (List Samples)
  visit i lens range = visit_batches i lens range (pos (suc b)) (pos t) (pos s)

  visit_file :
      (i : ℕ) (len : ℤ) (lens : List ℤ) (begin end : ℤ) (range : List ℤ)
      → CheckResult len begin (resolve_end len end)
      → Lays b t s i begin (resolve_end len end) (
          batches
            (rounds begin (resolve_end len end))
            i
            begin
            (resolve_end len end)
            (pos (suc b))
            (pos t)
            (pos s))
      → Visits (i + 1) lens range (visit (i + 1) lens range)
      → Visits i (len ∷ lens) (begin ∷ end ∷ range) (visit i (len ∷ lens) (begin ∷ end ∷ range))
  unfolding visit_batches
  visit_file i len lens begin end range (inl (passed, valid)) (n, laid_out, iff)
        (inl (rest, eq, r, plan)) =
      inl (
        laid n i begin (pos (step b t s)) (pos t) (suc b) ++ rest,
        rw (passed, laid_out, eq),
        (valid, r),
        (n, rest, refl, iff, plan),
      )
  visit_file i len lens begin end range (inl (passed, valid)) (n, laid_out, iff) (inr (eq, bad)) =
      inr (rw (passed, laid_out, eq), λ all. bad all.1)
  visit_file i len lens begin end range (inr (failed, bad)) _ _ = inr (rw failed, λ all. bad all.0)

  visit_batches-Visits : (i : ℕ) (lens range : List ℤ) → Visits i lens range (visit i lens range)
  unfolding visit_batches
  visit_batches-Visits i (len ∷ lens) (begin ∷ end ∷ range) =
      visit_file i len lens begin end range (check_range_lem len begin (resolve_end len end))
        (batches-Lays b t s (rounds begin (resolve_end len end)) i begin (resolve_end len end)
          (omega arith))
        (visit_batches-Visits (i + 1) lens range)
  visit_batches-Visits i [] range = inl ([], refl, tt, refl)
  visit_batches-Visits i (len ∷ lens) [] = inl ([], refl, tt, refl)
  visit_batches-Visits i (len ∷ lens) (begin ∷ []) = inl ([], refl, tt, refl)

  -- The sizes of the two vectors agree and each range passes the checks.
  abbrev pub IsConfig : List ℤ → List ℤ → Type 0
  IsConfig lens range =
      (length range % 2 ≡ 0) × (length lens ≡ length range / 2) × AreRanges lens range

  -- A sampler before its first batch.
  pub record IsFresh (lens range : List ℤ) (q : Ordered) : Type 0 where
    pub sized : q.bs ≡ suc b
    pub buffer : length q.samples ≡ suc b
    pub at_start : q.curr ≡ 0
    pub plan : Plan 0 lens range q.visit_order

  abbrev pub Builds : List ℤ → List ℤ → Outcome Ordered → Type 0
  Builds lens range o =
      ((q : Ordered) × (o ≡ ok q) × IsConfig lens range × IsFresh lens range q)
      ⊎ ((o ≡ fatal) × ¬ IsConfig lens range)

  -- With a batch size of at least 1 and an interval and a skip that are not negative, the
  -- constructor of the sequential sampler always returns or fails. It returns exactly if the sizes
  -- of the two vectors agree and every range passes the checks, and then the sampler is before its
  -- first batch and its visit order holds, file by file, exactly the batches that end before the
  -- file's range does.
  pub new_sequential-Builds :
      (lens range : List ℤ)
      → Builds lens range (new_sequential lens range (pos (suc b)) (pos t) (pos s))
  unfolding new_sequential
  new_sequential-Builds lens range = elim (check_eq (length range % 2) 0) [
    | inr (odd, eq) ↦ inr (rw eq, λ c. odd c.0)
    | inl (even, eq) ↦ elim (check_eq (length lens) (length range / 2)) [
      | inr (ne, eq') ↦ inr (rw (eq, eq'), λ c. ne c.1)
      | inl (same, eq') ↦ elim (visit_batches-Visits 0 lens range) [
        | inr (eq'', bad) ↦ inr (rw (eq, eq', eq''), λ c. bad c.2)
        | inl (order, eq'', valid, plan) ↦ inl (
          record {
            bs = suc b;
            samples = replicate (suc b) (0, pos 0);
            curr = 0;
            visit_order = order;
          },
          rw (eq, eq', eq''),
          (even, same, valid),
          record {
            sized = refl;
            buffer = length-replicate (suc b) (0, pos 0);
            at_start = refl;
            plan = plan;
          },
        )
      ]
    ]
  ]

  pub new_random-Builds :
      (lens range : List ℤ)
      → Builds lens range (new_random lens range (pos (suc b)) (pos t) (pos s))
  unfolding new_random new_sequential
  new_random-Builds lens range = new_sequential-Builds lens range
