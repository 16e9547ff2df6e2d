-- ===== src/Sampler/Ordered/Frames.antt =====
-- The frames of a visit order.
use peli.Base.{
  ℕ, zero, suc, ◌+◌, ◌*◌, ◌≡◌, ◌<◌, ◌⊎◌, sym, inl, inr, List, [], ◌∷◌, subst, arith, All,
  All-append, All-weaken, length, ℤ, pos, ◌+ℤ◌, ◌≤ℤ◌, ◌<ℤ◌, +ℤ_parts,
}
use peli.Sampler.Batches.{Samples, resolve_end}
use peli.Sampler.Batches.Frames.{laid, InRange, batch_from-InRange, length-batch_from}
use peli.Sampler.Batches.Laid.{span, step}
use peli.Sampler.Ordered.Plan.{Plan}

-- All samples of the batch are of one file, and in its range.
abbrev pub Framed : ℕ → List ℤ → List ℤ → Samples → Type 0
Framed i (len ∷ lens) (begin ∷ end ∷ range) batch =
    All (InRange i begin (resolve_end len end)) batch ⊎ Framed (i + 1) lens range batch
Framed i _ _ batch = ⊥

module _ (b t s : ℕ) where
  abbrev pub IsBatch : ℕ → List ℤ → List ℤ → Samples → Type 0
  IsBatch i lens range batch = (length batch ≡ suc b) × Framed i lens range batch

  abbrev InFile : ℕ → ℤ → ℤ → Samples → Type 0
  InFile i begin end batch = (length batch ≡ suc b) × All (InRange i begin end) batch

  laid-InFile :
      (n i : ℕ) (begin end start : ℤ)
      → begin ≤ℤ start
      → ((k : ℕ) → k < n → start +ℤ pos (k * step b t s + span b t s) <ℤ end)
      → All (InFile i begin end) (laid n i start (pos (step b t s)) (pos t) (suc b))
  unfolding laid
  laid-InFile zero i begin end start lo fits = tt
  laid-InFile (suc n) i begin end start lo fits = (
    (
      length-batch_from i start (pos 0) (pos t) (suc b),
      batch_from-InRange i begin end start 0 t (suc b) lo (
          omega (
            arith,
            fits 0 (omega arith),
            +ℤ_parts start (pos (0 * step b t s + span b t s)),
            +ℤ_parts start (pos (0 + suc b * (1 + t))),
            +ℤ_parts end (pos t),
          )),
    ),
    laid-InFile n i begin end (start +ℤ pos (step b t s))
        (omega (arith, lo, +ℤ_parts start (pos (step b t s))))
        (λ k lt. omega (
          arith,
          fits (suc k) (omega arith),
          +ℤ_parts start (pos (suc k * step b t s + span b t s)),
          +ℤ_parts start (pos (step b t s)),
          +ℤ_parts (start +ℤ pos (step b t s)) (pos (k * step b t s + span b t s)),
        )),
  )

  pub Plan-IsBatch :
      (i : ℕ) (lens range : List ℤ) (order : List Samples)
      → Plan b t s i lens range order
      → All (IsBatch i lens range) order
  Plan-IsBatch i (len ∷ lens) (begin ∷ end ∷ range) order (n, rest, eq, iff, plan) =
      subst (All (IsBatch i (len ∷ lens) (begin ∷ end ∷ range))) (sym eq) (
        All-append _ (laid n i begin (pos (step b t s)) (pos t) (suc b)) rest
          (All-weaken (λ x h. (h.0, inl h.1)) _
            (laid-InFile n i begin (resolve_end len end) begin (omega arith) (λ k. (iff k).0)))
          (All-weaken (λ x h. (h.0, inr h.1)) rest (Plan-IsBatch (i + 1) lens range rest plan)))
  Plan-IsBatch i [] range order eq = subst (All (IsBatch i [] range)) (sym eq) tt
  Plan-IsBatch i (len ∷ lens) [] order eq = subst (All (IsBatch i (len ∷ lens) [])) (sym eq) tt
  Plan-IsBatch i (len ∷ lens) (begin ∷ []) order eq =
      subst (All (IsBatch i (len ∷ lens) (begin ∷ []))) (sym eq) tt
