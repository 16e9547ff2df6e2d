-- ===== src/Sampler/Batches/Laid.antt =====
-- The loop over the batches of one file: it ends, and lays out each batch that ends before the
-- range does.
use peli.Base.{
  ℕ, zero, suc, ◌+◌, ◌*◌, ◌≡◌, ◌<◌, ◌↔◌, inl, inr, true, false, List, Outcome, ok, arith,
  Bool-cases, ℤ, pos, pos_part, neg_part, ◌+ℤ◌, ◌-ℤ◌, ◌<ℤ◌, ltb_ℤ, +ℤ_parts, -ℤ_parts,
}
use peli.Sampler.Batches.{Samples, batches}
use peli.Sampler.Batches.Frames.{bs_skip-pos, bs_length-pos, laid}

-- A batch of `b + 1` samples of interval `t` with skip `s`.
module _ (b t s : ℕ) where
  -- The frames that a batch spans, and those from one start to the next.
  abbrev pub span : ℕ
  span = b * (1 + t) + 1

  abbrev pub step : ℕ
  step = b * (1 + t) + 1 + s

  -- Exactly the batches are laid out that end before `end`.
  abbrev pub Lays : ℕ → ℤ → ℤ → Outcome (List Samples) → Type 0
  Lays i start end o =
      (n : ℕ) × (o ≡ ok (laid n i start (pos step) (pos t) (suc b)))
      × ((k : ℕ) → (k < n) ↔ (start +ℤ pos (k * step + span) <ℤ end))

  none_fits :
      (start end : ℤ)
      → ltb_ℤ (start +ℤ pos span) end ≡ false
      → (k : ℕ) → (k < 0) ↔ (start +ℤ pos (k * step + span) <ℤ end)
  none_fits start end h k = (
    (λ lt. absurd (omega arith)),
    λ fits.
        absurd (ground (arith, +ℤ_parts start (pos span), +ℤ_parts start (pos (k * step + span)))),
  )

  one_more :
      (start end : ℤ) (n : ℕ)
      → ltb_ℤ (start +ℤ pos span) end ≡ true
      → ((k : ℕ) → (k < n) ↔ ((start +ℤ pos step) +ℤ pos (k * step + span) <ℤ end))
      → (k : ℕ) → (k < suc n) ↔ (start +ℤ pos (k * step + span) <ℤ end)
  one_more start end n h ih zero = (
    (λ lt. ground (arith, +ℤ_parts start (pos span), +ℤ_parts start (pos (0 * step + span)))),
    λ fits. omega arith,
  )
  one_more start end n h ih (suc k) = (
    (λ lt. omega (arith, (ih k).0 (omega arith), shifted)),
    λ fits. omega (arith, (ih k).1 (omega (arith, shifted))),
  )
    where
      shifted :
          pos_part (start +ℤ pos (suc k * step + span))
            + neg_part ((start +ℤ pos step) +ℤ pos (k * step + span))
          ≡ neg_part (start +ℤ pos (suc k * step + span))
            + pos_part ((start +ℤ pos step) +ℤ pos (k * step + span))
      shifted = omega (
        arith,
        +ℤ_parts start (pos (suc k * step + span)),
        +ℤ_parts start (pos step),
        +ℤ_parts (start +ℤ pos step) (pos (k * step + span)),
      )

  abbrev size : ℤ
  size = pos (suc b)

  pub batches-Lays :
      (fuel i : ℕ) (start end : ℤ)
      → pos_part (end -ℤ start) < fuel
      → Lays i start end (batches fuel i start end size (pos t) (pos s))
  unfolding batches laid
  batches-Lays zero i start end h = absurd (omega arith)
  batches-Lays (suc fuel) i start end h =
      rw (bs_length-pos b t s, bs_skip-pos b t s)
        (elim (Bool-cases (ltb_ℤ (start +ℤ pos span) end)) [
          | inl fits ↦
              let (n, eq, iff) = batches-Lays fuel i (start +ℤ pos step) end (
                ground (
                  arith,
                  +ℤ_parts start (pos span),
                  +ℤ_parts start (pos step),
                  -ℤ_parts end start,
                  -ℤ_parts end (start +ℤ pos step),
                )) in
              (suc n, rw (fits, eq), one_more start end n fits iff)
          | inr no_room ↦ (zero, rw no_room, none_fits start end no_room)
        ])
