-- ===== src/Sampler/Batches/Stuck.antt =====
-- A batch size of 0, which the sequential and the random sampler do not refuse.
use peli.Base.{
  ℕ, zero, suc, ◌+◌, ◌*◌, ◌≡◌, ◌≤◌, refl, true, diverges, arith, ℤ, pos, pos_part, neg_part, ◌+ℤ◌,
  ◌-ℤ◌, ◌<ℤ◌, ltb_ℤ, +ℤ_parts, -ℤ_parts, pos-+ℤ, pos-*ℤ,
}
use peli.Sampler.Batches.{bs_skip, bs_length, batches}

bs_skip_none :
    (t s : ℕ)
    → pos_part (bs_skip (pos 0) (pos t) (pos s)) + t
      ≡ neg_part (bs_skip (pos 0) (pos t) (pos s)) + s
unfolding bs_skip
bs_skip_none t s =
    rw (pos-+ℤ 1 t, pos-*ℤ 0 (1 + t))
      (omega (
        arith,
        -ℤ_parts (pos (0 * (1 + t))) (pos t),
        +ℤ_parts (pos (0 * (1 + t)) -ℤ pos t) (pos s),
      ))

-- With a batch size of 0, a skip of at most the interval and a range that is not empty, the loop
-- over a file does not move on: it ends for no number of rounds.
pub batches_stuck :
    (fuel i : ℕ) (b end : ℤ) (t s : ℕ)
    → s ≤ t
    → b <ℤ end
    → batches fuel i b end (pos 0) (pos t) (pos s) ≡ diverges
unfolding batches bs_length
batches_stuck zero i b end t s le lt = refl
batches_stuck (suc fuel) i b end t s le lt =
    let skip = bs_skip (pos 0) (pos t) (pos s) in
    let more : ltb_ℤ (b +ℤ (skip -ℤ pos s)) end ≡ true =
      ground (arith, bs_skip_none t s, -ℤ_parts skip (pos s), +ℤ_parts b (skip -ℤ pos s)) in
    let rest =
      batches_stuck fuel i (b +ℤ skip) end t s le
        (omega (arith, bs_skip_none t s, +ℤ_parts b skip)) in
    rw (more, rest)
