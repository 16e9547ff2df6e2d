-- ===== src/Sampler/Compare.antt =====
-- The samplers of one file beside each other: where the last batch ends exactly at the end of the
-- range, the sequential and the random sampler leave it out and the file-order sampler reads it.
use native.Mathlib.Decide.{dec_lt}
use native.Mathlib.Nat.{mul-div_cancel}
use peli.Base.{
  ℕ, suc, refl, [], ◌∷◌, replicate, append_nil, check, ltb_ℤ, ◌≤ℤ◌, ◌+◌, ◌*◌, ◌≡◌, ◌≤◌, ◌<◌, ◌↔◌,
  ap, ◌∙◌, ok, arith, ℤ, pos, ◌+ℤ◌, ◌-ℤ◌, ◌<ℤ◌, +ℤ_parts, -ℤ_parts, eq_of_parts,
}
use peli.Sampler.Batches.{resolve_end, check_range, bs_skip, batches, rounds}
use peli.Sampler.Batches.Frames.{laid}
use peli.Sampler.Batches.Laid.{span, step, batches-Lays}
use peli.Sampler.FileOrder.{div_ℤ, repeated, visit_files, new_file_order}
use peli.Sampler.FileOrder.Plan.{div-bs_skip, file_record}

le_mul : (m n d : ℕ) → m ≤ n → m * d ≤ n * d
le_mul m n d h = grind arith

module _ (b t s : ℕ) where
  -- The end of the range for which batch `n` is the last one and ends exactly there.
  abbrev pub exact_end : ℤ → ℕ → ℤ
  exact_end begin n = begin +ℤ pos (n * step b t s + span b t s)

  count_of_iff :
      (begin : ℤ) (n m : ℕ)
      → ((k : ℕ) → (k < m) ↔ (begin +ℤ pos (k * step b t s + span b t s) <ℤ exact_end begin n))
      → m ≡ n
  count_of_iff begin n m iff = elim (dec_lt n m) [
    | yes lt ↦ absurd (omega (arith, (iff n).0 lt))
    | no le ↦ elim (dec_lt m n) [
      | yes lt ↦
          let more = le_mul (suc m) n (step b t s) lt in
          absurd (
            omega (
              arith,
              (iff m).1 (
                  omega (
                    arith,
                    more,
                    +ℤ_parts begin (pos (m * step b t s + span b t s)),
                    +ℤ_parts begin (pos (n * step b t s + span b t s)),
                  )),
            ))
      | no ge ↦ omega arith
    ]
  ]

  fits :
      (len begin : ℤ) (n : ℕ)
      → pos 0 ≤ℤ begin
      → exact_end begin n <ℤ len
      → (resolve_end len (exact_end begin n) ≡ exact_end begin n)
        × (check_range len begin (exact_end begin n) ≡ ok tt)
  unfolding resolve_end check_range
  fits len begin n low high = ground (arith, +ℤ_parts begin (pos (n * step b t s + span b t s)))

  -- With a batch size of at least 1 and an interval and a skip that are not negative, where the
  -- range of a file passes the checks and ends exactly with its batch `n + 1`, the loop of the
  -- sequential and the random sampler makes the first `n` batches only, while the constructor of
  -- the file-order sampler, for this file alone, visits it `n + 1` times.
  pub exact_fit :
      (n : ℕ) (len begin : ℤ)
      → pos 0 ≤ℤ begin
      → exact_end begin n <ℤ len
      → let end = exact_end begin n in
        (batches (rounds begin end) 0 begin end (pos (suc b)) (pos t) (pos s)
          ≡ ok (laid n 0 begin (pos (step b t s)) (pos t) (suc b)))
        × (new_file_order (len ∷ []) (begin ∷ end ∷ []) (pos (suc b)) (pos t) (pos s)
            ≡ ok (record {
              bs = suc b;
              samples = replicate (suc b) (0, pos 0);
              records = file_record b t s begin end ∷ [];
              visit_order = replicate (suc n) 0;
              visit_idx = 0;
            }))
  unfolding new_file_order visit_files repeated
  exact_fit n len begin low high =
      let end = exact_end begin n in
      let (m, eq, iff) = batches-Lays b t s (rounds begin end) 0 begin end (omega arith) in
      let whole : end +ℤ pos s -ℤ begin ≡ pos (suc n * step b t s) = omega (
        arith,
        eq_of_parts (end +ℤ pos s -ℤ begin) (pos (suc n * step b t s)),
        -ℤ_parts (end +ℤ pos s) begin,
        +ℤ_parts end (pos s),
        +ℤ_parts begin (pos (n * step b t s + span b t s)),
      ) in
      let divided : div_ℤ (end +ℤ pos s -ℤ begin) (bs_skip (pos (suc b)) (pos t) (pos s))
          ≡ ok (pos (suc n)) =
        rw whole (
          div-bs_skip b t s (pos (suc n * step b t s)) (omega arith)
          ∙ ap (λ k. ok (pos k)) (mul-div_cancel (suc n) (omega arith))) in
      let positive : check (ltb_ℤ (pos 0) (pos (suc b))) ≡ ok tt = ground arith in
      let (same, passed) = fits len begin n low high in
      (
        eq
            ∙ ap (λ k. ok (laid k 0 begin (pos (step b t s)) (pos t) (suc b)))
                (count_of_iff begin n m iff),
        rw (positive, same, divided, passed, append_nil {A = ℕ} (replicate (suc n) 0)) refl,
      )
