-- ===== src/Sampler/FileOrder/Plan.antt =====
-- The constructor of the file-order sampler: when it succeeds, and the visits that it plans.
use peli.Base.{
  ℕ, zero, suc, ◌+◌, ◌*◌, ◌/◌, ◌≡◌, ◌≤◌, ◌<◌, refl, some, List, [], ◌∷◌, ◌++◌, ok, arith,
  if◌then◌else◌, All, All-append, All-weaken, length, replicate, ◌==◌, get_elem?, ℤ, pos, pos_part,
  ◌+ℤ◌, ◌-ℤ◌, ◌≤ℤ◌, ◌<ℤ◌, +ℤ_parts, -ℤ_parts,
}
use peli.Sampler.Batches.{bs_skip}
use peli.Sampler.Batches.Frames.{bs_skip-pos}
use peli.Sampler.Batches.Laid.{step}
use peli.Sampler.FileOrder.{ReaderRecord, div_ℤ}

-- How often file `k` is still to be visited.
abbrev pub count : ℕ → List ℕ → ℕ
count k [] = 0
count k (x ∷ xs) = (if x == k then 1 else 0) + count k xs

module _ (b t s : ℕ) where
  -- `c` more batches fit between the frame `from` and the end of the file, and so much more if
  -- the plan is `tight`.
  pub record FileInv (c : ℕ) (r : ReaderRecord) (from : ℤ) : Type 0 where
    pub interval_is : r.interval ≡ pos t
    pub skip_is : r.skip ≡ pos s
    pub after_begin : r.begin ≤ℤ from
    pub room : from +ℤ pos (c * step b t s) ≤ℤ r.end +ℤ pos s

  -- No further batch fits.
  abbrev pub IsTight : ℕ → ReaderRecord → Type 0
  IsTight c r = r.end +ℤ pos s <ℤ r.begin +ℤ pos (suc c * step b t s)

  abbrev pub quotient : ℤ → ℤ → ℕ
  quotient begin end = pos_part (end +ℤ pos s -ℤ begin) / step b t s

  pub div-bs_skip :
      (a : ℤ)
      → pos 0 ≤ℤ a
      → div_ℤ a (bs_skip (pos (suc b)) (pos t) (pos s)) ≡ ok (pos (pos_part a / step b t s))
  unfolding div_ℤ
  div-bs_skip a h =
      let e : b * (1 + t) + 1 + s ≡ suc (b * (1 + t) + s) = omega arith in
      rw (bs_skip-pos b t s, e) (ground arith)

  pub div-bs_skip_total :
      (a : ℤ) → (q : ℤ) × (div_ℤ a (bs_skip (pos (suc b)) (pos t) (pos s)) ≡ ok q)
  unfolding div_ℤ
  div-bs_skip_total a =
      let e : b * (1 + t) + 1 + s ≡ suc (b * (1 + t) + s) = omega arith in
      rw (bs_skip-pos b t s, e) (_, refl)

  -- The visits and records of the files from file `i` on.
  pub record Planned (i : ℕ) (visits : List ℕ) (records : List ReaderRecord) : Type 0 where
    pub known : All (λ v. (i ≤ v) × (v < i + length records)) visits
    pub files :
        (k : ℕ) (r : ReaderRecord)
        → get_elem? records k ≡ some r
        → FileInv (count (i + k) visits) r r.begin × IsTight (count (i + k) visits) r

  count-replicate_append :
      (n i k : ℕ) (rest : List ℕ)
      → count k (replicate n i ++ rest) ≡ (if i == k then n else 0) + count k rest
  count-replicate_append zero i k rest = ground arith
  count-replicate_append (suc n) i k rest = ground (arith, count-replicate_append n i k rest)

  count_above :
      (i m k : ℕ) (xs : List ℕ) → All (λ v. (i ≤ v) × (v < i + m)) xs → k < i → count k xs ≡ 0
  count_above i m k [] h lt = refl
  count_above i m k (x ∷ xs) h lt = ground (arith, count_above i m k xs h.1)

  All-replicate_range : (n i m : ℕ) → 0 < m → All (λ v. (i ≤ v) × (v < i + m)) (replicate n i)
  All-replicate_range zero i m h = tt
  All-replicate_range (suc n) i m h = ((omega arith, omega arith), All-replicate_range n i m h)

  abbrev pub file_record : ℤ → ℤ → ReaderRecord
  file_record begin end = record {
    begin = begin;
    end = end;
    interval = pos t;
    skip = pos s;
    current = begin;
  }

  room_lem :
      (begin end : ℤ)
      → begin <ℤ end
      → FileInv (quotient begin end) (file_record begin end) begin
        × IsTight (quotient begin end) (file_record begin end)
  room_lem begin end lt = (
    record {
      interval_is = refl;
      skip_is = refl;
      after_begin = omega arith;
      room = grind (
        arith,
        -ℤ_parts (end +ℤ pos s) begin,
        +ℤ_parts end (pos s),
        +ℤ_parts begin (pos (quotient begin end * step b t s)),
      );
    },
    grind (
      arith,
      -ℤ_parts (end +ℤ pos s) begin,
      +ℤ_parts end (pos s),
      +ℤ_parts begin (pos (suc (quotient begin end) * step b t s)),
    ),
  )

  pub Planned-cons :
      (i : ℕ) (begin end : ℤ) (visits : List ℕ) (records : List ReaderRecord)
      → begin <ℤ end
      → Planned (i + 1) visits records
      → Planned i (replicate (quotient begin end) i ++ visits) (file_record begin end ∷ records)
  Planned-cons i begin end visits records lt p = record {
    known =
        All-append _ (replicate (quotient begin end) i) visits
          (All-replicate_range (quotient begin end) i (suc (length records)) (omega arith))
          (All-weaken (λ v h. (omega arith, omega arith)) visits p.known);
    files = go;
  }
    where
      go :
          (k : ℕ) (r : ReaderRecord)
          → get_elem? (file_record begin end ∷ records) k ≡ some r
          → FileInv (count (i + k) (replicate (quotient begin end) i ++ visits)) r r.begin
            × IsTight (count (i + k) (replicate (quotient begin end) i ++ visits)) r
      go zero r h =
          let eq : r ≡ file_record begin end = cc in
          let c : count (i + 0) (replicate (quotient begin end) i ++ visits) ≡ quotient begin end =
            ground (
              arith,
              count-replicate_append (quotient begin end) i (i + 0) visits,
              count_above (i + 1) (length records) (i + 0) visits p.known,
            ) in
          rw (eq, c) (room_lem begin end lt)
      go (suc k) r h =
          let c : count (i + suc k) (replicate (quotient begin end) i ++ visits)
              ≡ count (i + 1 + k) visits =
            let e : i + suc k ≡ i + 1 + k = omega arith in
            rw e
              (ground (arith, count-replicate_append (quotient begin end) i (i + 1 + k) visits)) in
          rw c (p.files k r h)
