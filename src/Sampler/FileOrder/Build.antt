-- ===== src/Sampler/FileOrder/Build.antt =====
-- The constructor of the file-order sampler succeeds exactly on a valid configuration.
use peli.Base.{
  ℕ, suc, ◌+◌, ◌/◌, ◌%◌, ◌≡◌, ◌⊎◌, refl, ap, inl, inr, List, [], ◌∷◌, ◌++◌, Outcome, ok, fatal,
  check, check_eq, arith, length, length-replicate, replicate, ℤ, pos, negsuc, ◌+ℤ◌, ◌-ℤ◌, ltb_ℤ,
  +ℤ_parts, -ℤ_parts,
}
use peli.Sampler.Batches.{resolve_end, check_range, bs_skip}
use peli.Sampler.Batches.Range.{AreRanges, CheckResult, check_range_lem}
use peli.Sampler.FileOrder.{ReaderRecord, FileOrder, div_ℤ, visit_files, new_file_order}
use peli.Sampler.FileOrder.Plan.{
  Planned, Planned-cons, quotient, file_record, div-bs_skip, div-bs_skip_total,
}

module _ (b t s : ℕ) where
  -- A record for each file, in the order of the files, with its range as the constructor resolves
  -- it; no batch of it is taken yet.
  abbrev pub planned_records : List ℤ → List ℤ → List ReaderRecord
  planned_records (len ∷ lens) (begin ∷ last ∷ range) =
      file_record b t s begin (resolve_end len last) ∷ planned_records lens range
  planned_records lens range = []

  abbrev Files : ℕ → List ℤ → List ℤ → Outcome (List ℕ × List ReaderRecord) → Type 0
  Files i lens range o =
      ((visits : List ℕ) × (records : List ReaderRecord) × (o ≡ ok (visits, records))
        × AreRanges lens range
        × (records ≡ planned_records lens range)
        × Planned b t s i visits records)
      ⊎ ((o ≡ fatal) × ¬ AreRanges lens range)

  abbrev files : ℕ → List ℤ → List ℤ → Outcome (List ℕ × List ReaderRecord)
  files i lens range = visit_files i lens range (pos (suc b)) (pos t) (pos s)

  visit_bad :
      (i : ℕ) (len : ℤ) (lens : List ℤ) (begin end : ℤ) (range : List ℤ) (q : ℤ)
      → div_ℤ (resolve_end len end +ℤ pos s -ℤ begin) (bs_skip (pos (suc b)) (pos t) (pos s)) ≡ ok q
      → check_range len begin (resolve_end len end) ≡ fatal
      → files i (len ∷ lens) (begin ∷ end ∷ range) ≡ fatal
  unfolding visit_files
  visit_bad i len lens begin end range (pos n) eq failed = rw (eq, failed)
  visit_bad i len lens begin end range (negsuc n) eq failed = rw eq

  visit_file :
      (i : ℕ) (len : ℤ) (lens : List ℤ) (begin end : ℤ) (range : List ℤ)
      → CheckResult len begin (resolve_end len end)
      → Files (i + 1) lens range (files (i + 1) lens range)
      → Files i (len ∷ lens) (begin ∷ end ∷ range) (files i (len ∷ lens) (begin ∷ end ∷ range))
  unfolding visit_files
  visit_file i len lens begin end range (inl (passed, valid))
        (inl (visits, records, eq, r, are, p)) =
      let last = resolve_end len end in
      let divided =
        div-bs_skip b t s (last +ℤ pos s -ℤ begin)
          (omega (arith, valid.1, -ℤ_parts (last +ℤ pos s) begin, +ℤ_parts last (pos s))) in
      inl (
        replicate (quotient b t s begin last) i ++ visits,
        file_record b t s begin last ∷ records,
        rw (divided, passed, eq),
        (valid, r),
        ap (λ rs. file_record b t s begin last ∷ rs) are,
        Planned-cons b t s i begin last visits records valid.1 p,
      )
  visit_file i len lens begin end range (inl (passed, valid)) (inr (eq, bad)) =
      let last = resolve_end len end in
      let divided =
        div-bs_skip b t s (last +ℤ pos s -ℤ begin)
          (omega (arith, valid.1, -ℤ_parts (last +ℤ pos s) begin, +ℤ_parts last (pos s))) in
      inr (rw (divided, passed, eq), λ all. bad all.1)
  visit_file i len lens begin end range (inr (failed, bad)) _ =
      let (q, eq) = div-bs_skip_total b t s (resolve_end len end +ℤ pos s -ℤ begin) in
      inr (visit_bad i len lens begin end range q eq failed, λ all. bad all.0)

  Planned-nil : (i : ℕ) → Planned b t s i [] []
  Planned-nil i = record { known = tt; files = λ k r h. absurd (ground arith) }

  visit_files-Files : (i : ℕ) (lens range : List ℤ) → Files i lens range (files i lens range)
  unfolding visit_files
  visit_files-Files i (len ∷ lens) (begin ∷ end ∷ range) =
      visit_file i len lens begin end range (check_range_lem len begin (resolve_end len end))
        (visit_files-Files (i + 1) lens range)
  visit_files-Files i [] range = inl ([], [], refl, tt, refl, Planned-nil i)
  visit_files-Files i (len ∷ lens) [] = inl ([], [], refl, tt, refl, Planned-nil i)
  visit_files-Files i (len ∷ lens) (begin ∷ []) = inl ([], [], refl, tt, refl, Planned-nil i)

  abbrev pub IsConfig : List ℤ → List ℤ → Type 0
  IsConfig lens range =
      (length range % 2 ≡ 0) × (length lens ≡ length range / 2) × AreRanges lens range

  -- A sampler as the constructor makes it from the lengths and the ranges of the files.
  pub record IsBuilt (lens range : List ℤ) (q : FileOrder) : Type 0 where
    pub sized : q.bs ≡ suc b
    pub buffer : length q.samples ≡ suc b
    pub at_start : q.visit_idx ≡ 0
    pub records_are : q.records ≡ planned_records lens range
    pub planned : Planned b t s 0 q.visit_order q.records

  abbrev pub Builds : List ℤ → List ℤ → Outcome FileOrder → Type 0
  Builds lens range o =
      ((q : FileOrder) × (o ≡ ok q) × IsConfig lens range × IsBuilt lens range q)
      ⊎ ((o ≡ fatal) × ¬ IsConfig lens range)

  -- With a batch size of at least 1 and an interval and a skip that are not negative, the
  -- constructor of the file-order sampler returns exactly if the sizes of the two vectors agree
  -- and every range passes the checks, and else fails. The sampler that it makes is at its first
  -- visit; it has a record for each file, in their order, with the file's resolved range, the
  -- interval, the skip and the range's begin as the current frame; its visits name these files
  -- only, and name each of them exactly as often as batches, each with the frames skipped after
  -- it, fit into the file's range with the skip added.
  pub new_file_order-Builds :
      (lens range : List ℤ)
      → Builds lens range (new_file_order lens range (pos (suc b)) (pos t) (pos s))
  unfolding new_file_order
  new_file_order-Builds lens range =
      let positive : check (ltb_ℤ (pos 0) (pos (suc b))) ≡ ok tt = ground arith in
      elim (check_eq (length range % 2) 0) [
        | inr (odd, eq) ↦ inr (rw (positive, eq), λ c. odd c.0)
        | inl (even, eq) ↦ elim (check_eq (length lens) (length range / 2)) [
          | inr (ne, eq') ↦ inr (rw (positive, eq, eq'), λ c. ne c.1)
          | inl (same, eq') ↦ elim (visit_files-Files 0 lens range) [
            | inr (eq'', bad) ↦ inr (rw (positive, eq, eq', eq''), λ c. bad c.2)
            | inl (visits, records, eq'', valid, are, p) ↦ inl (
              record {
                bs = suc b;
                samples = replicate (suc b) (0, pos 0);
                records = records;
                visit_order = visits;
                visit_idx = 0;
              },
              rw (positive, eq, eq', eq''),
              (even, same, valid),
              record {
                sized = refl;
                buffer = length-replicate (suc b) (0, pos 0);
                at_start = refl;
                records_are = are;
                planned = p;
              },
            )
          ]
        ]
      ]
