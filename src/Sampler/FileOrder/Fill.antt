-- ===== src/Sampler/FileOrder/Fill.antt =====
-- The samples of one `Next` of the file-order sampler, and the invariant that keeps them in range.
use peli.Base.{
  ℕ, zero, suc, ◌+◌, ◌*◌, ◌≡◌, ◌<◌, refl, ap, some, [], ok, check, arith, All, length, get_elem?,
  set, drop, ℤ, pos, ◌+ℤ◌, ◌-ℤ◌, ◌≤ℤ◌, ltb_ℤ, +ℤ_parts, -ℤ_parts, eq_of_parts,
}
use peli.Sampler.Batches.{Samples, batch_from}
use peli.Sampler.Batches.Frames.{InRange, batch_from-InRange, length-batch_from, offset_next}
use peli.Sampler.Batches.Laid.{step}
use peli.Sampler.FileOrder.{ReaderRecord, FileOrder, fill}
use peli.Sampler.FileOrder.Plan.{count, FileInv}

-- The loop of `Next` takes the samples that the other samplers lay out, while they are in range.
pub fill-batch_from :
    (i : ℕ) (r : ReaderRecord) (b : ℤ) (k t n : ℕ)
    → r.interval ≡ pos t
    → b +ℤ pos (k + n * (1 + t)) ≤ℤ r.end +ℤ pos t
    → fill i r (b +ℤ pos k) n ≡ ok (batch_from i b (pos k) (pos t) n, b +ℤ pos (k + n * (1 + t)))
unfolding fill batch_from
fill-batch_from i r b k t zero e h = ap (λ (m : ℕ). ok ([], b +ℤ pos m)) (omega arith)
fill-batch_from i r b k t (suc n) e h =
    let below : check (ltb_ℤ (b +ℤ pos k) r.end) ≡ ok tt =
      ground (
        arith,
        +ℤ_parts b (pos k),
        +ℤ_parts b (pos (k + suc n * (1 + t))),
        +ℤ_parts r.end (pos t),
      ) in
    let moved : (b +ℤ pos k) +ℤ (pos t +ℤ pos 1) ≡ b +ℤ pos (k + (1 + t)) = omega (
      arith,
      eq_of_parts ((b +ℤ pos k) +ℤ (pos t +ℤ pos 1)) (b +ℤ pos (k + (1 + t))),
      +ℤ_parts b (pos k),
      +ℤ_parts (pos t) (pos 1),
      +ℤ_parts (b +ℤ pos k) (pos t +ℤ pos 1),
      +ℤ_parts b (pos (k + (1 + t))),
    ) in
    let same : k + (1 + t) + n * (1 + t) ≡ k + suc n * (1 + t) = omega arith in
    let rest = fill-batch_from i r b (k + (1 + t)) t n e (rw same h) in
    rw (below, e, moved, rest, offset_next k t, same)

module _ (b t s : ℕ) where
  -- The plan fits: the visits of each file, laid out from its begin, stay in its range.
  pub record HasPlan (q : FileOrder) : Type 0 where
    pub sized : q.bs ≡ suc b
    pub buffer : length q.samples ≡ suc b
    pub known : All (λ v. v < length q.records) q.visit_order
    pub planned :
        (k : ℕ) (r : ReaderRecord)
        → get_elem? q.records k ≡ some r
        → FileInv b t s (count k q.visit_order) r r.begin

  -- Between two calls: the visits still to come fit after each file's current frame.
  pub record IsReady (q : FileOrder) : Type 0 where
    pub plan : HasPlan q
    pub to_come :
        (k : ℕ) (r : ReaderRecord)
        → get_elem? q.records k ≡ some r
        → FileInv b t s (count k (drop q.visit_idx q.visit_order)) r r.current

  -- The frames of one batch after another of file `i`, all in its range.
  abbrev pub InFile : ℕ → ReaderRecord → Samples → Type 0
  InFile i r batch =
      (batch ≡ batch_from i r.current (pos 0) (pos t) (suc b))
      × (length batch ≡ suc b)
      × All (InRange i r.begin r.end) batch

  -- The record of a file after one of its batches.
  abbrev pub moved : ReaderRecord → ReaderRecord
  moved r = record r { current = r.current +ℤ pos (step b t s) }

  abbrev pub after : FileOrder → ℕ → ReaderRecord → Samples → FileOrder
  after q i r batch = record q {
    samples = batch;
    records = set q.records i (moved r);
    visit_idx = q.visit_idx + 1;
  }

  abbrev pub Fills : ℕ → ReaderRecord → ℕ → Type 0
  Fills i r n =
      (batch : Samples) × (p : ℤ) × (fill i r r.current n ≡ ok (batch, p))
      × InFile i r batch
      × (p -ℤ r.interval +ℤ r.skip ≡ r.current +ℤ pos (step b t s))

  at_zero : (x : ℤ) → x +ℤ pos 0 ≡ x
  at_zero x = omega (arith, eq_of_parts (x +ℤ pos 0) x, +ℤ_parts x (pos 0))

  next_start : (x : ℤ) → x +ℤ pos (0 + suc b * (1 + t)) -ℤ pos t +ℤ pos s ≡ x +ℤ pos (step b t s)
  next_start x = omega (
    arith,
    eq_of_parts (x +ℤ pos (0 + suc b * (1 + t)) -ℤ pos t +ℤ pos s) (x +ℤ pos (step b t s)),
    +ℤ_parts x (pos (0 + suc b * (1 + t))),
    -ℤ_parts (x +ℤ pos (0 + suc b * (1 + t))) (pos t),
    +ℤ_parts (x +ℤ pos (0 + suc b * (1 + t)) -ℤ pos t) (pos s),
    +ℤ_parts x (pos (step b t s)),
  )

  -- With one more visit to come the samples of a batch are all in range.
  pub fill-Fills :
      (i c : ℕ) (r : ReaderRecord) → FileInv b t s (suc c) r r.current → Fills i r (suc b)
  fill-Fills i c r f =
      let room : r.current +ℤ pos (0 + suc b * (1 + t)) ≤ℤ r.end +ℤ pos t = omega (
        arith,
        f.room,
        +ℤ_parts r.current (pos (0 + suc b * (1 + t))),
        +ℤ_parts r.current (pos (suc c * step b t s)),
        +ℤ_parts r.end (pos t),
        +ℤ_parts r.end (pos s),
      ) in
      let filled = fill-batch_from i r r.current 0 t (suc b) f.interval_is room in
      (
        batch_from i r.current (pos 0) (pos t) (suc b),
        r.current +ℤ pos (0 + suc b * (1 + t)),
        rw (at_zero r.current) at filled,
        (
          refl,
          length-batch_from i r.current (pos 0) (pos t) (suc b),
          batch_from-InRange i r.begin r.end r.current 0 t (suc b) f.after_begin room,
        ),
        rw (f.interval_is, f.skip_is) (next_start r.current),
      )
