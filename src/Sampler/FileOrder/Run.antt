-- ===== src/Sampler/FileOrder/Run.antt =====
-- The calls of `Next` from a `Reset` of the file-order sampler on: the batches that they serve, for
-- any order of the visits.
use mathlib.Core.List.{Perm, Permᴰ}
use mathlib.Core.Logic.{∥∥₁_elim}
use native.Mathlib.Nat.{ℕ_set}
use native.Mathlib.Bridge.{le_prop}
use peli.Base.{
  ℕ, zero, suc, Option, none, ◌+◌, ◌*◌, drop, drop_get, ◌+ℤ◌, +ℤ_parts, eq_of_parts, ◌≡◌, ◌<◌, refl,
  sym, ap, ◌∙◌, subst, inl, inr, false, some, List, [], ◌∷◌, map, Outcome, ok, fatal, ◌>>=◌, arith,
  All, All-perm, All-weaken, length, get_elem?, get_elem?-lt, ℤ, pos,
}
use peli.Sampler.Batches.{Samples, batch_from}
use peli.Sampler.Batches.Laid.{step}
use peli.Sampler.Batches.Frames.{InRange}
use peli.Sampler.FileOrder.{ReaderRecord, FileOrder, rewind, reset, has_next, next}
use peli.Sampler.FileOrder.Plan.{count, FileInv}
use peli.Sampler.FileOrder.Fill.{HasPlan, IsReady, InFile, moved, after}
use peli.Sampler.FileOrder.Step.{set_records, next-Serves}
use peli.Sampler.FileOrder.Build.{IsBuilt}

-- The first `n` calls of `Next`, and the sampler after them.
pub run : ℕ → FileOrder → Outcome (List Samples × FileOrder)
run zero q = ok ([], q)
run (suc n) q = do (batch, r) ← next q; (batches, e) ← run n r; ok (batch ∷ batches, e)

count-Permᴰ : (k : ℕ) {xs ys : List ℕ} → Permᴰ xs ys → count k xs ≡ count k ys
count-Permᴰ k Permᴰ.nil = refl
count-Permᴰ k (Permᴰ.cons e p) = ground (arith, count-Permᴰ k p)
count-Permᴰ k (Permᴰ.swap e f) = ground arith
count-Permᴰ k (Permᴰ.trans p q) = count-Permᴰ k p ∙ count-Permᴰ k q

count-perm : (k : ℕ) {xs ys : List ℕ} → Perm xs ys → count k xs ≡ count k ys
count-perm k p = ∥∥₁_elim p (ℕ_set _ _) (count-Permᴰ k)

get_elem?-rewind :
    (rs : List ReaderRecord) (k : ℕ) (x : ReaderRecord)
    → get_elem? (map rewind rs) k ≡ some x
    → (y : ReaderRecord) × (get_elem? rs k ≡ some y) × (x ≡ rewind y)
get_elem?-rewind [] k x h = absurd (ground arith)
get_elem?-rewind (r ∷ rs) zero x h = (r, refl, cc)
get_elem?-rewind (r ∷ rs) (suc k) x h = get_elem?-rewind rs k x h

length-rewind : (rs : List ReaderRecord) → length (map rewind rs) ≡ length rs
length-rewind [] = refl
length-rewind (r ∷ rs) = ap suc (length-rewind rs)

-- The batch has `n` samples, all of one file and in that file's range.
abbrev pub IsServed : ℕ → List ReaderRecord → Samples → Type 0
IsServed n records batch =
    (i : ℕ) × (r : ReaderRecord) × (get_elem? records i ≡ some r)
    × (length batch ≡ n)
    × All (InRange i r.begin r.end) batch

module _ (b t s : ℕ) where
  -- The batch of file `i` for its visit `c`: the batches of a file follow each other from the
  -- begin of its range on, whatever is read between them.
  abbrev pub batch_of : ℕ → Option ReaderRecord → ℕ → Samples
  batch_of i none c = []
  batch_of i (some r) c = batch_from i (r.begin +ℤ pos (c * step b t s)) (pos 0) (pos t) (suc b)

  -- The batches of the visits in `order`, after the visits in `seen`.
  abbrev pub planned_batches : List ReaderRecord → List ℕ → List ℕ → List Samples
  planned_batches rs seen [] = []
  planned_batches rs seen (i ∷ order) =
      batch_of i (get_elem? rs i) (count i seen) ∷ planned_batches rs (i ∷ seen) order

  -- A record after `c` visits of its file, in place of the record `y`.
  pub record HasRead (c : ℕ) (y r : ReaderRecord) : Type 0 where
    pub begin_is : r.begin ≡ y.begin
    pub end_is : r.end ≡ y.end
    pub current_is : r.current ≡ y.begin +ℤ pos (c * step b t s)

  -- The records after the visits in `seen`.
  abbrev pub HaveRead : List ReaderRecord → List ℕ → FileOrder → Type 0
  HaveRead rs seen q =
      (k : ℕ) (r : ReaderRecord)
      → get_elem? q.records k ≡ some r
      → (y : ReaderRecord) × (get_elem? rs k ≡ some y) × HasRead (count k seen) y r

  pub built-HasPlan :
      (lens range : List ℤ) (q : FileOrder) → IsBuilt b t s lens range q → HasPlan b t s q
  built-HasPlan lens range q v = record {
    sized = v.sized;
    buffer = v.buffer;
    known = All-weaken (λ k h. omega arith) q.visit_order v.planned.known;
    planned = λ k r h.
        let same : 0 + k ≡ k = omega arith in
        subst (λ j. FileInv b t s (count j q.visit_order) r r.begin) same (v.planned.files k r h).0;
  }

  FileInv-reset :
      (q : FileOrder) (order : List ℕ)
      → Perm q.visit_order order
      → HasPlan b t s q
      → (k : ℕ) (x : ReaderRecord) → get_elem? (map rewind q.records) k ≡ some x
      → FileInv b t s (count k order) x x.begin × (x.current ≡ x.begin)
  FileInv-reset q order p v k x h =
      let (y, at, eq) = get_elem?-rewind q.records k x h in
      let f = v.planned k y at in
      rw (eq, ← count-perm k p)
        (
          record {
            interval_is = f.interval_is;
            skip_is = f.skip_is;
            after_begin = f.after_begin;
            room = f.room;
          },
          refl,
        )

  pub reset-IsReady :
      (q : FileOrder) (order : List ℕ)
      → Perm q.visit_order order
      → HasPlan b t s q
      → IsReady b t s (reset q order)
  unfolding reset
  reset-IsReady q order p v = record {
    plan = record {
      sized = v.sized;
      buffer = v.buffer;
      known =
          rw (length-rewind q.records)
            (All-perm (λ k. k < length q.records) (λ k. le_prop) p v.known);
      planned = λ k x h. (FileInv-reset q order p v k x h).0;
    };
    to_come = λ k x h.
        let (f, start) = FileInv-reset q order p v k x h in
        subst (λ z. FileInv b t s (count k order) x z) (sym start) f;
  }

  -- A `Reset` takes every record back to the begin of its range.
  pub reset-HaveRead :
      (rs : List ReaderRecord) (seen : List ℕ) (q : FileOrder) (order : List ℕ)
      → HaveRead rs seen q
      → HaveRead rs [] (reset q order)
  unfolding reset
  reset-HaveRead rs seen q order v k x h =
      let (y, at, eq) = get_elem?-rewind q.records k x h in
      let (z, at', read) = v k y at in
      let again : HasRead 0 z (rewind y) = record {
        begin_is = read.begin_is;
        end_is = read.end_is;
        current_is = rw read.begin_is (
            omega (
              arith,
              eq_of_parts z.begin (z.begin +ℤ pos (0 * step b t s)),
              +ℤ_parts z.begin (pos (0 * step b t s)),
            ));
      } in
      (z, at', subst (HasRead 0 z) (sym eq) again)

  HasRead-moved : (c : ℕ) (y r : ReaderRecord) → HasRead c y r → HasRead (suc c) y (moved b t s r)
  HasRead-moved c y r h = record {
    begin_is = h.begin_is;
    end_is = h.end_is;
    current_is = rw h.current_is (
        omega (
          arith,
          eq_of_parts (y.begin +ℤ pos (c * step b t s) +ℤ pos (step b t s))
              (y.begin +ℤ pos (suc c * step b t s)),
          +ℤ_parts y.begin (pos (c * step b t s)),
          +ℤ_parts (y.begin +ℤ pos (c * step b t s)) (pos (step b t s)),
          +ℤ_parts y.begin (pos (suc c * step b t s)),
        ));
  }

  pub after-HaveRead :
      (rs : List ReaderRecord) (seen : List ℕ) (q : FileOrder) (i : ℕ) (r : ReaderRecord)
      (batch : Samples)
      → get_elem? q.records i ≡ some r
      → HaveRead rs seen q
      → HaveRead rs (i ∷ seen) (after b t s q i r batch)
  after-HaveRead rs seen q i r batch at v =
      let here : count i (i ∷ seen) ≡ suc (count i seen) = ground arith in
      let (y, at', h) = v i r at in
      set_records b t s
        (λ k x. (y : ReaderRecord) × (get_elem? rs k ≡ some y) × HasRead (count k (i ∷ seen)) y x)
        q.records i (moved b t s r) (get_elem?-lt q.records i at)
        (y, at', rw here (HasRead-moved (count i seen) y r h))
        (λ k x ne h'.
          let there : count k (i ∷ seen) ≡ count k seen = ground arith in rw there (v k x h'))

  -- `n` calls succeed and serve the batches of the visits still to come, and the next one fails.
  abbrev pub Runs : List ReaderRecord → List ℕ → ℕ → FileOrder → Type 0
  Runs rs seen n q =
      (batches : List Samples) × (end : FileOrder) × (run n q ≡ ok (batches, end))
      × (batches ≡ planned_batches rs seen (drop q.visit_idx q.visit_order))
      × (length batches ≡ n)
      × All (IsServed (suc b) rs) batches
      × (has_next end ≡ false)
      × (next end ≡ fatal)

  drop_all : (xs : List ℕ) (n : ℕ) → n ≡ length xs → drop n xs ≡ []
  drop_all [] zero h = refl
  drop_all [] (suc n) h = refl
  drop_all (x ∷ xs) zero h = absurd (omega arith)
  drop_all (x ∷ xs) (suc n) h = drop_all xs n (omega arith)

  -- The batch that `Next` serves is the planned one.
  batch-planned :
      (rs : List ReaderRecord) (seen : List ℕ) (i : ℕ) (r : ReaderRecord) (batch : Samples)
      → InFile b t s i r batch
      → ((y : ReaderRecord) × (get_elem? rs i ≡ some y) × HasRead (count i seen) y r)
      → (batch ≡ batch_of i (get_elem? rs i) (count i seen)) × IsServed (suc b) rs batch
  batch-planned rs seen i r batch in_file (y, at, h) = (
    in_file.0
        ∙ ap (λ p. batch_from i p (pos 0) (pos t) (suc b)) h.current_is
        ∙ sym (ap (λ o. batch_of i o (count i seen)) at),
    (i, y, at, in_file.1, rw (h.begin_is, h.end_is) at in_file.2),
  )

  pub run-Runs :
      (rs : List ReaderRecord) (seen : List ℕ) (n : ℕ) (q : FileOrder)
      → IsReady b t s q
      → HaveRead rs seen q
      → n + q.visit_idx ≡ length q.visit_order
      → Runs rs seen n q
  unfolding run
  run-Runs rs seen zero q v w h = elim (next-Serves b t s q v) [
    | inl (i, r, batch, at, _, _, _, _) ↦
        absurd (omega (arith, get_elem?-lt q.visit_order q.visit_idx at))
    | inr (done, no_more, eq) ↦ (
      [],
      q,
      refl,
      ap (planned_batches rs seen) (sym (drop_all q.visit_order q.visit_idx (omega arith))),
      refl,
      tt,
      no_more,
      eq,
    )
  ]
  run-Runs rs seen (suc n) q v w h = elim (next-Serves b t s q v) [
    | inl (i, r, batch, at, file, eq, in_file, ready) ↦
        let (batches, end, eq', planned, len, served, no_more, over) =
          run-Runs rs (i ∷ seen) n (after b t s q i r batch) ready
            (after-HaveRead rs seen q i r batch file w) (omega arith) in
        let (this, in_range) = batch-planned rs seen i r batch in_file (w i r file) in
        (
          batch ∷ batches,
          end,
          rw (eq, eq'),
          ap (λ x. x ∷ batches) this
              ∙ ap (λ xs. batch_of i (get_elem? rs i) (count i seen) ∷ xs) planned
              ∙ ap (planned_batches rs seen) (sym (drop_get q.visit_order q.visit_idx at)),
          ap suc len,
          (in_range, served),
          no_more,
          over,
        )
    | inr (done, _, _) ↦ absurd (omega arith)
  ]
