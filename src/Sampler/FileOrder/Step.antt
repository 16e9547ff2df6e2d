-- ===== src/Sampler/FileOrder/Step.antt =====
-- One `Next` of the file-order sampler.
use peli.Base.{
  ℕ, suc, ◌+◌, ◌*◌, ◌≡◌, ◌≢◌, ◌≤◌, ◌<◌, ◌⊎◌, sym, ◌∙◌, subst, inl, inr, true, false, some, List,
  ◌∷◌, Outcome, ok, fatal, check_eq_of_eq, arith, Bool-cases, All-get, length, ◌==◌, get_elem?, set,
  length-set, get_elem?-set_self, get_elem?-set_ne, get_elem?_total, drop, drop_get, ℤ, pos, ◌+ℤ◌,
  +ℤ_parts,
}
use peli.Sampler.Batches.{Samples}
use peli.Sampler.Batches.Laid.{step}
use peli.Sampler.FileOrder.{ReaderRecord, FileOrder, has_next, next}
use peli.Sampler.FileOrder.Plan.{count, FileInv}
use peli.Sampler.FileOrder.Fill.{IsReady, InFile, Fills, fill-Fills, moved, after}

module _ (b t s : ℕ) where
  FileInv-moved :
      (c : ℕ) (r : ReaderRecord)
      → FileInv b t s (suc c) r r.current
      → FileInv b t s c (moved b t s r) (moved b t s r).current
  FileInv-moved c r f = record {
    interval_is = f.interval_is;
    skip_is = f.skip_is;
    after_begin = omega (arith, f.after_begin, +ℤ_parts r.current (pos (step b t s)));
    room = omega (
      arith,
      f.room,
      +ℤ_parts r.current (pos (step b t s)),
      +ℤ_parts (r.current +ℤ pos (step b t s)) (pos (c * step b t s)),
      +ℤ_parts r.current (pos (suc c * step b t s)),
    );
  }

  -- A fact about every record survives the write of one record.
  pub set_records :
      (P : ℕ → ReaderRecord → Type 0) (records : List ReaderRecord) (i : ℕ) (r : ReaderRecord)
      → i < length records
      → P i r
      → ((k : ℕ) (x : ReaderRecord) → i ≢ k → get_elem? records k ≡ some x → P k x)
      → (k : ℕ) (x : ReaderRecord) → get_elem? (set records i r) k ≡ some x
      → P k x
  set_records P records i r lt here there k x h = elim (Bool-cases (i == k)) [
    | inl e ↦
        let same : i ≡ k = ground arith in
        let eq : r ≡ x = ground (arith, get_elem?-set_self records i r lt) in
        subst (λ j. P j x) same (subst (P i) eq here)
    | inr e ↦
        let ne : i ≢ k = λ same. ground arith in
        there k x ne (sym (get_elem?-set_ne records r ne) ∙ h)
  ]

  FileInv-recount :
      (c d : ℕ) (r : ReaderRecord) (x : ℤ) → c ≡ d → FileInv b t s c r x → FileInv b t s d r x
  FileInv-recount c d r x e f = subst (λ n. FileInv b t s n r x) e f

  after-IsReady :
      (q : FileOrder) (i : ℕ) (r : ReaderRecord) (batch : Samples)
      → get_elem? q.visit_order q.visit_idx ≡ some i
      → get_elem? q.records i ≡ some r
      → i < length q.records
      → length batch ≡ suc b
      → IsReady b t s q
      → IsReady b t s (after b t s q i r batch)
  after-IsReady q i r batch at file lt full v = record {
    plan = record {
      sized = v.plan.sized;
      buffer = full;
      known = rw (length-set q.records i (moved b t s r)) v.plan.known;
      planned =
          set_records (λ k x. FileInv b t s (count k q.visit_order) x x.begin) q.records i
            (moved b t s r) lt (as_moved (v.plan.planned i r file)) (λ k x ne. v.plan.planned k x);
    };
    to_come =
        set_records
          (λ k x. FileInv b t s (count k (drop (q.visit_idx + 1) q.visit_order)) x x.current)
          q.records i (moved b t s r) lt
          (FileInv-moved _ r (FileInv-recount _ _ r r.current here (v.to_come i r file)))
          (λ k x ne h. FileInv-recount _ _ x x.current (there k ne) (v.to_come k x h));
  }
    where
      now : drop q.visit_idx q.visit_order ≡ i ∷ drop (q.visit_idx + 1) q.visit_order
      now = drop_get q.visit_order q.visit_idx at

      here :
          count i (drop q.visit_idx q.visit_order)
          ≡ suc (count i (drop (q.visit_idx + 1) q.visit_order))
      here = rw now (ground arith)

      there :
          (k : ℕ)
          → i ≢ k
          → count k (drop q.visit_idx q.visit_order)
            ≡ count k (drop (q.visit_idx + 1) q.visit_order)
      there k ne = rw now (ground arith)

      as_moved :
          FileInv b t s (count i q.visit_order) r r.begin
          → FileInv b t s (count i q.visit_order) (moved b t s r) r.begin
      as_moved f = record {
        interval_is = f.interval_is;
        skip_is = f.skip_is;
        after_begin = f.after_begin;
        room = f.room;
      }

  -- What `Next` does: it serves a batch of the file whose turn it is, or the epoch is over.
  abbrev pub Serves : FileOrder → Outcome (Samples × FileOrder) → Type 0
  Serves q o =
      ((i : ℕ) × (r : ReaderRecord) × (batch : Samples) × (get_elem? q.visit_order q.visit_idx
          ≡ some i)
        × (get_elem? q.records i ≡ some r)
        × (o ≡ ok (batch, after b t s q i r batch))
        × InFile b t s i r batch
        × IsReady b t s (after b t s q i r batch))
      ⊎ ((length q.visit_order ≤ q.visit_idx) × (has_next q ≡ false) × (o ≡ fatal))

  has_next_cases :
      (q : FileOrder)
      → ((q.visit_idx < length q.visit_order) × (has_next q ≡ true))
        ⊎ ((length q.visit_order ≤ q.visit_idx) × (has_next q ≡ false))
  unfolding has_next
  has_next_cases q = ground arith

  next_of_fill :
      (q : FileOrder) (i : ℕ) (r : ReaderRecord)
      → has_next q ≡ true
      → get_elem? q.visit_order q.visit_idx ≡ some i
      → get_elem? q.records i ≡ some r
      → i < length q.records
      → IsReady b t s q
      → Fills b t s i r (suc b)
      → Serves q (next q)
  unfolding next has_next
  next_of_fill q i r more at file lt v (batch, p, eq, in_file, start) = inl (
    i,
    r,
    batch,
    at,
    file,
    rw (
      more,
      check_eq_of_eq (length q.samples) q.bs (v.plan.buffer ∙ sym v.plan.sized),
      at,
      file,
      v.plan.sized,
      eq,
      start,
    ),
    in_file,
    after-IsReady q i r batch at file lt in_file.1 v,
  )

  pub next-Serves : (q : FileOrder) → IsReady b t s q → Serves q (next q)
  unfolding next has_next
  next-Serves q v = elim (has_next_cases q) [
    | inr (done, no_more) ↦ inr (done, no_more, rw no_more)
    | inl (lt, more) ↦
        let (i, at) = get_elem?_total q.visit_order q.visit_idx lt in
        let known : i < length q.records = All-get _ q.visit_order q.visit_idx v.plan.known at in
        let (r, file) = get_elem?_total q.records i known in
        let one_more : count i (drop q.visit_idx q.visit_order)
            ≡ suc (count i (drop (q.visit_idx + 1) q.visit_order)) =
          rw (drop_get q.visit_order q.visit_idx at) (ground arith) in
        next_of_fill q i r more at file known v (
          fill-Fills b t s i (count i (drop (q.visit_idx + 1) q.visit_order)) r
            (FileInv-recount _ _ r r.current one_more (v.to_come i r file)))
  ]
