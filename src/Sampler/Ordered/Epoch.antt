-- ===== src/Sampler/Ordered/Epoch.antt =====
-- A whole epoch: the calls of `Next` from one `Reset` to the end.
use mathlib.Core.List.{Perm}
use native.Mathlib.Nat.{ℕ_set}
use peli.Base.{
  ℕ, zero, suc, ◌+◌, ◌≡◌, ◌≤◌, ◌<◌, ◌⊎◌, refl, inl, inr, true, false, some, List, [], ◌∷◌, Outcome,
  ok, fatal, ◌>>=◌, check_eq_of_eq, length-perm, All-perm, arith, All, All-get, length, get_elem?,
  drop, drop_get, drop_all, get_elem?_total,
}
use peli.Sampler.Batches.{Samples}
use peli.Sampler.Ordered.{Ordered, reset_sequential, reset_random, has_next, next, size}

-- Every batch fills the sample buffer.
abbrev pub IsReady : Ordered → Type 0
IsReady s = (length s.samples ≡ s.bs) × All (λ batch. length batch ≡ s.bs) s.visit_order

-- The first `n` calls of `Next`, and the sampler after them.
pub run : ℕ → Ordered → Outcome (List Samples × Ordered)
run zero s = ok ([], s)
run (suc n) s = do (batch, t) ← next s; (batches, u) ← run n t; ok (batch ∷ batches, u)

-- `Next` serves the batch at the cursor, and fails exactly at the end.
abbrev pub Serves : Ordered → Outcome (Samples × Ordered) → Type 0
Serves s o =
    ((batch : Samples) × (get_elem? s.visit_order s.curr ≡ some batch)
      × (has_next s ≡ true)
      × (o ≡ ok (batch, record s { samples = batch; curr = s.curr + 1 }))
      × IsReady (record s { samples = batch; curr = s.curr + 1 }))
    ⊎ ((length s.visit_order ≤ s.curr) × (has_next s ≡ false) × (o ≡ fatal))

has_next_cases :
    (s : Ordered)
    → ((s.curr < length s.visit_order) × (has_next s ≡ true))
      ⊎ ((length s.visit_order ≤ s.curr) × (has_next s ≡ false))
unfolding has_next
has_next_cases s = ground arith

pub next-Serves : (s : Ordered) → IsReady s → Serves s (next s)
unfolding next has_next
next-Serves s r = elim (has_next_cases s) [
  | inr (done, no_more) ↦ inr (done, no_more, rw no_more)
  | inl (lt, more) ↦
      let (batch, at) = get_elem?_total s.visit_order s.curr lt in
      inl (
        batch,
        at,
        more,
        rw (more, check_eq_of_eq (length s.samples) s.bs r.0, at),
        (All-get _ s.visit_order s.curr r.1 at, r.1),
      )
]

-- The state after the epoch, apart from the buffer.
record Finished (s t : Ordered) : Type 0 where
  order_kept : t.visit_order ≡ s.visit_order
  at_end : t.curr ≡ length s.visit_order
  ready : IsReady t
  no_more : has_next t ≡ false

abbrev Runs : ℕ → Ordered → Outcome (List Samples × Ordered) → Type 0
Runs n s o = (t : Ordered) × (o ≡ ok (drop s.curr s.visit_order, t)) × Finished s t

run_served :
    (n : ℕ) (s : Ordered) (batch : Samples)
    → get_elem? s.visit_order s.curr ≡ some batch
    → next s ≡ ok (batch, record s { samples = batch; curr = s.curr + 1 })
    → Runs n
        (record s { samples = batch; curr = s.curr + 1 })
        (run n (record s { samples = batch; curr = s.curr + 1 }))
    → Runs (suc n) s (run (suc n) s)
unfolding run
run_served n s batch at eq (t, eq', fin) = (
  t,
  rw (eq, eq', drop_get s.visit_order s.curr at),
  record {
    order_kept = fin.order_kept;
    at_end = fin.at_end;
    ready = fin.ready;
    no_more = fin.no_more;
  },
)

run-Runs :
    (n : ℕ) (s : Ordered) → IsReady s → n + s.curr ≡ length s.visit_order → Runs n s (run n s)
unfolding run
run-Runs zero s r h = (
  s,
  rw (drop_all s.visit_order s.curr (omega arith)),
  record {
    order_kept = refl;
    at_end = omega arith;
    ready = r;
    no_more = unfold has_next in ground arith;
  },
)
run-Runs (suc n) s r h = elim (next-Serves s r) [
  | inl (batch, at, more, eq, ready) ↦
      run_served n s batch at eq
        (run-Runs n (record s { samples = batch; curr = s.curr + 1 }) ready (omega arith))
  | inr (done, _, _) ↦ absurd (omega arith)
]

abbrev Ends : Ordered → Type 0
Ends s =
    (t : Ordered) × (run (length s.visit_order) s ≡ ok (s.visit_order, t))
    × (has_next t ≡ false)
    × (next t ≡ fatal)

ended : (t : Ordered) → IsReady t → has_next t ≡ false → next t ≡ fatal
ended t ready no_more = elim (next-Serves t ready) [
  | inl (_, _, more, _, _) ↦ absurd (ground arith)
  | inr (_, _, eq) ↦ eq
]

whole_epoch : (s : Ordered) → IsReady s → s.curr ≡ 0 → Ends s
whole_epoch s r start =
    let (t, eq, fin) = run-Runs (length s.visit_order) s r (omega arith) in
    let from_start : drop s.curr s.visit_order ≡ s.visit_order = rw start refl in
    (t, rw from_start at eq, fin.no_more, ended t fin.ready fin.no_more)

-- After `Reset`, `Size` calls of `Next` serve the visit order from first to last.
pub sequential_epoch :
    (s : Ordered)
    → IsReady s
    → (t : Ordered) × (run (size s) (reset_sequential s) ≡ ok (s.visit_order, t))
      × (has_next t ≡ false)
      × (next t ≡ fatal)
unfolding size reset_sequential
sequential_epoch s r = whole_epoch (record s { curr = 0 }) r refl

reset_random-IsReady :
    (s : Ordered) (shuffled : List Samples)
    → Perm s.visit_order shuffled
    → IsReady s
    → IsReady (reset_random s shuffled)
unfolding reset_random
reset_random-IsReady s shuffled p r =
    (r.0, All-perm (λ batch. length batch ≡ s.bs) (λ batch. ℕ_set _ _) p r.1)

-- After a shuffle that only reorders the batches, `Size` calls of `Next` serve the shuffled order.
pub random_epoch :
    (s : Ordered) (shuffled : List Samples)
    → Perm s.visit_order shuffled
    → IsReady s
    → (t : Ordered) × (run (size s) (reset_random s shuffled) ≡ ok (shuffled, t))
      × (has_next t ≡ false)
      × (next t ≡ fatal)
unfolding size reset_random
random_epoch s shuffled p r =
    let same : length s.visit_order ≡ length shuffled = length-perm p in
    rw same (
      whole_epoch (record s { visit_order = shuffled; curr = 0 })
        (reset_random-IsReady s shuffled p r) refl)
