-- ===== src/Sampler/FileOrder/Epoch.antt =====
-- The file-order sampler in use: every epoch serves the planned batches, whatever was read before its
-- `Reset`.
use mathlib.Core.List.Perm
use mathlib.Core.List.{Perm}
use peli.Base.{
  ℕ, zero, suc, ◌*◌, drop, ◌+ℤ◌, +ℤ_parts, eq_of_parts, ◌≡◌, refl, sym, ap, ◌∙◌, subst, inl, inr,
  some, List, [], ◌∷◌, Outcome, ok, arith, length, length-perm, get_elem?, ℤ, pos,
}
use peli.Sampler.Batches.{Samples, resolve_end}
use peli.Sampler.Batches.Laid.{step}
use peli.Sampler.FileOrder.{ReaderRecord, FileOrder, new_file_order, reset, next, size}
use peli.Sampler.FileOrder.Plan.{count, FileInv, file_record}
use peli.Sampler.FileOrder.Fill.{IsReady, after}
use peli.Sampler.FileOrder.Step.{next-Serves}
use peli.Sampler.FileOrder.Build.{planned_records, IsBuilt, Builds, new_file_order-Builds}
use peli.Sampler.FileOrder.Run.{
  HaveRead, built-HasPlan, reset-IsReady, reset-HaveRead, after-HaveRead, Runs, run-Runs,
}

-- What calls of `Next` that succeed and of `Reset` make of the sampler `q₀`.
pub data Used (q₀ : FileOrder) : FileOrder → Type 0 where
  unused : Used q₀ q₀
  served : {q r : FileOrder} (batch : Samples) → Used q₀ q → next q ≡ ok (batch, r) → Used q₀ r
  reshuffled :
      {q : FileOrder} (order : List ℕ)
      → Used q₀ q
      → Perm q.visit_order order
      → Used q₀ (reset q order)

module _ (b t s : ℕ) where
  -- The sampler stands in an epoch of the plan of `q₀`.
  record IsInUse (rs : List ReaderRecord) (q₀ q : FileOrder) : Type 0 where
    ready : IsReady b t s q
    seen : List ℕ
    read : HaveRead b t s rs seen q
    same_visits : Perm q₀.visit_order q.visit_order

  planned_records-current :
      (lens range : List ℤ) (k : ℕ) (r : ReaderRecord)
      → get_elem? (planned_records b t s lens range) k ≡ some r
      → r.current ≡ r.begin
  planned_records-current (len ∷ lens) (begin ∷ last ∷ range) zero r h =
      let same : file_record b t s begin (resolve_end len last) ≡ r = cc in
      subst (λ (x : ReaderRecord). x.current ≡ x.begin) same refl
  planned_records-current (len ∷ lens) (begin ∷ last ∷ range) (suc k) r h =
      planned_records-current lens range k r h
  planned_records-current [] range k r h = absurd (ground arith)
  planned_records-current (len ∷ lens) [] k r h = absurd (ground arith)
  planned_records-current (len ∷ lens) (begin ∷ []) k r h = absurd (ground arith)

  built-IsInUse :
      (lens range : List ℤ) (q : FileOrder)
      → IsBuilt b t s lens range q
      → IsInUse (planned_records b t s lens range) q q
  built-IsInUse lens range q built =
      let plan = built-HasPlan b t s lens range q built in
      let start : (k : ℕ) (r : ReaderRecord)
          → get_elem? q.records k ≡ some r
          → r.current ≡ r.begin =
        λ k r h.
          planned_records-current lens range k r
            (ap (λ rs. get_elem? rs k) (sym built.records_are) ∙ h) in
      record {
        ready = record {
          plan = plan;
          to_come = λ k r h.
              let here : drop q.visit_idx q.visit_order ≡ q.visit_order =
                ap (λ n. drop n q.visit_order) built.at_start in
              subst (λ x. FileInv b t s (count k (drop q.visit_idx q.visit_order)) r x)
                (sym (start k r h))
                (subst (λ xs. FileInv b t s (count k xs) r r.begin) (sym here)
                  (plan.planned k r h));
        };
        seen = [];
        read = λ k r h. (
          r,
          ap (λ rs. get_elem? rs k) (sym built.records_are) ∙ h,
          record {
            begin_is = refl;
            end_is = refl;
            current_is = rw (start k r h) (
                omega (
                  arith,
                  eq_of_parts r.begin (r.begin +ℤ pos (0 * step b t s)),
                  +ℤ_parts r.begin (pos (0 * step b t s)),
                ));
          },
        );
        same_visits = Perm.refl q.visit_order;
      }

  served-IsInUse :
      (rs : List ReaderRecord) (q₀ q r : FileOrder) (batch : Samples)
      → IsInUse rs q₀ q
      → next q ≡ ok (batch, r)
      → IsInUse rs q₀ r
  served-IsInUse rs q₀ q r batch v e = elim (next-Serves b t s q v.ready) [
    | inl (i, x, new, at, file, eq, in_file, ready) ↦
        let same : after b t s q i x new ≡ r = cc in
        subst (IsInUse rs q₀) same (record {
          ready = ready;
          seen = i ∷ v.seen;
          read = after-HaveRead b t s rs v.seen q i x new file v.read;
          same_visits = v.same_visits;
        })
    | inr (_, _, eq) ↦ absurd (let clash = sym eq ∙ e in cc)
  ]

  reset-IsInUse :
      (rs : List ReaderRecord) (q₀ q : FileOrder) (order : List ℕ)
      → IsInUse rs q₀ q
      → Perm q.visit_order order
      → IsInUse rs q₀ (reset q order)
  unfolding reset
  reset-IsInUse rs q₀ q order v p = record {
    ready = reset-IsReady b t s q order p v.ready.plan;
    seen = [];
    read = reset-HaveRead b t s rs v.seen q order v.read;
    same_visits = Perm.trans v.same_visits p;
  }

  Used-IsInUse :
      {rs : List ReaderRecord} {q₀ q : FileOrder} → IsInUse rs q₀ q₀ → Used q₀ q → IsInUse rs q₀ q
  Used-IsInUse v unused = v
  Used-IsInUse {rs} {q₀} v (served {q} {r} batch u e) =
      served-IsInUse rs q₀ q r batch (Used-IsInUse v u) e
  Used-IsInUse {rs} {q₀} v (reshuffled {q} order u p) =
      reset-IsInUse rs q₀ q order (Used-IsInUse v u) p

  Builds-IsBuilt :
      (lens range : List ℤ) (o : Outcome FileOrder) (q : FileOrder)
      → Builds b t s lens range o
      → o ≡ ok q
      → IsBuilt b t s lens range q
  Builds-IsBuilt lens range o q (inl (q', eq, config, built)) h =
      let same : q' ≡ q = cc in subst (IsBuilt b t s lens range) same built
  Builds-IsBuilt lens range o q (inr (eq, _)) h = absurd (ground arith)

  -- With a batch size of at least 1 and an interval and a skip that are not negative, let the
  -- constructor build a file-order sampler, let any calls of `Next` that succeed and of `Reset` be
  -- made on it, and then reset it with any permutation of its visit order. As built, its records
  -- are the ranges of the files in their order, and its visits name each file exactly as often as
  -- batches fit; the new order is a permutation of these visits. From the reset on as many calls of
  -- `Next` succeed as `Size` says. They serve, visit by visit in the new order, the batches of the
  -- visited files: visit `c` of a file takes the batch that starts `c` steps behind the begin of
  -- its range. Each batch has the batch size, and all its samples are of one file and in that
  -- file's range. Then `HasNext` is false and `Next` fails.
  pub file_order_service :
      (lens range : List ℤ) (q₀ q : FileOrder) (order : List ℕ)
      → new_file_order lens range (pos (suc b)) (pos t) (pos s) ≡ ok q₀
      → Used q₀ q
      → Perm q.visit_order order
      → IsBuilt b t s lens range q₀
        × Perm q₀.visit_order order
        × Runs b t s (planned_records b t s lens range) [] (size q₀) (reset q order)
  unfolding size reset
  file_order_service lens range q₀ q order h used p =
      let built = Builds-IsBuilt lens range _ q₀ (new_file_order-Builds b t s lens range) h in
      let v = Used-IsInUse (built-IsInUse lens range q₀ built) used in
      let again = reset-IsInUse (planned_records b t s lens range) q₀ q order v p in
      (
        built,
        again.same_visits,
        run-Runs b t s (planned_records b t s lens range) [] (length q₀.visit_order) (reset q order)
            again.ready
            (reset-HaveRead b t s (planned_records b t s lens range) v.seen q order v.read)
            (omega (arith, length-perm again.same_visits)),
      )
