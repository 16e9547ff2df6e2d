-- ===== src/Loader/Serve.antt =====
-- What `Next`, `NextData` and `NextIndices` of the loader hand out.
use peli.Base.{
  ℕ, ◌≡◌, ◌<◌, refl, sym, ap, ◌∙◌, true, List, [], ◌∷◌, arith, ok, fatal, length, All, ℤ, pos,
  ◌==ℤ◌,
}
use peli.Sampler.Batches.{Samples}
use peli.Loader.{
  Readers, Loader, Sampler, sampler_next, frames_of_samples, label, loader_has_next, loader_next,
  loader_next_data, loader_next_indices,
}

-- The samples as one vector: the file and the frame of each.
abbrev pub pairs : Samples → List ℤ
pairs [] = []
pairs ((i, p) ∷ samples) = pos i ∷ p ∷ pairs samples

label-pairs :
    (i : ℕ) (samples : Samples)
    → All (λ x. x.0 ≡ i) samples
    → label i (frames_of_samples samples) ≡ pairs samples
unfolding label frames_of_samples
label-pairs i [] h = refl
label-pairs i ((j, p) ∷ samples) (same, h) =
    ap (λ k. pos k ∷ p ∷ label i (frames_of_samples samples)) (sym same)
    ∙ ap (λ l. pos j ∷ p ∷ l) (label-pairs i samples h)

module _ (rs : Readers) where
  -- The loader holds the data `d` and the labels `ls`: each can be fetched once, in either order.
  abbrev pub Holds : Loader rs → rs.Data → List ℤ → Type 0
  Holds l d ls =
      (l₁ : Loader rs) × (l₂ : Loader rs) × (l₃ : Loader rs) × (loader_next_data rs l ≡ ok (d, l₁))
      × (loader_next_data rs l₁ ≡ fatal)
      × (loader_next_indices rs l ≡ ok (ls, l₂))
      × (loader_next_indices rs l₂ ≡ fatal)
      × (loader_next_indices rs l₁ ≡ ok (ls, l₃))
      × (loader_next_data rs l₂ ≡ ok (d, l₃))

  ready-Holds : (l : Loader rs) → l.next_ready ≡ 3 → Holds l l.next_data l.next_indices
  unfolding loader_next_data loader_next_indices
  ready-Holds l ready = (
    record l { next_ready = 2 },
    record l { next_ready = 1 },
    record l { next_ready = 0 },
    rw ready refl,
    refl,
    rw ready refl,
    refl,
    refl,
    refl,
  )

  -- Where the sampler serves samples that are all of file `i` and as many as the batch size, and the
  -- reader of that file has their frames, `Next` succeeds, keeps what the sampler and the readers
  -- came to, and holds those frames and the file and the frame of each sample: `NextData` and
  -- `NextIndices` hand out each of the two once, in either order, and fail the second time.
  pub loader_next_lem :
      (l : Loader rs) (samples : Samples) (q : Sampler) (i : ℕ) (d : rs.Data) (t : rs.State)
      → loader_has_next rs l ≡ true
      → sampler_next l.sampler ≡ ok (samples, q)
      → (pos (length samples) ==ℤ l.batch_size) ≡ true
      → 0 < length samples
      → All (λ x. x.0 ≡ i) samples
      → rs.get_batch l.readers i (frames_of_samples samples) ≡ ok (d, t)
      → (k : Loader rs) × (loader_next rs l ≡ ok k)
        × (k.sampler ≡ q)
        × (k.readers ≡ t)
        × Holds k d (pairs samples)
  unfolding loader_next
  loader_next_lem l [] q i d t more served sized some_sample one_file batch = absurd (omega arith)
  loader_next_lem l ((j, p) ∷ samples) q i d t more served sized some_sample one_file batch =
      let all = (j, p) ∷ samples in
      let k : Loader rs = record l {
        next_data = d;
        next_indices = pairs all;
        next_ready = 3;
        sampler = q;
        readers = t;
      } in
      let batch_j = ap (λ x. rs.get_batch l.readers x (frames_of_samples all)) one_file.0 ∙ batch in
      let labels : label j (frames_of_samples all) ≡ pairs all =
        ap (λ x. label x (frames_of_samples all)) one_file.0 ∙ label-pairs i all one_file in
      (k, rw (more, served, sized, batch_j, labels) refl, refl, refl, ready-Holds k refl)
