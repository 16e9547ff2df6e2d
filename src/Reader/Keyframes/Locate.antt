-- ===== src/Reader/Keyframes/Locate.antt =====
-- Which keyframe `LocateKeyframe` (video_reader.cc) finds.
use peli.Base.{
  ℕ, suc, ◌≡◌, ◌⊎◌, inl, inr, refl, ap, true, some, List, [], ◌∷◌, arith, Outcome, ok, or_fatal,
  get_elem?, All, All-weaken, All-get, ℤ, pos, ◌≤ℤ◌, ◌<ℤ◌, leb_ℤ, Bool-cases,
}
use peli.Reader.State.{Reader}
use peli.Reader.Keyframes.{
  frame_count, upper_bound, back_of, at_bound, locate_among, locate_keyframe,
}

abbrev pub Ascending : List ℤ → Type 0
Ascending [] = Unit
Ascending (k ∷ ks) = All (λ j. k <ℤ j) ks × Ascending ks

-- The greatest of `ks` that is not above `p`.
abbrev pub IsLastUpTo : List ℤ → ℤ → ℤ → Type 0
IsLastUpTo ks p k = ((i : ℕ) × (get_elem? ks i ≡ some k)) × (k ≤ℤ p) × All (λ j. j ≤ℤ p → j ≤ℤ k) ks

upper_bound_lem :
    (k : ℤ) (ks : List ℤ) (p : ℤ)
    → Ascending (k ∷ ks)
    → k ≤ℤ p
    → (i : ℕ) × (j : ℤ) × (upper_bound (k ∷ ks) p ≡ suc i)
      × (get_elem? (k ∷ ks) i ≡ some j)
      × (k ≤ℤ j)
      × (j ≤ℤ p)
      × All (λ l. l ≤ℤ p → l ≤ℤ j) (k ∷ ks)
unfolding upper_bound
upper_bound_lem k [] p h le =
    let here : leb_ℤ k p ≡ true = ground arith in
    (0, k, rw here refl, refl, omega arith, le, (λ l. omega arith, tt))
upper_bound_lem k (j ∷ ks) p (hk, hj) le =
    let here : leb_ℤ k p ≡ true = ground arith in
    elim (Bool-cases (leb_ℤ j p)) [
      | inl t ↦
          let (i, l, u, g, le₁, le₂, all) = upper_bound_lem j ks p hj (ground arith) in
          let first : k <ℤ j = hk.0 in
          (suc i, l, rw (here, u) refl, g, omega arith, le₂, (λ m. omega arith, all))
      | inr f ↦ (
        0,
        k,
        rw (here, f) refl,
        refl,
        omega arith,
        le,
        (λ l. omega arith, (λ l. ground arith, All-weaken (λ a lt l. ground arith) ks hj.0)),
      )
    ]

back_of_lem :
    (k : ℤ) (ks : List ℤ)
    → Ascending (k ∷ ks)
    → ((i : ℕ) × (get_elem? (k ∷ ks) i ≡ some (back_of k ks)))
      × All (λ j. j ≤ℤ back_of k ks) (k ∷ ks)
unfolding back_of
back_of_lem k [] h = ((0, refl), (omega arith, tt))
back_of_lem k (j ∷ ks) (hk, hj) =
    let ((i, g), (le, all)) = back_of_lem j ks hj in
    let first : k <ℤ j = hk.0 in ((suc i, g), (omega arith, (le, all)))

-- What `LocateKeyframe` may answer for `p`.
unfoldable pub Located : List ℤ → ℤ → Outcome ℤ → Type 0
Located [] p out = out ≡ ok (pos 0)
Located (k ∷ ks) p out =
    ((p ≤ℤ k) × (out ≡ ok (pos 0)))
    ⊎ ((k <ℤ p) × ((j : ℤ) × (out ≡ ok j) × IsLastUpTo (k ∷ ks) p j))

at_bound_of :
    (ks : List ℤ) (p : ℤ) (i : ℕ) (j : ℤ)
    → upper_bound ks p ≡ suc i
    → get_elem? ks i ≡ some j
    → at_bound ks p ≡ ok j
unfolding at_bound
at_bound_of ks p i j u g = rw (at_bound, u) (ap or_fatal g)

locate_among_lem :
    (r : Reader) (k : ℤ) (ks : List ℤ) (count p : ℤ)
    → Ascending (k ∷ ks)
    → All (λ j. j <ℤ count) (k ∷ ks)
    → frame_count r ≡ ok count
    → Located (k ∷ ks) p (locate_among r (k ∷ ks) p)
unfolding Located locate_among
locate_among_lem r k ks count p asc below counted = elim (Bool-cases (leb_ℤ p k)) [
  | inl t ↦ inl (ground arith, rw t refl)
  | inr f ↦ elim (Bool-cases (leb_ℤ count p)) [
    | inl t' ↦
        let (at, all) = back_of_lem k ks asc in
        let last : back_of k ks <ℤ count = All-get (λ j. j <ℤ count) (k ∷ ks) at.0 below at.1 in
        inr (
          ground arith,
          (
            back_of k ks,
            rw (f, counted, t') refl,
            (at, ground arith, All-weaken (λ a le l. le) (k ∷ ks) all),
          ),
        )
    | inr f' ↦
        let (i, j, u, g, le₁, le₂, all) = upper_bound_lem k ks p asc (ground arith) in
        inr (
          ground arith,
          (j, rw (f, counted, f') (at_bound_of (k ∷ ks) p i j u g), ((i, g), le₂, all)),
        )
  ]
]

locate_each :
    (r : Reader) (count p : ℤ) (ks : List ℤ)
    → Ascending ks
    → All (λ j. j <ℤ count) ks
    → frame_count r ≡ ok count
    → Located ks p (locate_among r ks p)
unfolding Located locate_among
locate_each r count p [] asc below counted = refl
locate_each r count p (k ∷ ks) asc below counted = locate_among_lem r k ks count p asc below counted

-- On a reader whose frames are counted and whose keyframes ascend below the count,
-- `LocateKeyframe` throws for no position. It answers 0 if there is no keyframe or the position is
-- at most the first one, and else the last keyframe that is not above the position.
pub locate_keyframe_lem :
    (r : Reader) (count p : ℤ)
    → Ascending r.key_indices
    → All (λ j. j <ℤ count) r.key_indices
    → frame_count r ≡ ok count
    → Located r.key_indices p (locate_keyframe r p)
unfolding locate_keyframe
locate_keyframe_lem r count p asc below counted =
    locate_each r count p r.key_indices asc below counted
