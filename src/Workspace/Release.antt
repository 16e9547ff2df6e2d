-- ===== src/Workspace/Release.antt =====
-- `Pool::Release`, and a block that is freed twice.
use peli.Base.{
  ℕ, ◌≡◌, ◌≢◌, ◌<◌, ◌⊎◌, inl, inr, Bool, true, false, ◌&&◌, ◌||◌, List, [], ◌∷◌, ok, fatal,
  check_eq, arith, ◌==◌, if◌then◌else◌, length, refl,
}
use peli.Workspace.{Entry, Device, Pool, release_all, release, free}
use peli.Workspace.Fit.{IsFreeList, count}
use peli.Workspace.Invariant.{Inv, Freed, free_lem}
use peli.Workspace.Alloc.{Elsewhere}

-- The block `d` is on the list, the guard apart.
listed : ℕ → List Entry → Bool
listed d [] = false
listed d (g ∷ []) = false
listed d (x ∷ y ∷ r) = d == x.data_ptr || listed d (y ∷ r)

listed_of_count :
    (d m : ℕ) (fl : List Entry) → IsFreeList fl → 0 < m → 0 < count d m fl → listed d fl ≡ true
unfolding listed
listed_of_count d m [] f pos h = absurd f
listed_of_count d m (g ∷ []) f pos h = ground arith
listed_of_count d m (x ∷ y ∷ r) f pos h = ground (arith, listed_of_count d m (y ∷ r) f.2 pos)

not_listed_of_count :
    (d : ℕ) (fl : List Entry)
    → IsFreeList fl
    → ((m : ℕ) → 0 < m → count d m fl ≡ 0)
    → listed d fl ≡ false
unfolding listed
not_listed_of_count d [] f h = refl
not_listed_of_count d (g ∷ []) f h = refl
not_listed_of_count d (x ∷ y ∷ r) f h =
    ground
      (arith, h x.size f.0, not_listed_of_count d (y ∷ r) f.2 (λ m pos. ground (arith, h m pos)))

module _ (dev : Device) (c : ℕ) where
  open dev use {State, size_of, free_data_space, size_of-free}

  size_of-release_all :
      (s : State) (fl : List Entry) (k d : ℕ)
      → size_of (release_all dev s c fl) k d
        ≡ (if (k == c) && listed d fl then 0 else size_of s k d)
  unfolding release_all listed
  size_of-release_all s [] k d = ground arith
  size_of-release_all s (g ∷ []) k d = ground arith
  size_of-release_all s (x ∷ y ∷ r) k d = ground (
    arith,
    size_of-free (release_all dev s c (y ∷ r)) c x.data_ptr k d,
    size_of-release_all s (y ∷ r) k d,
  )

  -- Every free block is given back, and no other.
  pub record Released (p : Pool) (s t : State) : Type 0 where
    pub gone : (d m : ℕ) → 0 < m → 0 < count d m p.free_list → size_of t c d ≡ 0
    pub kept :
        (d : ℕ) → ((m : ℕ) → 0 < m → count d m p.free_list ≡ 0) → size_of t c d ≡ size_of s c d
    pub apart : Elsewhere dev c s t

  release_all-Released :
      (p : Pool) (s : State) → Inv dev c p s → Released p s (release_all dev s c p.free_list)
  release_all-Released p s v = record {
    gone = λ d m pos h. ground (
      arith,
      size_of-release_all s p.free_list c d,
      listed_of_count d m p.free_list v.free_sorted pos h,
    );
    kept = λ d h. ground (
      arith,
      size_of-release_all s p.free_list c d,
      not_listed_of_count d p.free_list v.free_sorted h,
    );
    apart = λ k d ne. ground (arith, size_of-release_all s p.free_list k d);
  }

  abbrev pub ReleaseResult : Pool → State → Type 0
  ReleaseResult p s =
      ((length p.allocated ≡ 1)
        × ((t : State) × (release dev p s c ≡ ok (record p { free_list = [] }, t))
            × Released p s t))
      ⊎ ((length p.allocated ≢ 1) × (release dev p s c ≡ fatal))

  -- On a well-formed pool `Release` succeeds exactly if only the guard is on the allocated list.
  -- It then empties the free list, gives back every block that was on it and no other, and leaves
  -- what is live on the other devices as it was; else it fails.
  pub release_lem : (p : Pool) (s : State) → Inv dev c p s → ReleaseResult p s
  unfolding release
  release_lem p s v = elim (check_eq (length p.allocated) 1) [
    | inl (one, eq) ↦
        inl (one, (release_all dev s c p.free_list, rw eq, release_all-Released p s v))
    | inr (ne, eq) ↦ inr (ne, rw eq)
  ]

  free_refused :
      (q : Pool) (s : State) (d : ℕ)
      → ((m : ℕ) → 0 < m → count d m q.allocated ≡ 0)
      → Freed dev c q s d
      → free q d ≡ fatal
  free_refused q s d gone (inl (r, n, eq, v, pos, live, onto, from)) =
      absurd (ground (arith, from d n, gone n pos))
  free_refused q s d gone (inr (eq, _)) = eq

  free_again :
      (p q : Pool) (s : State) (d : ℕ)
      → d ≢ 0
      → Inv dev c p s
      → Freed dev c p s d
      → free p d ≡ ok q
      → free q d ≡ fatal
  free_again p q s d nz v (inl (r, n, eq, w, pos, live, onto, from)) h =
      let same : q ≡ r = cc in rw same (free_refused r s d gone (free_lem dev c r s d nz w))
    where
      gone : (m : ℕ) → 0 < m → count d m r.allocated ≡ 0
      gone m m_pos = ground (arith, from d m, from d n, v.owns d m m_pos, v.owns d n pos)
  free_again p q s d nz v (inr (eq, _)) h = absurd (ground arith)

  -- On a well-formed pool, once `Free` has taken a pointer that is not null, `Free` of the same
  -- pointer fails.
  pub free_twice :
      (p q : Pool) (s : State) (d : ℕ) → d ≢ 0 → Inv dev c p s → free p d ≡ ok q → free q d ≡ fatal
  free_twice p q s d nz v h = free_again p q s d nz v (free_lem dev c p s d nz v) h
