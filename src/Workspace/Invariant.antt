-- ===== src/Workspace/Invariant.antt =====
-- The invariant of a device's pool, and `Pool::Free`.
use peli.Base.{
  ℕ, ◌+◌, ◌≡◌, ◌≢◌, ◌≤◌, ◌<◌, ◌⊎◌, refl, inl, inr, ◌&&◌, some, List, ok, fatal, arith, ◌==◌,
  if◌then◌else◌,
}
use peli.Workspace.{Entry, Device, Pool, new_pool, free, find_allocated}
use peli.Workspace.Fit.{count, IsFreeList, put_back-Inserts}
use peli.Workspace.Held.{IsAllocated, Taken, find_allocated-Finds}

module _ (dev : Device) (c : ℕ) where
  open dev use {State, size_of, size_of-null}

  -- A block is on the two lists together at most once, and only if it is live at that size.
  abbrev pub Owns : State → List Entry → List Entry → Type 0
  Owns s fl al =
      (d m : ℕ) → 0 < m → count d m fl + count d m al ≤ (if size_of s c d == m then 1 else 0)

  pub record Inv (p : Pool) (s : State) : Type 0 where
    pub free_sorted : IsFreeList p.free_list
    pub held : IsAllocated p.allocated
    pub owns : Owns s p.free_list p.allocated

  -- A pool starts well formed.
  pub new_pool-Inv : (s : State) → Inv new_pool s
  unfolding new_pool
  new_pool-Inv s = record {
    free_sorted = (refl, refl);
    held = (refl, refl);
    owns = λ d m pos. ground arith;
  }

  -- The result of `Free d`: the block goes from one list to the other, or was not allocated.
  abbrev pub Freed : Pool → State → ℕ → Type 0
  Freed p s d =
      ((q : Pool) × (n : ℕ) × (free p d ≡ ok q)
        × Inv q s
        × (0 < n)
        × (n ≡ size_of s c d)
        × ((k m : ℕ)
            → count k m q.free_list
              ≡ (if (d == k) && (n == m) then 1 else 0) + count k m p.free_list)
        × ((k m : ℕ)
            → count k m p.allocated
              ≡ (if (d == k) && (n == m) then 1 else 0) + count k m q.allocated))
      ⊎ ((free p d ≡ fatal) × ((m : ℕ) → 0 < m → count d m p.allocated ≡ 0))

  free-Taken :
      (p : Pool) (s : State) (d : ℕ) (e : Entry) (l : List Entry)
      → find_allocated d p.allocated ≡ some (e, l)
      → Taken d p.allocated e l
      → Inv p s
      → Freed p s d
  unfolding free
  free-Taken p s d e l eq k v =
      let (fl, eq', ins) = put_back-Inserts e p.free_list k.sized v.free_sorted in
      inl (
        record { free_list = fl; allocated = l },
        e.size,
        rw (eq, eq'),
        record {
          free_sorted = ins.sorted;
          held = k.held;
          owns = λ i m pos. omega (arith, v.owns i m pos, ins.moved i m, k.moved i m);
        },
        k.sized,
        ground (arith, v.owns d e.size k.sized, k.moved d e.size, k.is_block),
        (λ i m. ground (arith, ins.moved i m, k.is_block)),
        λ i m. ground (arith, k.moved i m, k.is_block),
      )

  -- On a well-formed pool and for a pointer that is not null, `Free` either moves one entry of
  -- that pointer, of the live block's size, from the allocated list to the free list and keeps the
  -- pool well formed, or fails, and then the pointer was not allocated.
  pub free_lem : (p : Pool) (s : State) (d : ℕ) → d ≢ 0 → Inv p s → Freed p s d
  unfolding free
  free_lem p s d nz v = elim (find_allocated-Finds d p.allocated nz v.held) [
    | inl (e, l, eq, k) ↦ free-Taken p s d e l eq k v
    | inr (eq, k) ↦ inr (rw eq, k)
  ]
