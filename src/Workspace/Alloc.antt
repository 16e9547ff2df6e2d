-- ===== src/Workspace/Alloc.antt =====
-- `Pool::Alloc`: the block that it hands out, and the invariant after it.
use peli.Base.{
  ℕ, ◌+◌, ◌-◌, ◌%◌, ◌^◌, ◌≡◌, ◌≢◌, ◌≤◌, ◌<◌, ◌⊎◌, refl, inl, inr, none, List, [], ◌∷◌, Outcome, ok,
  fatal, ◌>>=◌, arith, ltb, leb, Bool-cases, Option-cases,
}
use peli.Workspace.{
  Entry, Device, Pool, page_size, round_to_page, new_block, resize, take_entry, alloc,
}
use peli.Workspace.Fit.{count, IsFreeList, smallest_fit-Fit}
use peli.Workspace.Held.{IsAllocated, IsAllocated-cons}
use peli.Workspace.Invariant.{Owns, Inv}

-- Below the top page of `size_t` the size asked for is the least positive number of whole pages
-- that holds `nbytes`.
pub round_to_page_bounds :
    (nbytes : ℕ)
    → nbytes + (page_size - 1) < 2 ^ 64
    → (nbytes ≤ round_to_page nbytes)
      × (round_to_page nbytes % page_size ≡ 0)
      × (0 < round_to_page nbytes)
      × ((round_to_page nbytes < nbytes + page_size) ⊎ (nbytes ≡ 0))
unfolding round_to_page
round_to_page_bounds nbytes h = ground arith

-- In the top page the sum wraps, and the size asked for is one page whatever `nbytes` is.
pub round_to_page_wraps :
    (nbytes : ℕ)
    → nbytes < 2 ^ 64
    → 2 ^ 64 ≤ nbytes + (page_size - 1)
    → round_to_page nbytes ≡ page_size
unfolding round_to_page
round_to_page_wraps nbytes h k = ground arith

pub round_to_page_pos : (nbytes : ℕ) → 0 < round_to_page nbytes
unfolding round_to_page
round_to_page_pos nbytes = ground arith

module _ (dev : Device) (c : ℕ) where
  open dev use {
    State, alloc_data_space, free_data_space, size_of, alloc_fresh, size_of-alloc, size_of-free,
  }

  -- The device turned the request for `n` bytes down.
  abbrev pub Refuses : ℕ → Type 0
  Refuses n = (s : State) × (alloc_data_space s c n ≡ none)

  -- What is live on the other devices stays as it is.
  abbrev pub Elsewhere : State → State → Type 0
  Elsewhere s t = (k d : ℕ) → k ≢ c → size_of t k d ≡ size_of s k d

  -- The entry handed out is large enough, and owned beside the entries `al`.
  record Handed (s : State) (al : List Entry) (n : ℕ) (e : Entry) (l : List Entry) (t : State)
      : Type 0 where
    enough : n ≤ e.size
    sorted : IsFreeList l
    owned : Owns dev c t l (e ∷ al)
    apart : Elsewhere s t

  abbrev Hands : State → List Entry → ℕ → Outcome (Entry × List Entry × State) → Type 0
  Hands s al n o =
      ((e : Entry) × (l : List Entry) × (t : State) × (o ≡ ok (e, l, t)) × Handed s al n e l t)
      ⊎ ((o ≡ fatal) × Refuses n)

  abbrev Makes : State → List Entry → List Entry → ℕ → Outcome (Entry × State) → Type 0
  Makes s l al n o =
      ((e : Entry) × (t : State) × (o ≡ ok (e, t))
        × (e.size ≡ n)
        × Owns dev c t l (e ∷ al)
        × Elsewhere s t)
      ⊎ ((o ≡ fatal) × Refuses n)

  new_block-Makes :
      (s : State) (l al : List Entry) (n : ℕ)
      → Owns dev c s l al
      → Makes s l al n (new_block dev s c n)
  unfolding new_block
  new_block-Makes s l al n own = elim (Option-cases (alloc_data_space s c n)) [
    | inl eq ↦ inr (rw eq, (s, eq))
    | inr ((p, t), eq) ↦ inl (
      record { data_ptr = p; size = n },
      t,
      rw eq,
      refl,
      λ d m pos.
          ground (arith, own d m pos, size_of-alloc s c n p t c d eq, alloc_fresh s c n p t eq),
      λ k d ne. ground (arith, size_of-alloc s c n p t k d eq),
    )
  ]

  -- A block that is freed is owned no more.
  Owns-free :
      (s : State) (b : Entry) (l al : List Entry)
      → 0 < b.size
      → Owns dev c s (b ∷ l) al
      → Owns dev c (free_data_space s c b.data_ptr) l al
  Owns-free s b l al h own d m pos =
      ground (arith, own d m pos, own d b.size h, size_of-free s c b.data_ptr c d)

  Makes-after_free :
      (s : State) (b : Entry) (l al : List Entry) (n : ℕ) (o : Outcome (Entry × State))
      → Makes (free_data_space s c b.data_ptr) l al n o
      → Makes s l al n o
  Makes-after_free s b l al n o (inl (e, t, eq, size, own, apart)) =
      inl (
        e,
        t,
        eq,
        size,
        own,
        λ k d ne. ground (arith, apart k d ne, size_of-free s c b.data_ptr k d),
      )
  Makes-after_free s b l al n o (inr r) = inr r

  resize-Makes :
      (s : State) (b : Entry) (l al : List Entry) (n : ℕ)
      → 0 < b.size
      → Owns dev c s (b ∷ l) al
      → Makes s l al n (resize dev s c b n)
  unfolding resize
  resize-Makes s b l al n h own =
      Makes-after_free s b l al n _
        (new_block-Makes (free_data_space s c b.data_ptr) l al n (Owns-free s b l al h own))

  Makes-Hands :
      (s : State) (l al : List Entry) (n : ℕ) (o : Outcome (Entry × State))
      → IsFreeList l
      → Makes s l al n o
      → Hands s al n (o >>= λ r. ok (r.0, l, r.1))
  Makes-Hands s l al n o f (inl (e, t, eq, size, own, apart)) =
      inl (e, l, t, rw eq, record { enough = omega arith; sorted = f; owned = own; apart = apart })
  Makes-Hands s l al n o f (inr (eq, no_room)) = inr (rw eq, no_room)

  take_entry-Hands :
      (s : State) (fl al : List Entry) (n : ℕ)
      → 0 < n
      → IsFreeList fl
      → Owns dev c s fl al
      → Hands s al n (take_entry dev s c fl n)
  unfolding take_entry
  take_entry-Hands s [] al n pos f own = absurd f
  take_entry-Hands s (g ∷ []) al n pos f own =
      Makes-Hands s (g ∷ []) al n _ f (new_block-Makes s (g ∷ []) al n own)
  take_entry-Hands s (b ∷ g ∷ []) al n pos f own = elim (Bool-cases (ltb b.size n)) [
    | inl t ↦ rw t (Makes-Hands s (g ∷ []) al n _ f.2 (resize-Makes s b (g ∷ []) al n f.0 own))
    | inr t ↦ inl (
      b,
      g ∷ [],
      s,
      rw t,
      record {
        enough = ground arith;
        sorted = f.2;
        owned = λ d m h. omega (arith, own d m h);
        apart = λ k d ne. refl;
      },
    )
  ]
  take_entry-Hands s (b ∷ x ∷ y ∷ r) al n pos f own = elim (Bool-cases (leb n b.size)) [
    | inl t ↦
        let (e, l, eq, fit) = smallest_fit-Fit n b (x ∷ y ∷ r) pos (ground arith) f in
        inl (
          e,
          l,
          s,
          rw (t, eq),
          record {
            enough = fit.enough;
            sorted = fit.sorted;
            owned = λ d m h. omega (arith, own d m h, fit.moved d m);
            apart = λ k d ne. refl;
          },
        )
    | inr t ↦
        rw t (Makes-Hands s (x ∷ y ∷ r) al n _ f.2 (resize-Makes s b (x ∷ y ∷ r) al n f.0 own))
  ]

  -- What `Alloc` promises: a live block of at least the size asked for, that nobody else holds.
  pub record Allocates (p : Pool) (s : State) (nbytes d : ℕ) (q : Pool) (t : State) : Type 0 where
    pub inv : Inv dev c q t
    pub enough : round_to_page nbytes ≤ size_of t c d
    pub fresh : (m : ℕ) → 0 < m → count d m p.allocated ≡ 0
    pub recorded : count d (size_of t c d) q.allocated ≡ 1
    pub apart : Elsewhere s t

  abbrev pub AllocResult : Pool → State → ℕ → Type 0
  AllocResult p s nbytes =
      ((d : ℕ) × (q : Pool) × (t : State) × (alloc dev p s c nbytes ≡ ok (d, q, t))
        × Allocates p s nbytes d q t)
      ⊎ ((alloc dev p s c nbytes ≡ fatal) × Refuses (round_to_page nbytes))

  Handed-Allocates :
      (p : Pool) (s : State) (nbytes : ℕ) (e : Entry) (l : List Entry) (t : State)
      → IsAllocated p.allocated
      → 0 < e.size
      → Handed s p.allocated (round_to_page nbytes) e l t
      → Allocates p s nbytes e.data_ptr (record { free_list = l; allocated = e ∷ p.allocated }) t
  Handed-Allocates p s nbytes e l t held pos h = record {
    inv = record {
      free_sorted = h.sorted;
      held = IsAllocated-cons e p.allocated pos held;
      owns = h.owned;
    };
    enough = ground (arith, h.owned e.data_ptr e.size pos, h.enough);
    fresh = λ m m_pos. ground (arith, h.owned e.data_ptr m m_pos, h.owned e.data_ptr e.size pos);
    recorded = ground (arith, h.owned e.data_ptr e.size pos);
    apart = h.apart;
  }

  -- On a well-formed pool and for any size, `Alloc` either returns a block that is live with at
  -- least the rounded size, that was not counted as allocated before and is counted once after,
  -- and leaves the pool well formed and what is live on the other devices as it was; or it fails,
  -- and then the device refuses the rounded size in some state.
  pub alloc_lem : (p : Pool) (s : State) (nbytes : ℕ) → Inv dev c p s → AllocResult p s nbytes
  unfolding alloc
  alloc_lem p s nbytes v =
      elim (take_entry-Hands s p.free_list p.allocated _ (round_to_page_pos nbytes) v.free_sorted
        v.owns) [
          | inl (e, l, t, eq, h) ↦ inl (
            e.data_ptr,
            record { free_list = l; allocated = e ∷ p.allocated },
            t,
            rw eq,
            Handed-Allocates p s nbytes e l t v.held
                (omega (arith, round_to_page_pos nbytes, h.enough)) h,
          )
          | inr (eq, no_room) ↦ inr (rw eq, no_room)
        ]
