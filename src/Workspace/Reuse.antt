-- ===== src/Workspace/Reuse.antt =====
-- `Pool::Alloc` where a free block is large enough: the best fit, with no call of the device.
use peli.Base.{ℕ, ◌≡◌, ◌≤◌, ◌<◌, List, [], ◌∷◌, Outcome, ok, arith, All}
use peli.Workspace.{Entry, Device, Pool, round_to_page, take_entry, alloc}
use peli.Workspace.Fit.{IsFreeList, head_size, smallest_fit-Fit}
use peli.Workspace.Invariant.{Inv}
use peli.Workspace.Alloc.{round_to_page_pos}

module _ (dev : Device) (c : ℕ) where
  open dev use {State}

  -- The entry that is handed out and what is left: no block left that fits is smaller.
  abbrev Reuses : State → ℕ → Outcome (Entry × List Entry × State) → Type 0
  Reuses s n o =
      (e : Entry) × (l : List Entry) × (o ≡ ok (e, l, s))
      × (n ≤ e.size)
      × All (λ x. n ≤ x.size → e.size ≤ x.size) l

  take_entry-Reuses :
      (s : State) (fl : List Entry) (n : ℕ)
      → 0 < n
      → IsFreeList fl
      → n ≤ head_size fl
      → Reuses s n (take_entry dev s c fl n)
  unfolding take_entry
  take_entry-Reuses s [] n pos f le = absurd f
  take_entry-Reuses s (g ∷ []) n pos f le = absurd (omega arith)
  take_entry-Reuses s (b ∷ g ∷ []) n pos f le =
      (b, g ∷ [], ground arith, le, ((λ h. absurd (omega arith)), tt))
  take_entry-Reuses s (b ∷ x ∷ y ∷ r) n pos f le =
      let (e, l, eq, fit) = smallest_fit-Fit n b (x ∷ y ∷ r) pos le f in
      (e, l, ground (arith, eq), fit.enough, fit.least)

  abbrev pub BestFit : Pool → State → ℕ → Type 0
  BestFit p s nbytes =
      (e : Entry) × (l : List Entry) × (alloc dev p s c nbytes
        ≡ ok (e.data_ptr, record { free_list = l; allocated = e ∷ p.allocated }, s))
      × (round_to_page nbytes ≤ e.size)
      × All (λ x. round_to_page nbytes ≤ x.size → e.size ≤ x.size) l

  -- On a well-formed pool whose last free block, the largest, has at least the rounded size,
  -- `Alloc` asks nothing of the device: it hands out a free block that is large enough, and no
  -- block that stays free and is large enough is smaller.
  pub alloc_reuse :
      (p : Pool) (s : State) (nbytes : ℕ)
      → Inv dev c p s
      → round_to_page nbytes ≤ head_size p.free_list
      → BestFit p s nbytes
  unfolding alloc
  alloc_reuse p s nbytes v le =
      let (e, l, eq, enough, least) =
        take_entry-Reuses s p.free_list _ (round_to_page_pos nbytes) v.free_sorted le in
      (e, l, rw eq, enough, least)
