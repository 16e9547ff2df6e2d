-- ===== src/Workspace.antt =====
-- src/runtime/workspace_pool.cc: the pool of temporary workspaces that each device keeps.
-- A `std::vector` of entries that is used from its back is a list whose head is the back, so the
-- guard entry of index 0 is the last element.
mod Fit
mod Held
mod Invariant
mod Alloc
mod Reuse
mod Release
mod Devices
mod Tests
use peli.Base.{
  ℕ, zero, suc, ◌+◌, ◌-◌, ◌*◌, ◌/◌, ◌%◌, ◌^◌, ◌≡◌, ◌≢◌, ◌<◌, Bool, ◌&&◌, Option, none, some, List,
  [], ◌∷◌, Outcome, ok, fatal, ◌>>=◌, ◌>>◌, check, or_fatal, ltb, leb, ◌==◌, if◌then◌else◌, length,
  get_elem?, set, replicate, ◌++◌,
}

-- `struct Entry`; the null pointer is 0.
pub record Entry : Type 0 where
  pub data_ptr : ℕ
  pub size : ℕ

abbrev pub page_size : ℕ
page_size = 4096

-- What the pool uses of `DeviceAPI`. A `none` of `alloc_data_space` is its exception; `size_of s c p`
-- is the size of the live block at `p` on device `c`, and 0 where there is none.
pub record Device : Type 1 where
  pub State : Type 0
  pub alloc_data_space : State → ℕ → ℕ → Option (ℕ × State)
  pub free_data_space : State → ℕ → ℕ → State
  pub size_of : State → ℕ → ℕ → ℕ
  pub size_of-null : (s : State) (c : ℕ) → size_of s c 0 ≡ 0
  pub alloc_fresh :
      (s : State) (c n p : ℕ) (t : State)
      → alloc_data_space s c n ≡ some (p, t)
      → (p ≢ 0) × (size_of s c p ≡ 0)
  pub size_of-alloc :
      (s : State) (c n p : ℕ) (t : State) (k q : ℕ)
      → alloc_data_space s c n ≡ some (p, t)
      → size_of t k q ≡ (if (k == c) && (q == p) then n else size_of s k q)
  pub size_of-free :
      (s : State) (c p k q : ℕ)
      → size_of (free_data_space s c p) k q ≡ (if (k == c) && (q == p) then 0 else size_of s k q)

pub record Pool : Type 0 where
  pub free_list : List Entry
  pub allocated : List Entry

abbrev pub guard_entry : Entry
guard_entry = record { data_ptr = 0; size = 0 }

-- The constructor `Pool()`.
pub new_pool : Pool
new_pool = record { free_list = guard_entry ∷ []; allocated = guard_entry ∷ [] }

-- The size that `Alloc` asks for, in `size_t` arithmetic.
pub round_to_page : ℕ → ℕ
round_to_page nbytes =
    let n = (nbytes + (page_size - 1)) % 2 ^ 64 / page_size * page_size in
    if n == 0 then page_size else n

-- `for (; it->size >= nbytes; --it) {}`, from `it = end() - 2`: `e` is `*(it + 1)` and the list
-- starts at `*it`. A walk past the first entry is undefined, `none` here.
pub smallest_fit : ℕ → Entry → List Entry → Option (Entry × List Entry)
smallest_fit n e [] = none
smallest_fit n e (x ∷ xs) =
    let rest = smallest_fit n x xs in
    if leb n x.size
    then elim rest [ none ↦ none | some (r, l) ↦ some (r, e ∷ l) ]
    else some (e, x ∷ xs)

-- The loop of `Free` for an entry that is not the last one allocated; it stops at index 0.
pub take_allocated : ℕ → List Entry → Option (Entry × List Entry)
take_allocated d [] = none
take_allocated d (g ∷ []) = none
take_allocated d (x ∷ y ∷ r) =
    let rest = take_allocated d (y ∷ r) in
    if x.data_ptr == d
    then some (x, y ∷ r)
    else elim rest [ none ↦ none | some (e, l) ↦ some (e, x ∷ l) ]

-- The entry that `Free` takes out, and the allocated entries that are left.
pub find_allocated : ℕ → List Entry → Option (Entry × List Entry)
find_allocated d [] = none
find_allocated d (a ∷ r) =
    if a.data_ptr == d
    then some (a, r)
    else elim (take_allocated d r) [ none ↦ none | some (e, l) ↦ some (e, a ∷ l) ]

-- The shifting loop of `Free`, which stops at the first entry that is not larger.
pub insert_sorted : Entry → List Entry → Option (List Entry)
insert_sorted e [] = none
insert_sorted e (x ∷ xs) =
    let rest = insert_sorted e xs in
    if ltb e.size x.size
    then elim rest [ none ↦ none | some l ↦ some (x ∷ l) ]
    else some (e ∷ x ∷ xs)

-- Where `Free` puts the entry back: at the end, before the one other entry, or by the loop.
pub put_back : Entry → List Entry → Option (List Entry)
put_back e [] = none
put_back e (b ∷ []) = if ltb b.size e.size then some (e ∷ b ∷ []) else insert_sorted e (b ∷ [])
put_back e (b ∷ g ∷ []) = if ltb b.size e.size then some (e ∷ b ∷ g ∷ []) else some (b ∷ e ∷ g ∷ [])
put_back e (b ∷ c ∷ d ∷ r) =
    if ltb b.size e.size then some (e ∷ b ∷ c ∷ d ∷ r) else insert_sorted e (b ∷ c ∷ d ∷ r)

-- `Pool::Free`.
pub free : Pool → ℕ → Outcome Pool
free p d = do
  (e, allocated) ← or_fatal (find_allocated d p.allocated)
  free_list ← or_fatal (put_back e p.free_list)
  ok (record { free_list = free_list; allocated = allocated })

module _ (dev : Device) where
  open dev use {State, alloc_data_space, free_data_space}

  -- A new block of `n` bytes.
  pub new_block : State → ℕ → ℕ → Outcome (Entry × State)
  new_block s c n = do
    (p, t) ← or_fatal (alloc_data_space s c n)
    ok (record { data_ptr = p; size = n }, t)

  -- "resize the page": the old block is freed and a new one of `n` bytes allocated.
  pub resize : State → ℕ → Entry → ℕ → Outcome (Entry × State)
  unfolding new_block
  resize s c e n = new_block (free_data_space s c e.data_ptr) c n

  -- The entry that `Alloc` hands out, and the free list that is left, by the length of the list.
  pub take_entry : State → ℕ → List Entry → ℕ → Outcome (Entry × List Entry × State)
  take_entry s c [] n = fatal
  take_entry s c (g ∷ []) n = do (e, t) ← new_block s c n; ok (e, g ∷ [], t)
  take_entry s c (b ∷ g ∷ []) n =
      if ltb b.size n then (do (e, t) ← resize s c b n; ok (e, g ∷ [], t)) else ok (b, g ∷ [], s)
  take_entry s c (b ∷ x ∷ y ∷ r) n =
      if leb n b.size
      then (do (e, l) ← or_fatal (smallest_fit n b (x ∷ y ∷ r)); ok (e, l, s))
      else (do (e, t) ← resize s c b n; ok (e, x ∷ y ∷ r, t))

  -- `Pool::Alloc`.
  pub alloc : Pool → State → ℕ → ℕ → Outcome (ℕ × Pool × State)
  alloc p s c nbytes = do
    (e, free_list, t) ← take_entry s c p.free_list (round_to_page nbytes)
    ok (e.data_ptr, record { free_list = free_list; allocated = e ∷ p.allocated }, t)

  -- The loop of `Release`, over every entry but the guard, from index 1 up.
  pub release_all : State → ℕ → List Entry → State
  release_all s c [] = s
  release_all s c (g ∷ []) = s
  release_all s c (x ∷ y ∷ r) = free_data_space (release_all s c (y ∷ r)) c x.data_ptr

  -- `Pool::Release`.
  pub release : Pool → State → ℕ → Outcome (Pool × State)
  release p s c = do
    check (length p.allocated == 1)
    ok (record p { free_list = [] }, release_all s c p.free_list)

  -- `WorkspacePool::array_`: a pool for each device, null until first used.
  abbrev pub Pools : Type 0
  Pools = List (Option Pool)

  -- `AllocWorkspace`'s first lines: room for the device's slot, and a pool in it.
  pub slot_pool : Pools → ℕ → Pool
  slot_pool ps c = elim (get_elem? ps c) [ some (some p) ↦ p | _ ↦ new_pool ]

  pub grown : Pools → ℕ → Pools
  grown ps c = if leb (length ps) c then ps ++ replicate (c + 1 - length ps) none else ps

  -- `WorkspacePool::AllocWorkspace`.
  pub alloc_workspace : Pools → State → ℕ → ℕ → Outcome (ℕ × Pools × State)
  alloc_workspace ps s c size = do
    (d, p, t) ← alloc (slot_pool ps c) s c size
    ok (d, set (grown ps c) c (some p), t)

  -- `WorkspacePool::FreeWorkspace`.
  pub free_workspace : Pools → ℕ → ℕ → Outcome Pools
  free_workspace ps c d = elim (get_elem? ps c) [
    | some (some p) ↦ (do q ← free p d; ok (set ps c (some q)))
    | _ ↦ fatal
  ]

  -- The destructor: each pool that was made is released, from device `c` up.
  pub release_pools : Pools → State → ℕ → Outcome State
  release_pools [] s c = ok s
  release_pools (none ∷ ps) s c = release_pools ps s (c + 1)
  release_pools (some p ∷ ps) s c = do (q, t) ← release p s c; release_pools ps t (c + 1)
