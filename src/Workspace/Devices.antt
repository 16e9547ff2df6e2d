-- ===== src/Workspace/Devices.antt =====
-- `WorkspacePool`: a pool for each device.
use peli.Base.{
  ℕ, zero, suc, ◌+◌, ◌-◌, ◌≡◌, ◌≢◌, ◌≤◌, ◌<◌, ◌⊎◌, refl, sym, ◌∙◌, inl, inr, Option, none, some,
  List, [], ◌∷◌, ◌++◌, ok, fatal, arith, ◌==◌, Bool-cases, length, get_elem?, set, replicate,
  length-append, length-replicate, get_elem?-set_self, get_elem?-set_ne, get_elem?-lt,
}
use peli.Workspace.{
  Device, Pool, new_pool, round_to_page, slot_pool, grown, alloc_workspace, free_workspace,
}
use peli.Workspace.Fit.{count}
use peli.Workspace.Invariant.{Inv, Freed, new_pool-Inv, free_lem}
use peli.Workspace.Release.{free_twice}
use peli.Workspace.Alloc.{Refuses, Elsewhere, alloc_lem, round_to_page_pos}

get_elem?-append_none :
    (ps : List (Option Pool)) (m k : ℕ) (p : Pool)
    → get_elem? (ps ++ replicate m none) k ≡ some (some p)
    → get_elem? ps k ≡ some (some p)
get_elem?-append_none [] zero k p h = absurd (ground arith)
get_elem?-append_none [] (suc m) zero p h = absurd (ground arith)
get_elem?-append_none [] (suc m) (suc k) p h = get_elem?-append_none [] m k p h
get_elem?-append_none (x ∷ ps) m zero p h = h
get_elem?-append_none (x ∷ ps) m (suc k) p h = get_elem?-append_none ps m k p h

module _ (dev : Device) where
  open dev use {State, size_of, size_of-null}

  -- Every pool that was made is well formed on its device.
  abbrev pub PoolsInv : List (Option Pool) → State → Type 0
  PoolsInv ps s = (k : ℕ) (p : Pool) → get_elem? ps k ≡ some (some p) → Inv dev k p s

  Inv-transport :
      (k : ℕ) (p : Pool) (s t : State)
      → ((d : ℕ) → size_of t k d ≡ size_of s k d)
      → Inv dev k p s
      → Inv dev k p t
  Inv-transport k p s t same v = record {
    free_sorted = v.free_sorted;
    held = v.held;
    owns = λ d m pos. ground (arith, v.owns d m pos, same d);
  }

  slot_pool-Inv :
      (ps : List (Option Pool)) (s : State) (c : ℕ)
      → PoolsInv ps s
      → Inv dev c (slot_pool dev ps c) s
  unfolding slot_pool
  slot_pool-Inv ps s c v = go (get_elem? ps c) refl
    where
      go :
          (o : Option (Option Pool))
          → get_elem? ps c ≡ o
          → Inv dev c (elim o [ some (some p) ↦ p | _ ↦ new_pool ]) s
      go none e = new_pool-Inv dev c s
      go (some none) e = new_pool-Inv dev c s
      go (some (some p)) e = v c p e

  length-grown : (ps : List (Option Pool)) (c : ℕ) → c < length (grown dev ps c)
  unfolding grown
  length-grown ps c = ground (
    arith,
    length-append ps (replicate (c + 1 - length ps) none),
    length-replicate {A = Option Pool} (c + 1 - length ps) none,
  )

  grown_old :
      (ps : List (Option Pool)) (c k : ℕ) (p : Pool)
      → get_elem? (grown dev ps c) k ≡ some (some p)
      → get_elem? ps k ≡ some (some p)
  unfolding grown
  grown_old ps c k p h = ground (arith, get_elem?-append_none ps (c + 1 - length ps) k p)

  -- Slot `c` gets the pool `q` on the list `qs`, while the other devices see no change.
  PoolsInv-set :
      (ps qs : List (Option Pool)) (s t : State) (c : ℕ) (q : Pool)
      → ((k : ℕ) (p : Pool) → get_elem? qs k ≡ some (some p) → get_elem? ps k ≡ some (some p))
      → c < length qs
      → Inv dev c q t
      → Elsewhere dev c s t
      → PoolsInv ps s
      → PoolsInv (set qs c (some q)) t
  PoolsInv-set ps qs s t c q old lt w apart v k p h = elim (Bool-cases (c == k)) [
    | inl e ↦
        let same : c ≡ k = ground arith in
        let eq : p ≡ q = ground (arith, get_elem?-set_self qs c (some q) lt) in rw (← same, eq) w
    | inr e ↦
        let ne : c ≢ k = λ same. ground arith in
        Inv-transport k p s t (λ d. apart k d (λ same. ne (sym same)))
          (v k p (old k p (sym (get_elem?-set_ne qs (some q) ne) ∙ h)))
  ]

  abbrev pub AllocWorkspaceResult : List (Option Pool) → State → ℕ → ℕ → Type 0
  AllocWorkspaceResult ps s c size =
      ((d : ℕ) × (qs : List (Option Pool)) × (t : State) × (alloc_workspace dev ps s c size
          ≡ ok (d, qs, t))
        × PoolsInv qs t
        × (round_to_page size ≤ size_of t c d)
        × ((q : Pool) × (get_elem? qs c ≡ some (some q))
            × (count d (size_of t c d) q.allocated ≡ 1)))
      ⊎ ((alloc_workspace dev ps s c size ≡ fatal) × Refuses dev c (round_to_page size))

  alloc_workspace_lem :
      (ps : List (Option Pool)) (s : State) (c size : ℕ)
      → PoolsInv ps s
      → AllocWorkspaceResult ps s c size
  unfolding alloc_workspace
  alloc_workspace_lem ps s c size v =
      elim (alloc_lem dev c (slot_pool dev ps c) s size (slot_pool-Inv ps s c v)) [
        | inl (d, q, t, eq, a) ↦ inl (
          d,
          set (grown dev ps c) c (some q),
          t,
          rw eq,
          PoolsInv-set ps (grown dev ps c) s t c q (grown_old ps c) (length-grown ps c) a.inv
              a.apart v,
          a.enough,
          (q, get_elem?-set_self (grown dev ps c) c (some q) (length-grown ps c), a.recorded),
        )
        | inr (eq, no_room) ↦ inr (rw eq, no_room)
      ]

  -- `FreeWorkspace` takes the block back, and refuses it from then on.
  abbrev pub Returns : List (Option Pool) → State → ℕ → ℕ → Type 0
  Returns qs t c d =
      (rs : List (Option Pool)) × (free_workspace dev qs c d ≡ ok rs)
      × PoolsInv rs t
      × (free_workspace dev rs c d ≡ fatal)

  return_block :
      (qs : List (Option Pool)) (t : State) (c d : ℕ) (q : Pool) (m : ℕ)
      → PoolsInv qs t
      → d ≢ 0
      → get_elem? qs c ≡ some (some q)
      → 0 < m
      → count d m q.allocated ≡ 1
      → Freed dev c q t d
      → Returns qs t c d
  unfolding free_workspace
  return_block qs t c d q m v nz at pos once (inr (eq, gone)) = absurd (ground (arith, gone m pos))
  return_block qs t c d q m v nz at pos once (inl (r, n, eq, w, n_pos, live, onto, from)) = (
    set qs c (some r),
    rw (at, free_workspace) (rw eq),
    PoolsInv-set qs qs t t c r (λ k p h. h) lt w (λ k e ne. refl) v,
    rw (get_elem?-set_self qs c (some r) lt, free_workspace)
        (rw (free_twice dev c q r t d nz (v c q at) eq)),
  )
    where
      lt : c < length qs
      lt = get_elem?-lt qs c at

  ne_null : (t : State) (c d n : ℕ) → 0 < n → n ≤ size_of t c d → d ≢ 0
  ne_null t c d n pos le e = ground (arith, size_of-null t c)

  workspace_of_result :
      (ps : List (Option Pool)) (s : State) (c size d : ℕ) (qs : List (Option Pool)) (t : State)
      → AllocWorkspaceResult ps s c size
      → alloc_workspace dev ps s c size ≡ ok (d, qs, t)
      → PoolsInv qs t × (round_to_page size ≤ size_of t c d) × Returns qs t c d
  workspace_of_result ps s c size d qs t (inl (d', qs', t', eq, v, enough, (q, at, once))) h =
      let pos = round_to_page_pos size in
      let nz = ne_null t' c d' (round_to_page size) pos enough in
      let e₁ : d' ≡ d = cc in
      let e₂ : qs' ≡ qs = cc in
      let e₃ : t' ≡ t = cc in
      rw (← e₁, ← e₂, ← e₃)
        (
          v,
          enough,
          return_block qs' t' c d' q (size_of t' c d') v nz at (omega arith) once
              (free_lem dev c q t' d' nz (v c q at)),
        )
  workspace_of_result ps s c size d qs t (inr (eq, _)) h = absurd (ground arith)

  -- Where every pool is well formed and `AllocWorkspace` returns a block, every pool is well
  -- formed afterwards, the block is live with at least the rounded size, and `FreeWorkspace` on
  -- that device then takes it back, leaves every pool well formed and refuses it a second time.
  pub workspace_round_trip :
      (ps : List (Option Pool)) (s : State) (c size d : ℕ) (qs : List (Option Pool)) (t : State)
      → PoolsInv ps s
      → alloc_workspace dev ps s c size ≡ ok (d, qs, t)
      → PoolsInv qs t × (round_to_page size ≤ size_of t c d) × Returns qs t c d
  workspace_round_trip ps s c size d qs t v h =
      workspace_of_result ps s c size d qs t (alloc_workspace_lem ps s c size v) h
