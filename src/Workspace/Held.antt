-- ===== src/Workspace/Held.antt =====
-- The list of allocated entries: what `Free` finds in it.
use peli.Base.{
  ℕ, ◌≡◌, ◌≢◌, ◌<◌, ◌⊎◌, refl, inl, inr, Option, none, some, List, [], ◌∷◌, arith, ◌==◌, Bool-cases,
}
use peli.Workspace.{Entry, take_allocated, find_allocated}
use peli.Workspace.Fit.{count}

-- Only the guard, at index 0, has size 0.
abbrev pub IsAllocated : List Entry → Type 0
IsAllocated [] = ⊥
IsAllocated (g ∷ []) = (g.size ≡ 0) × (g.data_ptr ≡ 0)
IsAllocated (x ∷ y ∷ r) = (0 < x.size) × IsAllocated (y ∷ r)

pub IsAllocated-cons :
    (e : Entry) (l : List Entry) → 0 < e.size → IsAllocated l → IsAllocated (e ∷ l)
IsAllocated-cons e [] h f = absurd f
IsAllocated-cons e (x ∷ xs) h f = (h, f)

-- `e` is taken out of `xs`, and `l` is left.
pub record Taken (d : ℕ) (xs : List Entry) (e : Entry) (l : List Entry) : Type 0 where
  pub is_block : e.data_ptr ≡ d
  pub sized : 0 < e.size
  pub held : IsAllocated l
  pub moved : (k m : ℕ) → count k m xs ≡ count k m (e ∷ l)

Taken-front :
    (d : ℕ) (x : Entry) (xs : List Entry)
    → x.data_ptr ≡ d
    → 0 < x.size
    → IsAllocated xs
    → Taken d (x ∷ xs) x xs
Taken-front d x xs eq pos h = record { is_block = eq; sized = pos; held = h; moved = λ k m. refl }

Taken-cons :
    (d : ℕ) (x : Entry) (xs : List Entry) (e : Entry) (l : List Entry)
    → 0 < x.size
    → Taken d xs e l
    → Taken d (x ∷ xs) e (x ∷ l)
Taken-cons d x xs e l pos k = record {
  is_block = k.is_block;
  sized = k.sized;
  held = IsAllocated-cons x l pos k.held;
  moved = λ i m. omega (arith, k.moved i m);
}

-- A block is found exactly where it is on the list.
abbrev pub Finds : ℕ → List Entry → Option (Entry × List Entry) → Type 0
Finds d xs o =
    ((e : Entry) × (l : List Entry) × (o ≡ some (e, l)) × Taken d xs e l)
    ⊎ ((o ≡ none) × ((m : ℕ) → 0 < m → count d m xs ≡ 0))

take_allocated-Finds :
    (d : ℕ) (xs : List Entry) → d ≢ 0 → IsAllocated xs → Finds d xs (take_allocated d xs)
unfolding take_allocated
take_allocated-Finds d [] nz h = absurd h
take_allocated-Finds d (g ∷ []) nz h = inr (refl, λ m pos. ground arith)
take_allocated-Finds d (x ∷ y ∷ r) nz h = elim (Bool-cases (x.data_ptr == d)) [
  | inl t ↦ inl (x, y ∷ r, rw t, Taken-front d x (y ∷ r) (ground arith) h.0 h.1)
  | inr t ↦ elim (take_allocated-Finds d (y ∷ r) nz h.1) [
    | inl (e, l, eq, k) ↦ inl (e, x ∷ l, rw (t, eq), Taken-cons d x (y ∷ r) e l h.0 k)
    | inr (eq, k) ↦ inr (rw (t, eq), λ m pos. ground (arith, k m pos))
  ]
]

pub find_allocated-Finds :
    (d : ℕ) (xs : List Entry) → d ≢ 0 → IsAllocated xs → Finds d xs (find_allocated d xs)
unfolding find_allocated
find_allocated-Finds d [] nz h = absurd h
find_allocated-Finds d (g ∷ []) nz h = elim (Bool-cases (g.data_ptr == d)) [
  | inl t ↦ absurd (nz (ground arith))
  | inr t ↦ inr (unfold take_allocated in rw t, λ m pos. ground arith)
]
find_allocated-Finds d (x ∷ y ∷ r) nz h = elim (Bool-cases (x.data_ptr == d)) [
  | inl t ↦ inl (x, y ∷ r, rw t, Taken-front d x (y ∷ r) (ground arith) h.0 h.1)
  | inr t ↦ elim (take_allocated-Finds d (y ∷ r) nz h.1) [
    | inl (e, l, eq, k) ↦ inl (e, x ∷ l, rw (t, eq), Taken-cons d x (y ∷ r) e l h.0 k)
    | inr (eq, k) ↦ inr (rw (t, eq), λ m pos. ground (arith, k m pos))
  ]
]
