-- ===== src/Workspace/Fit.antt =====
-- The sorted free list of the pool: what `Alloc` takes out of it and `Free` puts back.
use peli.Base.{
  ℕ, ◌+◌, ◌≡◌, refl, ◌≤◌, ◌<◌, ◌⊎◌, inl, inr, true, ◌&&◌, Option, some, List, [], ◌∷◌, arith, leb,
  ltb, ◌==◌, if◌then◌else◌, Bool-cases, All,
}
use peli.Workspace.{Entry, smallest_fit, insert_sorted, put_back}

abbrev pub head_size : List Entry → ℕ
head_size [] = 0
head_size (x ∷ xs) = x.size

-- Sizes fall from the back of the vector to the guard, and only the guard has size 0.
abbrev pub IsFreeList : List Entry → Type 0
IsFreeList [] = ⊥
IsFreeList (g ∷ []) = (g.size ≡ 0) × (g.data_ptr ≡ 0)
IsFreeList (x ∷ y ∷ r) = (0 < x.size) × (y.size ≤ x.size) × IsFreeList (y ∷ r)

pub IsFreeList-cons :
    (e : Entry) (l : List Entry)
    → 0 < e.size
    → head_size l ≤ e.size
    → IsFreeList l
    → IsFreeList (e ∷ l)
IsFreeList-cons e [] h k f = absurd f
IsFreeList-cons e (x ∷ xs) h k f = (h, k, f)

pub IsFreeList-tail :
    (e x : Entry) (xs : List Entry) → IsFreeList (e ∷ x ∷ xs) → IsFreeList (x ∷ xs)
IsFreeList-tail e x xs f = f.2

-- How often the block `d` of size `n` is on a list.
abbrev pub count : ℕ → ℕ → List Entry → ℕ
count d n [] = 0
count d n (x ∷ xs) = (if (x.data_ptr == d) && (x.size == n) then 1 else 0) + count d n xs

All-small :
    (n : ℕ) (x : Entry) (xs : List Entry)
    → IsFreeList (x ∷ xs)
    → x.size < n
    → All (λ y. y.size < n) (x ∷ xs)
All-small n x [] f h = (h, tt)
All-small n x (y ∷ ys) f h = (h, All-small n y ys f.2 (omega arith))

-- `e` comes from the front of `xs`, `r` is what is taken and `l` what is left.
pub record Fit (n : ℕ) (e : Entry) (xs : List Entry) (r : Entry) (l : List Entry) : Type 0 where
  pub enough : n ≤ r.size
  pub no_larger : r.size ≤ e.size
  pub sorted : IsFreeList l
  pub below : head_size l ≤ e.size
  pub least : All (λ x. n ≤ x.size → r.size ≤ x.size) l
  pub moved : (d m : ℕ) → count d m (e ∷ xs) ≡ count d m (r ∷ l)

least_of_small :
    (n k : ℕ) (xs : List Entry) → All (λ y. y.size < n) xs → All (λ x. n ≤ x.size → k ≤ x.size) xs
least_of_small n k [] h = tt
least_of_small n k (x ∷ xs) h = ((λ le. absurd (omega arith)), least_of_small n k xs h.1)

abbrev Fits : ℕ → Entry → List Entry → Type 0
Fits n e xs = (r : Entry) × (l : List Entry) × (smallest_fit n e xs ≡ some (r, l)) × Fit n e xs r l

Fits-step :
    (n : ℕ) (e x : Entry) (xs : List Entry)
    → 0 < n
    → n ≤ e.size
    → IsFreeList (e ∷ x ∷ xs)
    → leb n x.size ≡ true
    → Fits n x xs
    → Fits n e (x ∷ xs)
unfolding smallest_fit
Fits-step n e x xs pos le f t (r, l, eq, fit) = (
  r,
  e ∷ l,
  rw (t, eq),
  record {
    enough = fit.enough;
    no_larger = ground (arith, fit.no_larger, f.1);
    sorted = IsFreeList-cons e l (omega arith) (ground (arith, fit.below, f.1)) fit.sorted;
    below = omega arith;
    least = ((λ _. ground (arith, fit.no_larger, f.1)), fit.least);
    moved = λ d m. omega (arith, fit.moved d m);
  },
)

-- On a sorted list whose first block is large enough the walk ends, with the best fit.
pub smallest_fit-Fit :
    (n : ℕ) (e : Entry) (xs : List Entry) → 0 < n → n ≤ e.size → IsFreeList (e ∷ xs) → Fits n e xs
unfolding smallest_fit
smallest_fit-Fit n e [] pos le f = absurd (omega arith)
smallest_fit-Fit n e (x ∷ xs) pos le f = elim (Bool-cases (leb n x.size)) [
  | inl t ↦
      Fits-step n e x xs pos le f t
        (smallest_fit-Fit n x xs pos (ground arith) (IsFreeList-tail e x xs f))
  | inr t ↦ (
    e,
    x ∷ xs,
    rw t,
    record {
      enough = le;
      no_larger = omega arith;
      sorted = IsFreeList-tail e x xs f;
      below = f.1;
      least =
          least_of_small n e.size (x ∷ xs)
            (All-small n x xs (IsFreeList-tail e x xs f) (ground arith));
      moved = λ d m. refl;
    },
  )
]

-- What `Free` makes of the list: sorted, and with the one block more.
pub record Inserted (e : Entry) (xs l : List Entry) : Type 0 where
  pub sorted : IsFreeList l
  pub head : (head_size l ≡ e.size) ⊎ (head_size l ≡ head_size xs)
  pub moved : (d m : ℕ) → count d m l ≡ count d m (e ∷ xs)

abbrev Inserts : Entry → List Entry → Option (List Entry) → Type 0
Inserts e xs o = (l : List Entry) × (o ≡ some l) × Inserted e xs l

Inserted-front :
    (e x : Entry) (xs : List Entry)
    → 0 < e.size
    → x.size ≤ e.size
    → IsFreeList (x ∷ xs)
    → Inserted e (x ∷ xs) (e ∷ x ∷ xs)
Inserted-front e x xs pos le f = record {
  sorted = (pos, le, f);
  head = inl refl;
  moved = λ d m. refl;
}

Inserted-step :
    (e x : Entry) (xs l : List Entry)
    → 0 < e.size
    → e.size < x.size
    → head_size xs ≤ x.size
    → Inserted e xs l
    → Inserted e (x ∷ xs) (x ∷ l)
Inserted-step e x xs l pos lt le ins = record {
  sorted = IsFreeList-cons x l (omega arith) (ground (arith, ins.head)) ins.sorted;
  head = inr refl;
  moved = λ d m. omega (arith, ins.moved d m);
}

insert_sorted-Inserts :
    (e : Entry) (xs : List Entry) → 0 < e.size → IsFreeList xs → Inserts e xs (insert_sorted e xs)
unfolding insert_sorted
insert_sorted-Inserts e [] pos f = absurd f
insert_sorted-Inserts e (g ∷ []) pos f =
    (e ∷ g ∷ [], ground arith, Inserted-front e g [] pos (omega arith) f)
insert_sorted-Inserts e (x ∷ y ∷ ys) pos f = elim (Bool-cases (ltb e.size x.size)) [
  | inl t ↦
      let (l, eq, ins) = insert_sorted-Inserts e (y ∷ ys) pos f.2 in
      (x ∷ l, rw (t, eq), Inserted-step e x (y ∷ ys) l pos (ground arith) f.1 ins)
  | inr t ↦ (e ∷ x ∷ y ∷ ys, rw t, Inserted-front e x (y ∷ ys) pos (ground arith) f)
]

-- The three ways in which `Free` puts an entry back keep the list sorted, and reach no entry
-- before the guard.
pub put_back-Inserts :
    (e : Entry) (xs : List Entry) → 0 < e.size → IsFreeList xs → Inserts e xs (put_back e xs)
unfolding put_back
put_back-Inserts e [] pos f = absurd f
put_back-Inserts e (g ∷ []) pos f =
    (e ∷ g ∷ [], ground arith, Inserted-front e g [] pos (omega arith) f)
put_back-Inserts e (b ∷ g ∷ []) pos f = elim (Bool-cases (ltb b.size e.size)) [
  | inl t ↦ (e ∷ b ∷ g ∷ [], rw t, Inserted-front e b (g ∷ []) pos (ground arith) f)
  | inr t ↦ (
    b ∷ e ∷ g ∷ [],
    rw t,
    record {
      sorted = (f.0, ground arith, (pos, omega arith, f.2));
      head = inr refl;
      moved = λ d m. omega arith;
    },
  )
]
put_back-Inserts e (b ∷ c ∷ d ∷ r) pos f = elim (Bool-cases (ltb b.size e.size)) [
  | inl t ↦ (e ∷ b ∷ c ∷ d ∷ r, rw t, Inserted-front e b (c ∷ d ∷ r) pos (ground arith) f)
  | inr t ↦ rw t (insert_sorted-Inserts e (b ∷ c ∷ d ∷ r) pos f)
]
