-- ===== src/Storage/Kept.antt =====
-- Where the arrays of a pool are.
use peli.Base.{
  ℕ, ◌+◌, ◌≡◌, ◌≢◌, ◌≤◌, ◌<◌, refl, sym, ap, ◌∙◌, Bool, true, false, List, [], ◌∷◌, ◌++◌, IfOk,
  IfOk-ok, IfOk->>, if◌then◌else◌, ◌==◌, leb, ltb, length, length-append, arith,
}
use peli.Storage.{
  Pool, new_pool, take_front, acquire, recycle, without, drop_last, free_all, destroy, is_it, count,
  Reach, starts, acquires, drops,
}

-- Every array that was created is in exactly one of the three lists.
record Kept (size : ℕ) (p : Pool) : Type 0 where
  fits : length p.queue ≤ size
  same_size : p.size ≡ size
  usable : p.init ≡ true
  living : p.active ≡ true
  placed :
      (array : ℕ)
      → count array p.queue + count array p.in_use + count array p.freed
        ≡ (if ltb array p.created then 1 else 0)

count-++ : (array : ℕ) (l k : List ℕ) → count array (l ++ k) ≡ count array l + count array k
count-++ array [] k = omega arith
count-++ array (a ∷ l) k = omega (arith, count-++ array l k)

count-without :
    (array a : ℕ) (l : List ℕ)
    → count a l ≢ 0
    → count array (without a l) + count array (a ∷ []) ≡ count array l
unfolding without
count-without array a [] h = absurd (h refl)
count-without array a (b ∷ l) h =
    (elim (b == a)
        as (λ r.
          (b == a) ≡ r
          → count array (if r then l else b ∷ without a l) + count array (a ∷ [])
            ≡ count array (b ∷ l)) [
              | true ↦ λ e.
                  let same : b ≡ a = ground (arith, e) in
                  let it = ap (is_it array) same in omega (arith, it)
              | false ↦ λ e.
                  let none : is_it a b ≡ 0 = ap (λ r. if r then 1 else 0) e in
                  let there : count a l ≢ 0 = λ z. h (omega (arith, none, z)) in
                  omega (arith, count-without array a l there)
            ])
      refl

count-free_all :
    (array : ℕ) (l freed : List ℕ)
    → count array (free_all l freed) ≡ count array l + count array freed
unfolding free_all
count-free_all array [] freed = omega arith
count-free_all array (a ∷ l) freed = omega (arith, count-free_all array l (a ∷ freed))

new_pool-Kept : (size : ℕ) → Kept size (new_pool size)
unfolding new_pool
new_pool-Kept size = record {
  fits = omega arith;
  same_size = refl;
  usable = refl;
  living = refl;
  placed = λ array. ground arith;
}

created_next :
    (array created queue in_use freed : ℕ)
    → queue + in_use + freed ≡ (if ltb array created then 1 else 0)
    → queue + (is_it array created + in_use) + freed ≡ (if ltb array (created + 1) then 1 else 0)
created_next array created queue in_use freed h = ground (arith, h)

take_front-Kept :
    (size : ℕ) (memory : Bool) (p : Pool) (queue : List ℕ)
    → p.queue ≡ queue
    → Kept size p
    → IfOk (λ out. Kept size out.1) (take_front memory queue p)
unfolding take_front
take_front-Kept size memory p (a ∷ rest) e h = record {
  fits = let was = ap length (sym e) in let had = h.fits in omega (arith, was, had);
  same_size = h.same_size;
  usable = h.usable;
  living = h.living;
  placed = λ array.
      let was =
        ap (λ l. count array l + count array p.in_use + count array p.freed) (sym e)
        ∙ h.placed array in
      omega (arith, was);
}
take_front-Kept size memory p [] e h =
    IfOk->> (λ (out : ℕ × Pool). Kept size out.1) memory _
      (λ room. record {
        fits = h.fits;
        same_size = h.same_size;
        usable = h.usable;
        living = h.living;
        placed = λ array. created_next array p.created _ _ _ (h.placed array);
      })

acquire-Kept :
    (size : ℕ) (memory : Bool) (p : Pool)
    → Kept size p
    → IfOk (λ out. Kept size out.1) (acquire memory p)
unfolding acquire
acquire-Kept size memory p h =
    IfOk->> (λ (out : ℕ × Pool). Kept size out.1) p.init _
      (λ set. take_front-Kept size memory p p.queue refl h)

recycled-Kept :
    (size array : ℕ) (p : Pool) (b : Bool)
    → leb p.size (length p.queue) ≡ b
    → count array p.in_use ≢ 0
    → Kept size p
    → Kept size (
        if b
        then record p { in_use = without array p.in_use; freed = array ∷ p.freed }
        else record p { in_use = without array p.in_use; queue = p.queue ++ (array ∷ []) })
recycled-Kept size array p true e there h = record {
  fits = h.fits;
  same_size = h.same_size;
  usable = h.usable;
  living = h.living;
  placed = λ a. omega (arith, h.placed a, count-without a array p.in_use there);
}
recycled-Kept size array p false e there h = record {
  fits =
      let room : length p.queue < p.size = ground (arith, e) in
      let same = h.same_size in omega (arith, length-append p.queue (array ∷ []), room, same);
  same_size = h.same_size;
  usable = h.usable;
  living = h.living;
  placed = λ a.
      omega
        (arith, h.placed a, count-++ a p.queue (array ∷ []), count-without a array p.in_use there);
}

drop_last-Kept :
    (size array : ℕ) (p : Pool)
    → count array p.in_use ≢ 0
    → Kept size p
    → IfOk (Kept size) (drop_last array p)
unfolding drop_last recycle
drop_last-Kept size array p there h =
    IfOk->> (Kept size) p.active _
      (λ on. recycled-Kept size array p (leb p.size (length p.queue)) refl there h)

Reach-Kept : {size : ℕ} {p : Pool} → Reach size p → Kept size p
Reach-Kept {size} starts = new_pool-Kept size
Reach-Kept {size} (acquires {p} memory array r e) =
    IfOk-ok (λ (out : ℕ × Pool). Kept size out.1) _ _ (acquire-Kept size memory p (Reach-Kept r)) e
Reach-Kept {size} (drops {p} array r there e) =
    IfOk-ok (Kept size) _ _ (drop_last-Kept size array p there (Reach-Kept r)) e

-- After any calls of `Acquire` and any last references that went, the pool keeps at most `size`
-- arrays, and every array that it created is exactly once among those that it keeps, those in use
-- and those deleted, and no other is there. Where none is in use, the destructor deletes what is
-- left, so that each was deleted once.
pub storage_lem :
    {size : ℕ} {p : Pool}
    → Reach size p
    → (length p.queue ≤ size)
      × ((array : ℕ)
          → count array p.queue + count array p.in_use + count array p.freed
            ≡ (if ltb array p.created then 1 else 0))
      × (p.in_use ≡ []
          → (array : ℕ) → count array (destroy p).freed ≡ (if ltb array p.created then 1 else 0))
unfolding destroy
storage_lem {size} {p} r =
    let h = Reach-Kept r in
    (
      h.fits,
      h.placed,
      λ none array.
          let unused = ap (count array) none in
          omega (arith, h.placed array, count-free_all array p.queue p.freed, unused),
    )
