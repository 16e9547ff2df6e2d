-- ===== src/Storage.antt =====
-- `NDArrayPool` (src/video/storage_pool.cc, src/video/storage_pool.h). A container is the number of its
-- creation, and its data is freed with it.
use peli.Base.{
  ℕ, zero, suc, ◌+◌, ◌≡◌, ◌≢◌, Bool, true, false, ◌&&◌, not, List, [], ◌∷◌, ◌++◌, Outcome, ok,
  fatal, ◌>>=◌, ◌>>◌, check, if◌then◌else◌, ◌==◌, leb, length,
}
pub mod Kept
mod Tests

-- `created` containers were made, of which `freed` are deleted, the last one first; `in_use` has
-- those that a reference outside of the pool keeps. `active` is false once the pool is destroyed.
pub record Pool : Type 0 where
  pub size : ℕ
  pub init : Bool
  pub active : Bool
  pub queue : List ℕ
  pub in_use : List ℕ
  pub freed : List ℕ
  pub created : ℕ

-- The constructors; the default one leaves the size open.
unfoldable pub new_pool : ℕ → Pool
new_pool size = record {
  size = size;
  init = true;
  active = true;
  queue = [];
  in_use = [];
  freed = [];
  created = 0;
}

unfoldable pub default_pool : ℕ → Pool
default_pool junk = record (new_pool junk) { init = false }

-- `Acquire`; `memory` says whether the device has room for a new array.
unfoldable pub take_front : Bool → List ℕ → Pool → Outcome (ℕ × Pool)
take_front memory (array ∷ rest) p =
    ok (array, record p { queue = rest; in_use = array ∷ p.in_use })
take_front memory [] p =
    check memory
    >> ok (p.created, record p { in_use = p.created ∷ p.in_use; created = p.created + 1 })

unfoldable pub acquire : Bool → Pool → Outcome (ℕ × Pool)
acquire memory p = check p.init >> take_front memory p.queue p

-- `Deleter` of a container whose `manager_ctx` is the pool; a pool that is gone is not to be read,
-- `fatal` here.
unfoldable pub recycle : ℕ → Pool → Outcome Pool
recycle array p =
    check p.active
    >> ok (
        if leb p.size (length p.queue)
        then record p { freed = array ∷ p.freed }
        else record p { queue = p.queue ++ (array ∷ []) })

unfoldable pub without : ℕ → List ℕ → List ℕ
without array [] = []
without array (a ∷ l) = if a == array then l else a ∷ without array l

-- The last reference outside of the pool goes.
unfoldable pub drop_last : ℕ → Pool → Outcome Pool
drop_last array p = recycle array (record p { in_use = without array p.in_use })

-- The loop of the destructor: each array of the queue leaves the pool and is deleted.
unfoldable pub free_all : List ℕ → List ℕ → List ℕ
free_all [] freed = freed
free_all (array ∷ queue) freed = free_all queue (array ∷ freed)

unfoldable pub destroy : Pool → Pool
destroy p = record p { active = false; queue = []; freed = free_all p.queue p.freed }

-- How often an array is in a list.
abbrev pub is_it : ℕ → ℕ → ℕ
is_it array a = if a == array then 1 else 0

abbrev pub count : ℕ → List ℕ → ℕ
count array [] = 0
count array (a ∷ l) = is_it array a + count array l

-- The states of a pool of `size` places.
pub data Reach (size : ℕ) : Pool → Type 0 where
  starts : Reach size (new_pool size)
  acquires :
      {p q : Pool} (memory : Bool) (array : ℕ)
      → Reach size p
      → acquire memory p ≡ ok (array, q)
      → Reach size q
  drops :
      {p q : Pool} (array : ℕ)
      → Reach size p
      → count array p.in_use ≢ 0
      → drop_last array p ≡ ok q
      → Reach size q
