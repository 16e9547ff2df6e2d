-- ===== src/Storage/Tests.antt =====
-- A pool of one place.
use peli.Base.{ℕ, ◌+◌, ◌≡◌, ◌≤◌, refl, true, false, [], ◌∷◌, ok, fatal, if◌then◌else◌, ltb, arith}
use peli.Storage.{
  Pool, new_pool, default_pool, take_front, acquire, recycle, without, drop_last, free_all, destroy,
  count, Reach, starts, acquires, drops,
}
use peli.Storage.Kept.{storage_lem}

abbrev one : Pool
one = record {
  size = 1;
  init = true;
  active = true;
  queue = [];
  in_use = 0 ∷ [];
  freed = [];
  created = 1;
}

abbrev two : Pool
two = record one { in_use = 1 ∷ 0 ∷ []; created = 2 }

abbrev back : Pool
back = record two { queue = 0 ∷ []; in_use = 1 ∷ [] }

abbrev over : Pool
over = record back { in_use = []; freed = 1 ∷ [] }

first_array : acquire true (new_pool 1) ≡ ok (0, one)
unfolding acquire take_front new_pool
first_array = refl

second_array : acquire true one ≡ ok (1, two)
unfolding acquire take_front
second_array = refl

first_back : drop_last 0 two ≡ ok back
unfolding drop_last recycle without
first_back = refl

second_over : drop_last 1 back ≡ ok over
unfolding drop_last recycle without
second_over = refl

over_reached : Reach 1 over
over_reached =
    drops 1
      (drops 0 (acquires true 1 (acquires true 0 starts first_array) second_array)
        (λ none. omega (arith, none)) first_back)
      (λ none. omega (arith, none)) second_over

storage_lem_example :
    (1 ≤ 1)
    × ((array : ℕ)
        → count array (0 ∷ []) + count array [] + count array (1 ∷ [])
          ≡ (if ltb array 2 then 1 else 0))
    × (over.in_use ≡ []
        → (array : ℕ) → count array (destroy over).freed ≡ (if ltb array 2 then 1 else 0))
storage_lem_example = storage_lem over_reached

-- A kept array is handed out again.
again : acquire false back ≡ ok (0, record back { queue = []; in_use = 0 ∷ 1 ∷ [] })
unfolding acquire take_front
again = refl

-- The last reference to an array goes after its pool.
too_late : drop_last 1 (destroy back) ≡ fatal
unfolding drop_last recycle destroy without free_all
too_late = refl

unset : (junk : ℕ) → acquire true (default_pool junk) ≡ fatal
unfolding acquire default_pool new_pool
unset junk = refl
