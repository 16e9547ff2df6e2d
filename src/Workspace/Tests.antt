-- ===== src/Workspace/Tests.antt =====
-- A device that hands out ever higher addresses, and the pool theorems on it.
use peli.Base.{
  ℕ, suc, ◌+◌, ◌^◌, ◌≡◌, ◌≢◌, ◌≤◌, ◌<◌, refl, ◌&&◌, Option, none, some, List, [], ◌∷◌, ok, arith,
  ltb, ◌==◌, if◌then◌else◌,
}
use peli.Workspace.{
  Device, Pool, guard_entry, round_to_page, smallest_fit, insert_sorted, put_back, find_allocated,
  new_block, take_entry, alloc, free, new_pool, slot_pool, grown, alloc_workspace,
}
use peli.Workspace.Invariant.{Inv, Freed, free_lem}
use peli.Workspace.Alloc.{AllocResult, alloc_lem}
use peli.Workspace.Reuse.{BestFit, alloc_reuse}
use peli.Workspace.Release.{ReleaseResult, release_lem}
use peli.Workspace.Devices.{PoolsInv, Returns, workspace_round_trip}

-- A block's device, address and size; the newest record of an address counts.
abbrev Log : Type 0
Log = List (ℕ × ℕ × ℕ)

abbrev look : Log → ℕ → ℕ → ℕ
look [] k q = 0
look ((c, p, n) ∷ s) k q = if (k == c) && (q == p) then n else look s k q

abbrev log_size : Log → ℕ → ℕ → ℕ
log_size s k q = if q == 0 then 0 else look s k q

abbrev top : Log → ℕ
top [] = 0
top ((c, p, n) ∷ s) = p + top s

look_above : (s : Log) (k q : ℕ) → top s < q → look s k q ≡ 0
look_above [] k q h = refl
look_above ((c, p, n) ∷ s) k q h = ground (arith, look_above s k q)

abbrev log_alloc : Log → ℕ → ℕ → Option (ℕ × Log)
log_alloc s c n = if ltb (2 ^ 40) n then none else some (suc (top s), (c, suc (top s), n) ∷ s)

log_alloc_fresh :
    (s : Log) (c n p : ℕ) (t : Log) → log_alloc s c n ≡ some (p, t) → (p ≢ 0) × (log_size s c p ≡ 0)
log_alloc_fresh s c n p t h = ground (arith, look_above s c p)

log_size-alloc :
    (s : Log) (c n p : ℕ) (t : Log) (k q : ℕ)
    → log_alloc s c n ≡ some (p, t)
    → log_size t k q ≡ (if (k == c) && (q == p) then n else log_size s k q)
log_size-alloc s c n p t k q h = ground arith

log_size-free :
    (s : Log) (c p k q : ℕ)
    → log_size ((c, p, 0) ∷ s) k q ≡ (if (k == c) && (q == p) then 0 else log_size s k q)
log_size-free s c p k q = ground arith

abbrev log_device : Device
log_device = record {
  State = Log;
  alloc_data_space = log_alloc;
  free_data_space = λ s c p. (c, p, 0) ∷ s;
  size_of = log_size;
  size_of-null = λ s c. refl;
  alloc_fresh = log_alloc_fresh;
  size_of-alloc = log_size-alloc;
  size_of-free = log_size-free;
}

-- Two free blocks of one and three pages, and one block in use.
abbrev busy_log : Log
busy_log = (0, 7, 8192) ∷ (0, 3, 12288) ∷ (0, 1, 4096) ∷ []

abbrev busy : Pool
busy = record {
  free_list =
      record { data_ptr = 3; size = 12288 }
      ∷ record { data_ptr = 1; size = 4096 }
      ∷ guard_entry
      ∷ [];
  allocated = record { data_ptr = 7; size = 8192 } ∷ guard_entry ∷ [];
}

busy-Inv : Inv log_device 0 busy busy_log
busy-Inv = record { free_sorted = omega arith; held = omega arith; owns = λ d m pos. ground arith }

alloc_best_fit :
    alloc log_device busy busy_log 0 100
    ≡ ok (
      1,
      record {
        free_list = record { data_ptr = 3; size = 12288 } ∷ guard_entry ∷ [];
        allocated = record { data_ptr = 1; size = 4096 } ∷ busy.allocated;
      },
      busy_log,
    )
unfolding alloc take_entry round_to_page smallest_fit
alloc_best_fit = refl

alloc_lem_example : AllocResult log_device 0 busy busy_log 20000
alloc_lem_example = alloc_lem log_device 0 busy busy_log 20000 busy-Inv

alloc_reuse_example : BestFit log_device 0 busy busy_log 100
alloc_reuse_example =
    alloc_reuse log_device 0 busy busy_log 100 busy-Inv (unfold round_to_page in omega arith)

free_lem_example : Freed log_device 0 busy busy_log 7
free_lem_example = free_lem log_device 0 busy busy_log 7 (omega arith) busy-Inv

abbrev idle : Pool
idle = record {
  free_list =
      record { data_ptr = 3; size = 12288 }
      ∷ record { data_ptr = 7; size = 8192 }
      ∷ record { data_ptr = 1; size = 4096 }
      ∷ guard_entry
      ∷ [];
  allocated = guard_entry ∷ [];
}

free-busy : free busy 7 ≡ ok idle
unfolding free find_allocated put_back insert_sorted
free-busy = refl

release_lem_example : ReleaseResult log_device 0 busy busy_log
release_lem_example = release_lem log_device 0 busy busy_log busy-Inv

abbrev no_pools : List (Option Pool)
no_pools = []

abbrev one_block : Pool
one_block = record {
  free_list = guard_entry ∷ [];
  allocated = record { data_ptr = 1; size = 4096 } ∷ guard_entry ∷ [];
}

workspace_round_trip_example :
    PoolsInv log_device (none ∷ some one_block ∷ []) ((1, 1, 4096) ∷ [])
    × (round_to_page 64 ≤ 4096)
    × Returns log_device (none ∷ some one_block ∷ []) ((1, 1, 4096) ∷ []) 1 1
unfolding alloc_workspace slot_pool grown new_pool alloc take_entry new_block round_to_page
workspace_round_trip_example =
    workspace_round_trip log_device no_pools [] 1 64 1 (none ∷ some one_block ∷ [])
      ((1, 1, 4096) ∷ []) (λ k p h. absurd (ground arith)) refl
