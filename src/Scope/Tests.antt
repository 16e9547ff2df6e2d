-- ===== src/Scope/Tests.antt =====
-- Scopes and axes of small launches.
use peli.Base.{
  ℕ, ◌≡◌, ◌<◌, refl, List, [], ◌∷◌, map, ok, ◌>>=◌, length, get_elem?, some, pos, ◌+ℤ◌, ◌-ℤ◌, ◌*ℤ◌,
}
use peli.Scope.{
  codes, StorageScope, shared, to_string, make, strip, AxisConfig, make_thread, same_text,
  first_char, place_of, init, extract,
}
use peli.Scope.Text.{scope_round_trip}
use peli.Scope.Axes.{Axis, block_x, thread_x, axis_name, size_at, launch_sizes}

abbrev tagged : StorageScope
tagged = record { rank = shared; tag = codes ".dyn" }

shared_text : to_string tagged ≡ codes "shared.dyn"
unfolding to_string
shared_text = refl

scope_round_trip_example :
    (make (to_string tagged) ≡ ok tagged)
    × ((s : List ℕ) → make s ≡ ok tagged → s ≡ to_string tagged)
scope_round_trip_example = scope_round_trip tagged

-- A virtual thread has the place of `blockIdx.z`.
virtual_place : (make_thread (codes "vthread") >>= place_of) ≡ ok 2
unfolding make_thread same_text strip first_char place_of ◌-ℤ◌ ◌+ℤ◌ ◌*ℤ◌
virtual_place = refl

abbrev unused : AxisConfig
unused = record { base = 0; work_dim = 0; arg_index_map = [] }

abbrev two_axes : List Axis
two_axes = block_x ∷ thread_x ∷ []

launch_sizes_example :
    (out : List ℕ) × ((init unused 1 (map axis_name two_axes) >>= λ d.
    extract d (pos 9 ∷ pos 4 ∷ pos 32 ∷ []))
      ≡ ok out)
    × (length out ≡ 6)
    × ((j : ℕ) → j < 6 → get_elem? out j ≡ some (size_at j two_axes (pos 4 ∷ pos 32 ∷ []) 1))
launch_sizes_example = launch_sizes unused two_axes (pos 9 ∷ []) (pos 4 ∷ pos 32 ∷ []) refl refl
