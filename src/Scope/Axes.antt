-- ===== src/Scope/Axes.antt =====
-- The axes of a launch: which argument sets which of the six sizes.
use peli.Base.{
  ℕ, zero, suc, ◌≡◌, ◌≢◌, ◌<◌, inl, inr, refl, sym, ap, ◌∙◌, Bool, true, false, some, List, [], ◌∷◌,
  ◌++◌, map, ok, ◌>>=◌, >>=-eq-ok, arith, ◌==◌, Bool-cases, if◌then◌else◌, length, get_elem?, set,
  replicate, append_assoc, append_nil, length-append, length-set, get_elem?-set_self,
  get_elem?-set_ne, ℤ, ◌+ℤ◌, ◌-ℤ◌, ◌*ℤ◌,
}
use peli.Scope.{
  codes, AxisConfig, make_thread, same_text, strip, first_char, place_of, note_tags, init, to_size,
  fill_sizes, extract,
}

-- The names that a launch uses, and their places.
pub data Axis : Type 0 where
  block_x : Axis
  block_y : Axis
  block_z : Axis
  thread_x : Axis
  thread_y : Axis
  thread_z : Axis

abbrev pub axis_name : Axis → List ℕ
axis_name block_x = codes "blockIdx.x"
axis_name block_y = codes "blockIdx.y"
axis_name block_z = codes "blockIdx.z"
axis_name thread_x = codes "threadIdx.x"
axis_name thread_y = codes "threadIdx.y"
axis_name thread_z = codes "threadIdx.z"

abbrev pub place : Axis → ℕ
place block_x = 0
place block_y = 1
place block_z = 2
place thread_x = 3
place thread_y = 4
place thread_z = 5

-- The size at place `j` after the arguments, from `d` before them: the last that names it.
abbrev pub size_at : ℕ → List Axis → List ℤ → ℕ → ℕ
size_at j [] vs d = d
size_at j (a ∷ axes) [] d = d
size_at j (a ∷ axes) (v ∷ vs) d = size_at j axes vs (if place a == j then to_size v else d)

place-lt : (a : Axis) → place a < 6
place-lt block_x = omega arith
place-lt block_y = omega arith
place-lt block_z = omega arith
place-lt thread_x = omega arith
place-lt thread_y = omega arith
place-lt thread_z = omega arith

axis_place : (a : Axis) → (make_thread (axis_name a) >>= place_of) ≡ ok (place a)
unfolding make_thread same_text strip first_char place_of ◌-ℤ◌ ◌+ℤ◌ ◌*ℤ◌
axis_place block_x = refl
axis_place block_y = refl
axis_place block_z = refl
axis_place thread_x = refl
axis_place thread_y = refl
axis_place thread_z = refl

-- Every name of an axis is taken, and the places are noted in order.
note_tags-axes :
    (axes : List Axis) (m : List ℕ) (filled : List Bool)
    → (f : List Bool) × (note_tags (map axis_name axes) m filled ≡ ok (m ++ map place axes, f))
unfolding note_tags
note_tags-axes [] m filled = (filled, ap (λ l. ok (l, filled)) (sym (append_nil m)))
note_tags-axes (a ∷ axes) m filled =
    let (t, parsed, placed) = >>=-eq-ok (make_thread (axis_name a)) place_of (axis_place a) in
    let (f, rest) = note_tags-axes axes (m ++ (place a ∷ [])) (set filled (place a) true) in
    (
      f,
      rw (parsed, placed)
          (rest ∙ ap (λ l. ok (l, f)) (append_assoc m (place a ∷ []) (map place axes))),
    )

front_get : (front args : List ℤ) (v : ℤ) → get_elem? (front ++ (v ∷ args)) (length front) ≡ some v
front_get [] args v = refl
front_get (u ∷ front) args v = front_get front args v

ones : (j : ℕ) → j < 6 → get_elem? (replicate 6 (let n : ℕ = 1 in n)) j ≡ some 1
ones zero h = refl
ones (suc zero) h = refl
ones (suc (suc zero)) h = refl
ones (suc (suc (suc zero))) h = refl
ones (suc (suc (suc (suc zero)))) h = refl
ones (suc (suc (suc (suc (suc zero))))) h = refl
ones (suc (suc (suc (suc (suc (suc j)))))) h = absurd (omega arith)

-- One argument sets its place and no other.
set_place :
    (a j d n : ℕ) (sizes : List ℕ)
    → a < length sizes
    → get_elem? sizes j ≡ some d
    → get_elem? (set sizes a n) j ≡ some (if a == j then n else d)
set_place a j d n sizes h e = elim (Bool-cases (a == j)) [
  | inl same ↦
      let eq : a ≡ j = ground arith in
      rw same (ap (λ k. get_elem? (set sizes a n) k) (sym eq) ∙ get_elem?-set_self sizes a n h)
  | inr other ↦ let ne : a ≢ j = ground arith in rw other (get_elem?-set_ne sizes n ne ∙ e)
]

module _ (values : List ℤ) where
  fill_sizes-axes :
      (axes : List Axis) (front args : List ℤ) (sizes : List ℕ)
      → values ≡ front ++ args
      → length args ≡ length axes
      → length sizes ≡ 6
      → (out : List ℕ) × (fill_sizes values (length front) (map place axes) sizes ≡ ok out)
        × (length out ≡ 6)
        × ((j d : ℕ) → get_elem? sizes j ≡ some d → get_elem? out j ≡ some (size_at j axes args d))
  unfolding fill_sizes
  fill_sizes-axes [] front args sizes e same six = (sizes, refl, six, λ j d h. h)
  fill_sizes-axes (a ∷ axes) front [] sizes e same six = absurd (omega arith)
  fill_sizes-axes (a ∷ axes) front (v ∷ args) sizes e same six =
      let here : get_elem? values (length front) ≡ some v =
        ap (λ l. get_elem? l (length front)) e ∙ front_get front args v in
      let sizes' = set sizes (place a) (to_size v) in
      let six' : length sizes' ≡ 6 = length-set sizes (place a) (to_size v) ∙ six in
      let next : values ≡ (front ++ (v ∷ [])) ++ args =
        e ∙ sym (append_assoc front (v ∷ []) args) in
      let (out, filled, whole, sizes_of) =
        fill_sizes-axes axes (front ++ (v ∷ [])) args sizes' next (omega arith) six' in
      let at = length-append front (v ∷ []) in
      (
        out,
        rw here (ap (λ i. fill_sizes values i (map place axes) sizes') (sym at) ∙ filled),
        whole,
        λ j d h.
            sizes_of j (if place a == j then to_size v else d)
              (set_place (place a) j d (to_size v) sizes (omega (arith, place-lt a)) h),
      )

-- On a configuration that was not used before, `Init` takes any list of the names of axes, and
-- `Extract` on as many arguments, from the base on, returns the six sizes: each is the last
-- argument whose axis has its place, as a `size_t`, and 1 where there is none.
pub launch_sizes :
    (c : AxisConfig) (axes : List Axis) (front args : List ℤ)
    → c.arg_index_map ≡ []
    → length args ≡ length axes
    → (out : List ℕ) × ((init c (length front) (map axis_name axes) >>= λ d.
          extract d (front ++ args))
        ≡ ok out)
      × (length out ≡ 6)
      × ((j : ℕ) → j < 6 → get_elem? out j ≡ some (size_at j axes args 1))
unfolding init extract
launch_sizes c axes front args fresh same =
    let (f, noted) = note_tags-axes axes [] (replicate 6 false) in
    let (out, filled, whole, sizes_of) =
      fill_sizes-axes (front ++ args) axes front args (replicate 6 1) refl same refl in
    (out, rw (fresh, noted) filled, whole, λ j h. sizes_of j 1 (ones j h))
