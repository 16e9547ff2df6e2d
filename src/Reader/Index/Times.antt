-- ===== src/Reader/Index/Times.antt =====
-- The times that `IndexKeyframes` sorts, and the map from a time to its frame.
use mathlib.Core.List.{Perm}
use mathlib.Core.List.Perm
use peli.Base.{
  ℕ, zero, suc, ◌+◌, ◌≡◌, ◌≤◌, inl, inr, refl, sym, ap, ◌∙◌, Bool, true, false, Option, none, some,
  List, [], ◌∷◌, arith, if◌then◌else◌, get_elem?, All, All-weaken, ℤ, pos, ◌≤ℤ◌, ltb_ℤ, ◌==ℤ◌,
  Bool-cases,
}
use peli.Reader.State.{FrameTime}
use peli.Reader.Decode.{find_key}
use peli.Reader.Index.{insert_time, sort_times, insert_key, map_times}
use peli.Reader.Batch.Places.{or_else, or_else-none, same_key}

abbrev pub IsOrdered : List FrameTime → Type 0
IsOrdered [] = Unit
IsOrdered (t ∷ ts) = All (λ u. t.pts ≤ℤ u.pts) ts × IsOrdered ts

All-insert_time :
    (P : FrameTime → Type 0) (t : FrameTime) (ts : List FrameTime)
    → P t
    → All P ts
    → All P (insert_time t ts)
unfolding insert_time
All-insert_time P t [] h k = (h, tt)
All-insert_time P t (u ∷ ts) h (hu, k) = elim (Bool-cases (ltb_ℤ t.pts u.pts)) [
  | inl lt ↦ rw lt (h, (hu, k))
  | inr ge ↦ rw ge (hu, All-insert_time P t ts h k)
]

insert_time-IsOrdered :
    (t : FrameTime) (ts : List FrameTime) → IsOrdered ts → IsOrdered (insert_time t ts)
unfolding insert_time
insert_time-IsOrdered t [] h = (tt, tt)
insert_time-IsOrdered t (u ∷ ts) (hu, h) = elim (Bool-cases (ltb_ℤ t.pts u.pts)) [
  | inl lt ↦ rw lt ((ground arith, All-weaken (λ x le. ground arith) ts hu), (hu, h))
  | inr ge ↦
      rw ge
        (All-insert_time (λ x. u.pts ≤ℤ x.pts) t ts (ground arith) hu, insert_time-IsOrdered t ts h)
]

perm-insert_time : (t : FrameTime) (ts : List FrameTime) → Perm (t ∷ ts) (insert_time t ts)
unfolding insert_time
perm-insert_time t [] = Perm.refl _
perm-insert_time t (u ∷ ts) = elim (Bool-cases (ltb_ℤ t.pts u.pts)) [
  | inl lt ↦ rw lt (Perm.refl _)
  | inr ge ↦ rw ge (Perm.trans (Perm.swap _ _ _) (Perm.cons u (perm-insert_time t ts)))
]

pub sort_times-IsOrdered : (ts : List FrameTime) → IsOrdered (sort_times ts)
unfolding sort_times
sort_times-IsOrdered [] = tt
sort_times-IsOrdered (t ∷ ts) = insert_time-IsOrdered t (sort_times ts) (sort_times-IsOrdered ts)

pub perm-sort_times : (ts : List FrameTime) → Perm ts (sort_times ts)
unfolding sort_times
perm-sort_times [] = Perm.refl _
perm-sort_times (t ∷ ts) =
    Perm.trans (Perm.cons t (perm-sort_times ts)) (perm-insert_time t (sort_times ts))

-- The first frame of time `q`, from frame `i` on.
unfoldable first_time : ℕ → ℤ → List FrameTime → Option ℤ
first_time i q [] = none
first_time i q (t ∷ ts) =
    let rest = first_time (suc i) q ts in if t.pts ==ℤ q then some (pos i) else rest

find_key-insert_key :
    (q k v : ℤ) (m : List (ℤ × ℤ))
    → find_key q (insert_key k v m) ≡ or_else (find_key q m) (if k ==ℤ q then some v else none)
unfolding find_key insert_key
find_key-insert_key q k v [] = refl
find_key-insert_key q k v ((j, w) ∷ m) = elim (same_key j k) [
  | inl (e, t) ↦ elim (Bool-cases (j ==ℤ q)) [
    | inl same ↦ rw (t, same) refl
    | inr other ↦
        let away : (k ==ℤ q) ≡ false = ap (λ z. z ==ℤ q) (sym e) ∙ other in
        rw (t, other, away) (or_else-none (find_key q m))
  ]
  | inr f ↦ elim (Bool-cases (j ==ℤ q)) [
    | inl same ↦ rw (f, same) refl
    | inr other ↦ rw (f, other) (find_key-insert_key q k v m)
  ]
]

or_else_assoc {ℓ} :
    {A : Type ℓ} (x y z : Option A) → or_else (or_else x y) z ≡ or_else x (or_else y z)
or_else_assoc none y z = refl
or_else_assoc (some x) y z = refl

pick_or {ℓ} :
    {A : Type ℓ} (b : Bool) (x : A) (z : Option A)
    → or_else (if b then some x else none) z ≡ (if b then some x else z)
pick_or true x z = refl
pick_or false x z = refl

find_key-map_times :
    (q : ℤ) (i : ℕ) (ts : List FrameTime) (m : List (ℤ × ℤ))
    → find_key q (map_times i ts m) ≡ or_else (find_key q m) (first_time i q ts)
unfolding map_times first_time
find_key-map_times q i [] m = or_else-none (find_key q m)
find_key-map_times q i (t ∷ ts) m =
    find_key-map_times q (suc i) ts (insert_key t.pts (pos i) m)
    ∙ ap (λ x. or_else x (first_time (suc i) q ts)) (find_key-insert_key q t.pts (pos i) m)
    ∙ or_else_assoc (find_key q m) _ _
    ∙ ap (or_else (find_key q m)) (pick_or (t.pts ==ℤ q) (pos i) (first_time (suc i) q ts))

first_time_found :
    (i : ℕ) (ts : List FrameTime) (j : ℕ) (t : FrameTime)
    → get_elem? ts j ≡ some t
    → (k : ℕ) × (u : FrameTime) × (first_time i t.pts ts ≡ some (pos (i + k)))
      × (k ≤ j)
      × (get_elem? ts k ≡ some u)
      × (u.pts ≡ t.pts)
unfolding first_time
first_time_found i [] j t h = cc
first_time_found i (u ∷ ts) zero t h =
    let same : u.pts ≡ t.pts = cc in
    let found : (u.pts ==ℤ t.pts) ≡ true = ground arith in
    (0, u, rw found (ap (λ n. some (pos n)) (omega arith)), omega arith, refl, same)
first_time_found i (u ∷ ts) (suc j) t h = elim (same_key u.pts t.pts) [
  | inl (e, found) ↦ (0, u, rw found (ap (λ n. some (pos n)) (omega arith)), omega arith, refl, e)
  | inr away ↦
      let (k, v, first, le, at, same) = first_time_found (suc i) ts j t h in
      (suc k, v, rw away (first ∙ ap (λ n. some (pos n)) (omega arith)), omega arith, at, same)
]

-- The map from a time to the first frame of that time.
pub map_times_lem :
    (ts : List FrameTime) (j : ℕ) (t : FrameTime)
    → get_elem? ts j ≡ some t
    → (k : ℕ) × (u : FrameTime) × (find_key t.pts (map_times 0 ts []) ≡ some (pos k))
      × (k ≤ j)
      × (get_elem? ts k ≡ some u)
      × (u.pts ≡ t.pts)
unfolding find_key
map_times_lem ts j t h =
    let (k, u, first, le, at, same) = first_time_found 0 ts j t h in
    (
      k,
      u,
      find_key-map_times t.pts 0 ts [] ∙ first ∙ ap (λ n. some (pos n)) (omega arith),
      le,
      at,
      same,
    )
