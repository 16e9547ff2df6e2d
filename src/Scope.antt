-- ===== src/Scope.antt =====
-- src/runtime/thread_storage_scope.h: storage scopes as text, and which axis of a launch each
-- argument sets. Text is the codes of its characters.
mod Text
mod Axes
mod Tests
use peli.Base.{
  ℕ, zero, suc, ◌+◌, ◌-◌, ◌%◌, ◌^◌, ◌≡◌, Bool, true, false, ◌&&◌, ◌||◌, Option, none, some, List,
  [], ◌∷◌, ◌++◌, Outcome, ok, fatal, ◌>>=◌, or_fatal, if◌then◌else◌, ◌==◌, ltb, length, get_elem?,
  set, drop, replicate, ℤ, pos, negsuc, pos_part, neg_part, ◌+ℤ◌, ◌-ℤ◌, ◌*ℤ◌, ltb_ℤ, leb_ℤ, ◌==ℤ◌,
}
use Prim.Native.Char.{code}
use Prim.Native.String.{String}

abbrev pub codes : String → List ℕ
codes String.[] = []
codes (String.◌∷◌ c s) = code c ∷ codes s

pub data StorageRank : Type 0 where
  global : StorageRank
  shared : StorageRank
  warp : StorageRank
  local : StorageRank

unfoldable pub default_storage_rank : ℤ → Outcome StorageRank
default_storage_rank r =
    if r ==ℤ negsuc 0
    then ok global
    else if r ==ℤ pos 0
    then ok shared
    else if r ==ℤ pos 1
    then ok local
    else fatal

pub record StorageScope : Type 0 where
  pub rank : StorageRank
  pub tag : List ℕ

abbrev pub rank_name : StorageRank → List ℕ
rank_name global = codes "global"
rank_name shared = codes "shared"
rank_name warp = codes "warp"
rank_name local = codes "local"

-- `to_string`.
unfoldable pub to_string : StorageScope → List ℕ
to_string s = rank_name s.rank ++ s.tag

-- `s.compare(0, n, name) == 0` for a name of length `n`, with `s.substr(n)`.
unfoldable pub strip : List ℕ → List ℕ → Option (List ℕ)
strip [] s = some s
strip (c ∷ name) [] = none
strip (c ∷ name) (d ∷ s) = if c == d then strip name s else none

-- The first of the names that is a prefix.
unfoldable pub first_rank : List StorageRank → List ℕ → Outcome StorageScope
first_rank [] s = fatal
first_rank (r ∷ rs) s = elim (strip (rank_name r) s) [
  | some tag ↦ ok (record { rank = r; tag = tag })
  | none ↦ first_rank rs s
]

abbrev pub ranks : List StorageRank
ranks = global ∷ shared ∷ warp ∷ local ∷ []

-- `StorageScope::make`.
unfoldable pub make : List ℕ → Outcome StorageScope
make s = first_rank ranks s

-- Equality of text.
unfoldable pub same_text : List ℕ → List ℕ → Bool
same_text [] [] = true
same_text [] (d ∷ t) = false
same_text (c ∷ s) [] = false
same_text (c ∷ s) (d ∷ t) = if c == d then same_text s t else false

pub record ThreadScope : Type 0 where
  pub rank : ℤ
  pub dim_index : ℤ

-- The character after a prefix; at the end of a `std::string` it is 0.
unfoldable pub first_char : List ℕ → ℕ
first_char [] = 0
first_char (c ∷ s) = c

-- `ThreadScope::make`.
unfoldable pub make_thread : List ℕ → Outcome ThreadScope
make_thread s =
    if same_text s (codes "vthread") || same_text s (codes "cthread")
    then ok (record { rank = pos 1; dim_index = negsuc 0 })
    else elim (strip (codes "blockIdx.") s) [
      | some rest ↦ ok (record { rank = pos 0; dim_index = pos (first_char rest) -ℤ pos b'x' })
      | none ↦ elim (strip (codes "threadIdx.") s) [
        | some rest ↦ ok (record { rank = pos 1; dim_index = pos (first_char rest) -ℤ pos b'x' })
        | none ↦ fatal
      ]
    ]

pub record AxisConfig : Type 0 where
  pub base : ℕ
  pub work_dim : ℕ
  pub arg_index_map : List ℕ

-- The place of an axis among the six, which a write outside of them leaves undefined.
unfoldable pub place_of : ThreadScope → Outcome ℕ
place_of t =
    let i = t.rank *ℤ pos 3 +ℤ t.dim_index in
    if leb_ℤ (pos 0) i && ltb_ℤ i (pos 6) then ok (pos_part i) else fatal

-- The loop over the tags.
unfoldable pub note_tags : List (List ℕ) → List ℕ → List Bool → Outcome (List ℕ × List Bool)
note_tags [] map filled = ok (map, filled)
note_tags (tag ∷ tags) map filled = do
  t ← make_thread tag
  i ← place_of t
  note_tags tags (map ++ (i ∷ [])) (set filled i true)

abbrev pub is_filled : List Bool → ℕ → Bool
is_filled filled i = elim (get_elem? filled i) [ some b ↦ b | none ↦ false ]

-- The loop over the three dimensions.
unfoldable pub work_dims : List Bool → ℕ → ℕ → ℕ → ℕ
work_dims filled zero i dim = dim
work_dims filled (suc k) i dim =
    work_dims filled k (suc i)
      (if is_filled filled i || is_filled filled (i + 3) then suc i else dim)

-- `Init`, which adds to what `arg_index_map_` has.
unfoldable pub init : AxisConfig → ℕ → List (List ℕ) → Outcome AxisConfig
init c base tags = do
  (map, filled) ← note_tags tags c.arg_index_map (replicate 6 false)
  ok (record { base = base; work_dim = work_dims filled 3 0 1; arg_index_map = map })

-- An `int64_t` as a `size_t`.
unfoldable pub to_size : ℤ → ℕ
to_size z = (pos_part z + 2 ^ 64 - neg_part z % 2 ^ 64) % 2 ^ 64

-- The loop over the arguments; one that is not there is undefined.
unfoldable pub fill_sizes : List ℤ → ℕ → List ℕ → List ℕ → Outcome (List ℕ)
fill_sizes values i [] sizes = ok sizes
fill_sizes values i (p ∷ map) sizes = do
  v ← or_fatal (get_elem? values i)
  fill_sizes values (i + 1) map (set sizes p (to_size v))

-- `Extract`.
unfoldable pub extract : AxisConfig → List ℤ → Outcome (List ℕ)
extract c values = fill_sizes values c.base c.arg_index_map (replicate 6 1)
