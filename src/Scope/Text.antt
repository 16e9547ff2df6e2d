-- ===== src/Scope/Text.antt =====
-- Storage scopes as text: printing and parsing are inverse to one another.
use peli.Base.{
  ℕ, ◌≡◌, refl, sym, ap, ◌∙◌, inl, inr, Option-cases, none, some, List, [], ◌∷◌, ◌++◌, ok, arith,
}
use peli.Scope.{
  StorageRank, global, shared, warp, local, StorageScope, rank_name, to_string, strip, first_rank,
  ranks, make,
}

strip-some : (name s tag : List ℕ) → strip name s ≡ some tag → s ≡ name ++ tag
unfolding strip
strip-some [] s tag e = cc
strip-some (c ∷ name) [] tag e = absurd (cc)
strip-some (c ∷ name) (d ∷ s) tag e = ground (arith, strip-some name s tag)

skipped :
    (r : StorageRank) (rs : List StorageRank) (s : List ℕ)
    → strip (rank_name r) s ≡ none
    → first_rank (r ∷ rs) s ≡ first_rank rs s
unfolding first_rank
skipped r rs s e = rw (e, first_rank) refl

hit :
    (r : StorageRank) (rs : List StorageRank) (s tag : List ℕ)
    → strip (rank_name r) s ≡ some tag
    → first_rank (r ∷ rs) s ≡ ok (record { rank = r; tag = tag })
unfolding first_rank
hit r rs s tag e = rw (e, first_rank) refl

first_rank-ok :
    (rs : List StorageRank) (s : List ℕ) (scope : StorageScope)
    → first_rank rs s ≡ ok scope
    → s ≡ to_string scope
unfolding first_rank to_string
first_rank-ok [] s scope e = absurd (cc)
first_rank-ok (r ∷ rs) s scope e = elim (Option-cases (strip (rank_name r) s)) [
  | inl other ↦ first_rank-ok rs s scope (sym (skipped r rs s other) ∙ e)
  | inr (tag, found) ↦
      let same =
        ap (λ (t : StorageScope). rank_name t.rank ++ t.tag)
          (let eq : record { rank = r; tag = tag } ≡ scope = ground (arith, hit r rs s tag found) in
            eq) in
      strip-some (rank_name r) s tag found ∙ same
]

make-to_string : (scope : StorageScope) → make (to_string scope) ≡ ok scope
unfolding make first_rank strip to_string
make-to_string scope = by_rank scope.rank scope.tag
  where
    by_rank :
        (r : StorageRank) (tag : List ℕ)
        → make (rank_name r ++ tag) ≡ ok (record { rank = r; tag = tag })
    by_rank global tag = refl
    by_rank shared tag = refl
    by_rank warp tag = refl
    by_rank local tag = refl

-- Printing a storage scope and parsing it gives the scope, whatever its tag; and whatever text
-- parses to a scope is the text that the scope prints as.
pub scope_round_trip :
    (scope : StorageScope)
    → (make (to_string scope) ≡ ok scope) × ((s : List ℕ) → make s ≡ ok scope → s ≡ to_string scope)
unfolding make
scope_round_trip scope = (make-to_string scope, λ s e. first_rank-ok ranks s scope e)
