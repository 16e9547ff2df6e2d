-- ===== src/Reader/Batch/Places.antt =====
-- What `unique_indices` of `GetBatch` holds: the first place of each position.
use peli.Base.{
  ℕ, suc, ◌+◌, ◌≡◌, ◌<◌, refl, sym, ap, ◌∙◌, true, false, Option, none, some, List, [], ◌∷◌, ◌++◌,
  ◌⊎◌, inl, inr, arith, length, get_elem?, if◌then◌else◌, ℤ, ◌==ℤ◌, Option-cases,
}
use peli.Reader.Decode.{find_key}
use peli.Reader.Batch.{first_places}

-- The first place of `q` in a list that starts at place `i`.
unfoldable pub first_from : ℕ → ℤ → List ℤ → Option ℕ
first_from i q [] = none
first_from i q (p ∷ ps) = let rest = first_from (suc i) q ps in if p ==ℤ q then some i else rest

abbrev pub or_else {ℓ} : {A : Type ℓ} → Option A → Option A → Option A
or_else none y = y
or_else (some x) y = some x

pub or_else-none {ℓ} : {A : Type ℓ} (x : Option A) → x ≡ or_else x none
or_else-none none = refl
or_else-none (some x) = refl

pub same_key : (p q : ℤ) → ((p ≡ q) × ((p ==ℤ q) ≡ true)) ⊎ ((p ==ℤ q) ≡ false)
same_key p q = ground arith

pub first_places_lem :
    (q : ℤ) (i : ℕ) (ps : List ℤ) (seen : List (ℤ × ℕ))
    → find_key q (first_places i ps seen) ≡ or_else (find_key q seen) (first_from i q ps)
unfolding first_places first_from find_key
first_places_lem q i [] seen = or_else-none (find_key q seen)
first_places_lem q i (p ∷ ps) seen = elim (same_key p q) [
  | inl (e, t) ↦ elim (Option-cases (find_key p seen)) [
    | inl h ↦
        rw (h, t, ap (λ z. find_key z seen) (sym e) ∙ h)
          (first_places_lem q (suc i) ps ((p, i) ∷ seen) ∙ rw t refl)
    | inr (j, h) ↦
        rw (h, t, ap (λ z. find_key z seen) (sym e) ∙ h)
          (first_places_lem q (suc i) ps seen ∙ rw (ap (λ z. find_key z seen) (sym e) ∙ h) refl)
  ]
  | inr t ↦ elim (Option-cases (find_key p seen)) [
    | inl h ↦ rw (h, t) (first_places_lem q (suc i) ps ((p, i) ∷ seen) ∙ rw t refl)
    | inr (j, h) ↦ rw (h, t) (first_places_lem q (suc i) ps seen)
  ]
]

-- The positions of the places that are filled.
abbrev pub keys {ℓ} : {A : Type ℓ} → List (ℤ × A) → List ℤ
keys [] = []
keys ((p, x) ∷ xs) = p ∷ keys xs

-- A position either is new, and then its first place is the next one, or has been put at an
-- earlier place.
pub first_from_cases {ℓ} :
    {A : Type ℓ} (i : ℕ) (p : ℤ) (slots : List (ℤ × A)) (ps : List ℤ)
    → ((find_key p slots ≡ none)
        × (first_from i p (keys slots ++ (p ∷ ps)) ≡ some (i + length slots)))
      ⊎ ((j : ℕ) × (q : ℤ) × (x : A) × (j < length slots)
          × (find_key p slots ≡ some x)
          × (first_from i p (keys slots ++ (p ∷ ps)) ≡ some (i + j))
          × (get_elem? slots j ≡ some (q, x)))
unfolding first_from find_key
first_from_cases i p [] ps = inl (refl, ground arith)
first_from_cases i p ((q, x) ∷ slots) ps = elim (same_key q p) [
  | inl (e, t) ↦ inr (0, q, x, omega arith, rw t refl, rw t (ap (λ k. some k) (omega arith)), refl)
  | inr t ↦ elim (first_from_cases (suc i) p slots ps) [
    | inl (h, h') ↦ inl (rw t h, rw t (h' ∙ ap (λ k. some k) (omega arith)))
    | inr (j, q', x', lt, h, h', g) ↦
        inr (suc j, q', x', omega arith, rw t h, rw t (h' ∙ ap (λ k. some k) (omega arith)), g)
  ]
]

pub keys_snoc {ℓ} :
    {A : Type ℓ} (slots : List (ℤ × A)) (p : ℤ) (x : A) (ps : List ℤ)
    → keys (slots ++ ((p, x) ∷ [])) ++ ps ≡ keys slots ++ (p ∷ ps)
keys_snoc [] p x ps = refl
keys_snoc ((q, y) ∷ slots) p x ps = ap (λ l. q ∷ l) (keys_snoc slots p x ps)
