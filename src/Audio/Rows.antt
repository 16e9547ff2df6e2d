-- ===== src/Audio/Rows.antt =====
-- The channels that `SaveToVector` fills keep one length.
use peli.Base.{
  ℕ, zero, suc, ◌+◌, ◌≡◌, ◌<◌, ◌⊎◌, inl, inr, refl, ap, subst, List, [], ◌∷◌, Ensures,
  Ensures-weaken, Ensures->>=, length, length-append, length-replicate, replicate, All, arith,
}
use peli.Audio.Save.{push_samples, save_channels, first_channels, save_to_vector}

length-push_samples :
    (row : ℕ → ℕ) (n : ℕ) (out : List ℕ) → length (push_samples row n out) ≡ length out + n
unfolding push_samples
length-push_samples row zero out = omega arith
length-push_samples row (suc n) out =
    omega
      (arith, length-push_samples row n out, length-append (push_samples row n out) (row n ∷ []))

abbrev pub Long : ℕ → List ℕ → Type 0
Long t out = length out ≡ t

-- Nothing is saved yet, or `k` channels of `t` samples are.
abbrev pub HasRows : ℕ → ℕ → List (List ℕ) → Type 0
HasRows k t outs = ((outs ≡ []) × (t ≡ 0)) ⊎ ((length outs ≡ k) × All (Long t) outs)

save_channels-HasRows :
    (buffer : ℕ → ℕ → ℕ) (n t c k : ℕ) (outs : List (List ℕ))
    → length outs ≡ k
    → All (Long t) outs
    → Ensures
        (λ saved. (length saved ≡ k) × All (Long (t + n)) saved)
        (save_channels buffer n c k outs)
unfolding save_channels
save_channels-HasRows buffer n t c zero [] e h = (refl, tt)
save_channels-HasRows buffer n t c zero (out ∷ rest) e h = absurd (omega arith)
save_channels-HasRows buffer n t c (suc k) [] e h = tt
save_channels-HasRows buffer n t c (suc k) (out ∷ rest) e h =
    Ensures->>= (λ saved. (length saved ≡ k) × All (Long (t + n)) saved) _
      (save_channels buffer n (c + 1) k rest) _
      (save_channels-HasRows buffer n t (c + 1) k rest (omega arith) h.1)
      (λ saved h'. (ap suc h'.0, (omega (arith, length-push_samples (buffer c) n out, h.0), h'.1)))

All-replicate : (k : ℕ) → All (Long 0) (replicate k [])
All-replicate zero = tt
All-replicate (suc k) = (refl, All-replicate k)

pub save_to_vector-HasRows :
    (buffer : ℕ → ℕ → ℕ) (k n t : ℕ) (outs : List (List ℕ))
    → 0 < k
    → HasRows k t outs
    → Ensures (HasRows k (t + n)) (save_to_vector buffer k n outs)
unfolding save_to_vector first_channels
save_to_vector-HasRows buffer k n t [] pk h =
    let none_yet : t ≡ 0 = elim h [ inl p ↦ p.1 | inr p ↦ absurd (omega arith) ] in
    Ensures-weaken (λ saved. (length saved ≡ k) × All (Long (0 + n)) saved) _ _
      (save_channels-HasRows buffer n 0 0 k (replicate k []) (length-replicate k [])
        (All-replicate k))
      (λ saved h'. inr (subst (λ m. (length saved ≡ k) × All (Long m) saved) (omega arith) h'))
save_to_vector-HasRows buffer k n t (out ∷ rest) pk (inl h) = absurd (cc)
save_to_vector-HasRows buffer k n t (out ∷ rest) pk (inr h) =
    Ensures-weaken (λ saved. (length saved ≡ k) × All (Long (t + n)) saved) _ _
      (save_channels-HasRows buffer n t 0 k (out ∷ rest) h.0 h.1) (λ saved h'. inr h')
