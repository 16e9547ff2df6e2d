-- ===== src/Audio/Save.antt =====
-- `SaveToVector` (src/audio/audio_reader.cc).
use peli.Base.{ℕ, zero, suc, ◌+◌, List, [], ◌∷◌, ◌++◌, Outcome, ok, fatal, ◌>>=◌, replicate}

-- The inner loop: `n` samples are pushed to the back of a channel.
unfoldable pub push_samples : (ℕ → ℕ) → ℕ → List ℕ → List ℕ
push_samples row zero out = out
push_samples row (suc n) out = push_samples row n out ++ (row n ∷ [])

-- The loop over `k` channels from channel `c` on; a channel that the vector lacks is undefined.
unfoldable pub save_channels : (ℕ → ℕ → ℕ) → ℕ → ℕ → ℕ → List (List ℕ) → Outcome (List (List ℕ))
save_channels buffer n c zero rest = ok rest
save_channels buffer n c (suc k) [] = fatal
save_channels buffer n c (suc k) (out ∷ rest) = do
  saved ← save_channels buffer n (c + 1) k rest
  ok (push_samples (buffer c) n out ∷ saved)

unfoldable pub first_channels : ℕ → List (List ℕ) → List (List ℕ)
first_channels k [] = replicate k []
first_channels k (out ∷ rest) = out ∷ rest

-- `SaveToVector`.
unfoldable pub save_to_vector : (ℕ → ℕ → ℕ) → ℕ → ℕ → List (List ℕ) → Outcome (List (List ℕ))
save_to_vector buffer num_channels num_samples outs =
    save_channels buffer num_samples 0 num_channels (first_channels num_channels outs)
