-- ===== src/Sampler/Batches.antt =====
-- What the samplers of src/sampler share: the sample types of sampler_interface.h, the checks of a
-- file's range, and the frames of one batch. The `int` and `int64_t` values are integers here: no
-- sum is taken to overflow.
pub mod Range
pub mod Frames
pub mod Laid
pub mod Stuck
use peli.Base.{
  ℕ, zero, suc, ◌+◌, ◌*◌, ◌/◌, ◌%◌, ◌≡◌, Bool, List, [], ◌∷◌, Outcome, ok, fatal, ◌>>=◌, ◌>>◌,
  check, ltb, leb, ◌==◌, if◌then◌else◌, length, ℤ, pos, negsuc, pos_part, neg_part, ◌+ℤ◌, ◌-ℤ◌,
  ◌*ℤ◌, ltb_ℤ, leb_ℤ,
}

-- `SamplerIndex` and `Samples`: a file's index and a frame's number.
abbrev pub SamplerIndex : Type 0
SamplerIndex = ℕ × ℤ

abbrev pub Samples : Type 0
Samples = List SamplerIndex

-- "allow negative indices, e.g., -20 means total_frame - 20": the code subtracts the negative end.
unfoldable pub resolve_end : ℤ → ℤ → ℤ
resolve_end len end = if ltb_ℤ end (pos 0) then len -ℤ end else end

-- The three `CHECK`s of a file's range.
unfoldable pub check_range : ℤ → ℤ → ℤ → Outcome (Unit {0})
check_range len begin end = do
  check (leb_ℤ (pos 0) end)
  check (ltb_ℤ begin end)
  check (ltb_ℤ end len)

-- The frames from the start of a batch to the start of the next one, and those it spans.
unfoldable pub bs_skip : ℤ → ℤ → ℤ → ℤ
bs_skip bs interval skip = bs *ℤ (pos 1 +ℤ interval) -ℤ interval +ℤ skip

unfoldable pub bs_length : ℤ → ℤ → ℤ → ℤ
bs_length bs interval skip = bs_skip bs interval skip -ℤ skip

-- The inner loop: `n` samples of file `i` from frame `b + offset` on.
unfoldable pub batch_from : ℕ → ℤ → ℤ → ℤ → ℕ → Samples
batch_from i b offset interval zero = []
batch_from i b offset interval (suc n) =
    (i, b +ℤ offset) ∷ batch_from i b (offset +ℤ (interval +ℤ pos 1)) interval n

-- The loop over the batches of one file. It needs no more rounds than the file has frames, if
-- each round moves on.
unfoldable pub batches : ℕ → ℕ → ℤ → ℤ → ℤ → ℤ → ℤ → Outcome (List Samples)
batches zero i b end bs interval skip = Outcome.diverges
batches (suc fuel) i b end bs interval skip =
    let rest = batches fuel i (b +ℤ bs_skip bs interval skip) end bs interval skip in
    if ltb_ℤ (b +ℤ bs_length bs interval skip) end
    then (do l ← rest; ok (batch_from i b (pos 0) interval (pos_part bs) ∷ l))
    else ok []

-- The rounds allowed for the range from `begin` to `end`.
abbrev pub rounds : ℤ → ℤ → ℕ
rounds begin end = suc (pos_part (end -ℤ begin))
