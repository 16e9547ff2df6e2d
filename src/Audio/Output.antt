-- ===== src/Audio/Output.antt =====
-- `ToNDArray`, the constructor and the queries of `AudioReader` (src/audio/audio_reader.cc).
use Prim.Native.Nat.{◌/◌}
use peli.Base.{
  ℕ, zero, suc, ◌+◌, ◌*◌, ◌%◌, Bool, Option, none, some, List, [], ◌∷◌, ◌++◌, Outcome, ok, ◌>>=◌,
  ◌>>◌, check, leb, ◌==◌, length, get_elem?, or_fatal, ℤ, pos, ◌==ℤ◌, not,
}
use peli.Reader.Batch.{write}
use peli.Audio.State.{Media, Audio, Sys}
use peli.Audio.Decode.{IoType, decode}

-- The four bytes of a sample, least first.
unfoldable pub sample_bytes : ℕ → List ℕ
sample_bytes v = v % 256 ∷ v / 256 % 256 ∷ v / 65536 % 256 ∷ v / 16777216 % 256 ∷ []

unfoldable pub channel_bytes : List ℕ → List ℕ
channel_bytes [] = []
channel_bytes (v ∷ vs) = sample_bytes v ++ channel_bytes vs

-- One round of the loop: the channel is copied to an array of `n` samples and from there to the
-- view at byte `c * n` of the output.
unfoldable pub store_channel : List (List ℕ) → ℕ → ℕ → List ℕ → Outcome (List ℕ)
store_channel outs n c buf = do
  out ← or_fatal (get_elem? outs c)
  check (length out == n)
  check (leb (4 * n + c * n) (length buf))
  ok (write buf (c * n) (channel_bytes out))

-- The loop from channel `c` on, with `k` channels left.
unfoldable pub store_channels : List (List ℕ) → ℕ → ℕ → ℕ → List ℕ → Outcome (List ℕ)
store_channels outs n c zero buf = ok buf
store_channels outs n c (suc k) buf =
    store_channel outs n c buf >>= λ b. store_channels outs n (c + 1) k b

-- `ToNDArray`: `none` where there is no array. `fresh n` is what a new array of `n` bytes holds.
unfoldable pub to_ndarray : (ℕ → List ℕ) → Audio → Outcome (Option (List ℕ))
to_ndarray fresh a = elim a.output_vector [
  | [] ↦ ok none
  | out ∷ rest ↦
      store_channels (out ∷ rest) (length out) 0 a.num_channels
        (fresh (a.num_channels * length out * 4))
      >>= λ buf. ok (some buf)
]

unfoldable pub get_num_samples_per_channel : Audio → ℕ
get_num_samples_per_channel a = elim a.output_vector [ [] ↦ 0 | out ∷ rest ↦ length out ]

module _ (md : Media) where
  -- The constructor: the reader and its array. The division by the sample rate traps on 0; its
  -- result, the duration, is left out.
  unfoldable pub new_audio_reader :
      (ℕ → List ℕ) → ℕ → ℕ → ℕ → IoType → List ℕ → ℤ → Bool → Outcome (Option (List ℕ) × Sys md)
  new_audio_reader fresh flushes frames fuel io fn sample_rate mono = do
    s ← decode md flushes frames fuel io fn sample_rate mono
    check (not (s.audio.original_sample_rate ==ℤ pos 0))
    output ← to_ndarray fresh s.audio
    ok (output, s)
