-- ===== src/Audio/Mono.antt =====
-- The whole reader when it mixes down to one channel.
use peli.Base.{
  ℕ, ◌≡◌, ◌⊎◌, inl, inr, refl, sym, ap, ◌∙◌, true, Option, none, some, List, [], ◌∷◌, Outcome, ok,
  Ensures, Ensures->>=, Ensures->>, not, ◌==ℤ◌, or_fatal, ◌>>=◌, length, All, arith, ℤ, pos,
}
use peli.Audio.State.{Media, Audio, Sys}
use peli.Audio.Decode.{
  IoType, normal, device, raw_bytes, invalid, out_channels, find_audio, new_audio, select_stream,
  open_input, decode,
}
use peli.Audio.Output.{channel_bytes, to_ndarray, new_audio_reader}
use peli.Audio.Ends.{Ends, Uniform, Balanced}
use peli.Audio.Totals.{decode_packet-Balanced}
use peli.Audio.Planar.{to_ndarray_mono}

-- No array and no samples, or one channel of as many samples as were counted, and its bytes.
abbrev pub IsMono : (md : Media) → Option (List ℕ) × Sys md → Type 0
IsMono md (output, s) =
    ((output ≡ none) × (s.audio.output_vector ≡ []) × (s.audio.total_converted ≡ pos 0))
    ⊎ ((out : List ℕ) × (s.audio.output_vector ≡ out ∷ [])
        × (s.audio.total_converted ≡ pos (length out))
        × (output ≡ some (channel_bytes out)))

Ensures-or_fatal :
    {A B : Type 0} (Q : B → Type 0) (o : Option A) (go_on : A → Outcome B)
    → ((a : A) → o ≡ some a → Ensures Q (go_on a))
    → Ensures Q (or_fatal o >>= go_on)
Ensures-or_fatal Q none go_on h = tt
Ensures-or_fatal Q (some a) go_on h = h a refl

always : {A : Type 0} (o : Option A) → Ensures (λ _. Unit {0}) (or_fatal o)
always none = tt
always (some a) = tt

open_input-ends :
    (md : Media) (io : IoType) (fn : List ℕ) → Ensures (λ _. Unit {0}) (open_input md io fn)
unfolding open_input
open_input-ends md normal fn = always (md.open_file fn)
open_input-ends md raw_bytes fn = always (md.open_bytes fn)
open_input-ends md device fn = tt
open_input-ends md invalid fn = tt

one_row :
    (t : ℕ) (outs : List (List ℕ))
    → length outs ≡ 1
    → All (λ out. length out ≡ t) outs
    → (out : List ℕ) × (outs ≡ out ∷ []) × (length out ≡ t)
one_row t [] e h = absurd (omega arith)
one_row t (out ∷ []) e h = (out, refl, h.0)
one_row t (out ∷ out' ∷ outs) e h = absurd (omega arith)

no_array : (fresh : ℕ → List ℕ) (a : Audio) → a.output_vector ≡ [] → to_ndarray fresh a ≡ ok none
unfolding to_ndarray
no_array fresh a e = rw (e, to_ndarray) refl

to_ndarray-IsMono :
    (md : Media) (fresh : ℕ → List ℕ) (s : Sys md)
    → ((n : ℕ) → length (fresh n) ≡ n)
    → Balanced 1 s.audio
    → Ensures (λ output. IsMono md (output, s)) (to_ndarray fresh s.audio)
to_ndarray-IsMono md fresh s sized b = elim b.rows [
  | inl (empty, zero_samples) ↦
      rw (no_array fresh s.audio empty) (inl (refl, empty, b.counted ∙ ap pos zero_samples))
  | inr (one, all) ↦
      let (out, e, size) = one_row b.samples s.audio.output_vector one all in
      elim b.channels [
        | inl empty ↦ absurd (omega (arith, ap length empty))
        | inr number ↦
            rw (to_ndarray_mono fresh s.audio out sized e number)
              (inr (out, e, b.counted ∙ ap pos (sym size), refl))
      ]
]

module _ (md : Media) (flushes frames packets : ℕ) (ends : Ends md flushes frames packets) where
  mixed_down : Uniform md true 1
  unfolding out_channels
  mixed_down s f e = refl

  decode-Balanced :
      (io : IoType) (fn : List ℕ) (rate : ℤ)
      → Ensures (λ s. Balanced 1 s.audio) (decode md flushes frames packets io fn rate true)
  unfolding decode select_stream
  decode-Balanced io fn rate =
      Ensures->>= (λ _. Unit {0}) (λ s. Balanced 1 s.audio) (open_input md io fn) _
        (open_input-ends md io fn)
        (λ media _.
          Ensures-or_fatal (λ s. Balanced 1 s.audio) (find_audio 0 (md.streams media)) _
            (λ found _.
              Ensures-or_fatal (λ s. Balanced 1 s.audio) (md.open_codec media found.0) _
                (λ opened _.
                  decode_packet-Balanced md flushes frames packets 1 true ends (omega arith)
                    mixed_down
                    (record {
                      audio = select_stream (new_audio rate true) found.0 found.1;
                      media = opened;
                    })
                    refl refl refl)))

  -- On a file that ends, opened in any way with `mono`, the constructor ends, or throws. Then there
  -- is no array and no sample was converted, or there is one channel of exactly as many samples as
  -- the resampler reported, and the array is the bytes of these samples in order.
  pub new_audio_reader-IsMono :
      (fresh : ℕ → List ℕ) (io : IoType) (fn : List ℕ) (rate : ℤ)
      → ((n : ℕ) → length (fresh n) ≡ n)
      → Ensures (IsMono md) (new_audio_reader md fresh flushes frames packets io fn rate true)
  unfolding new_audio_reader
  new_audio_reader-IsMono fresh io fn rate sized =
      Ensures->>= (λ s. Balanced 1 s.audio) (IsMono md)
        (decode md flushes frames packets io fn rate true) _ (decode-Balanced io fn rate)
        (λ s b. Ensures->> (IsMono md) (not (s.audio.original_sample_rate ==ℤ pos 0)) _ (λ _.
          Ensures->>= (λ output. IsMono md (output, s)) (IsMono md) (to_ndarray fresh s.audio) _
            (to_ndarray-IsMono md fresh s sized b) (λ output h. h)))
