-- ===== src/Audio/Planar.antt =====
-- The array of `ToNDArray`, for one channel and for two.
use peli.Base.{
  ℕ, ◌+◌, ◌*◌, ◌≡◌, ◌≤◌, refl, ap, ◌∙◌, true, some, List, [], ◌∷◌, ◌++◌, ok, check_eq_of_eq, leb,
  length, length-append, take, drop, take_front_le, drop_front, drop_add, length-drop, get_elem?,
  drop_all, append_nil, arith,
}
use peli.Reader.Batch.{write}
use peli.Audio.State.{Audio}
use peli.Audio.Output.{sample_bytes, channel_bytes, store_channel, store_channels, to_ndarray}

length-channel_bytes : (out : List ℕ) → length (channel_bytes out) ≡ 4 * length out
unfolding channel_bytes sample_bytes
length-channel_bytes [] = refl
length-channel_bytes (v ∷ vs) =
    omega (arith, length-append (sample_bytes v) (channel_bytes vs), length-channel_bytes vs)

write_start :
    (buf bytes : List ℕ) (o : ℕ) → o ≡ 0 → write buf o bytes ≡ bytes ++ drop (length bytes) buf
unfolding write
write_start buf bytes o e =
    ap (λ p. take p buf ++ (bytes ++ drop (p + length bytes) buf)) e
    ∙ ap (λ q. bytes ++ drop q buf) (let z : 0 + length bytes ≡ length bytes = omega arith in z)

-- A write that starts inside what is written at the front and goes past it by `d` bytes.
write_overlap :
    (front rest bytes : List ℕ) (o d : ℕ)
    → o ≤ length front
    → o + length bytes ≡ length front + d
    → write (front ++ rest) o bytes ≡ take o front ++ (bytes ++ drop d rest)
unfolding write
write_overlap front rest bytes o d h e =
    ap (λ l. l ++ (bytes ++ drop (o + length bytes) (front ++ rest))) (take_front_le o front rest h)
    ∙ ap (λ l. take o front ++ (bytes ++ l)) (drop_front front rest d (o + length bytes) e)

-- One round of the loop, where the channel has its length and the buffer is long enough.
store_channel_lem :
    (outs : List (List ℕ)) (n c : ℕ) (buf out : List ℕ)
    → get_elem? outs c ≡ some out
    → length out ≡ n
    → 4 * n + c * n ≤ length buf
    → store_channel outs n c buf ≡ ok (write buf (c * n) (channel_bytes out))
unfolding store_channel
store_channel_lem outs n c buf out at size room =
    let fits : leb (4 * n + c * n) (length buf) ≡ true = ground arith in
    rw (at, check_eq_of_eq (length out) n size, fits)

-- With one channel the array is the bytes of its samples.
pub to_ndarray_mono :
    (fresh : ℕ → List ℕ) (a : Audio) (out : List ℕ)
    → ((n : ℕ) → length (fresh n) ≡ n)
    → a.output_vector ≡ out ∷ []
    → a.num_channels ≡ 1
    → to_ndarray fresh a ≡ ok (some (channel_bytes out))
unfolding to_ndarray store_channels
to_ndarray_mono fresh a out sized rows one =
    let n = length out in
    let buf = fresh (1 * n * 4) in
    let bytes = length-channel_bytes out in
    rw
      (
        rows,
        one,
        store_channel_lem (out ∷ []) n 0 buf out refl refl (omega (arith, sized (1 * n * 4))),
      )
      (ap (λ l. ok (some l))
        (write_start buf (channel_bytes out) (0 * n) (omega arith)
          ∙ ap (λ l. channel_bytes out ++ l)
              (drop_all buf (length (channel_bytes out)) (omega (arith, sized (1 * n * 4))))
          ∙ append_nil (channel_bytes out)))

-- With two channels of `n` samples, the second is written from byte `n` on and not from byte `4 * n`:
-- of the first only `n` bytes are left, and the last `3 * n` bytes are never written.
pub to_ndarray_overlap :
    (fresh : ℕ → List ℕ) (a : Audio) (left right : List ℕ)
    → ((n : ℕ) → length (fresh n) ≡ n)
    → a.output_vector ≡ left ∷ right ∷ []
    → length right ≡ length left
    → a.num_channels ≡ 2
    → to_ndarray fresh a
      ≡ ok (
          some (
            take (length left) (channel_bytes left)
            ++ (channel_bytes right ++ drop (5 * length left) (fresh (2 * length left * 4)))))
unfolding to_ndarray store_channels
to_ndarray_overlap fresh a left right sized rows same two =
    let n = length left in
    let buf = fresh (2 * n * 4) in
    let outs : List (List ℕ) = left ∷ right ∷ [] in
    let size_left = length-channel_bytes left in
    let size_right = length-channel_bytes right in
    let first = write_start buf (channel_bytes left) (0 * n) (omega arith) in
    let rest = drop (length (channel_bytes left)) buf in
    let after = channel_bytes left ++ rest in
    let rest_size =
      length-drop buf (length (channel_bytes left)) (4 * n) (omega (arith, sized (2 * n * 4))) in
    rw
      (
        rows,
        two,
        store_channel_lem outs n 0 buf left refl refl (omega (arith, sized (2 * n * 4))),
        first,
      )
      (rw
        (store_channel_lem outs n (0 + 1) after right refl same
          (omega (arith, length-append (channel_bytes left) rest)))
        (ap (λ l. ok (some l))
          (write_overlap (channel_bytes left) rest (channel_bytes right) ((0 + 1) * n) n
              (omega arith) (omega arith)
            ∙ ap (λ o. take o (channel_bytes left) ++ (channel_bytes right ++ drop n rest))
                (let e : (0 + 1) * n ≡ n = omega arith in e)
            ∙ ap (λ l. take n (channel_bytes left) ++ (channel_bytes right ++ l))
                (drop_add (length (channel_bytes left)) n buf
                  ∙ ap (λ m. drop m buf)
                      (let e : length (channel_bytes left) + n ≡ 5 * n = omega arith in e)))))
