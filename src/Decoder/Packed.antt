-- ===== src/Decoder/Packed.antt =====
-- The array of a picture: with and without the copy.
use Prim.Native.Nat.{◌/◌}
use peli.Base.{
  ℕ, zero, suc, ◌+◌, ◌-◌, ◌*◌, ◌%◌, ◌≡◌, ◌≢◌, ◌≤◌, ◌<◌, ◌⊎◌, inl, inr, refl, sym, ap, ◌∙◌, true,
  false, List, [], ◌∷◌, ◌++◌, ok, fatal, arith, leb, ◌==◌, if◌then◌else◌, length, take, drop,
  take_add, drop_add, length-drop,
}
use peli.Decoder.Picture.{
  Picture, channels, bytes_at, copy_lines, image_frame, copy_to_ndarray, to_dl_tensor, as_ndarray,
}

mul_div : (w c : ℕ) → 0 < w → (w * c) / w ≡ c
mul_div w c h = grind arith

mul_mod : (w c : ℕ) → 0 < w → (w * c) % w ≡ 0
mul_mod w c h = grind arith

bytes_at_lem :
    (bytes : List ℕ) (at n : ℕ)
    → at + n ≤ length bytes
    → bytes_at bytes at n ≡ ok (take n (drop at bytes))
unfolding bytes_at
bytes_at_lem bytes at n h = let fits : leb (at + n) (length bytes) ≡ true = ground arith in rw fits

-- Lines with nothing between them are copied as one block.
copy_lines-compact :
    (bytes : List ℕ) (n i k m : ℕ)
    → m ≡ k * n
    → i * n + m ≤ length bytes
    → copy_lines bytes n n i k ≡ ok (take m (drop (i * n) bytes))
unfolding copy_lines
copy_lines-compact bytes n i zero m e h =
    ap (λ j. ok (take j (drop (i * n) bytes))) (let z : 0 ≡ m = omega arith in z)
copy_lines-compact bytes n i (suc k) m e h =
    let rest = drop (i * n) bytes in
    let next : (i + 1) * n ≡ i * n + n = grind arith in
    let size : m ≡ n + k * n = grind arith in
    let left = length-drop bytes (i * n) (length bytes - i * n) (omega arith) in
    let tail = copy_lines-compact bytes n (i + 1) k (k * n) refl (omega arith) in
    let front = bytes_at_lem bytes (i * n) n (omega arith) in
    let split = take_add n (k * n) m rest (omega arith) size in
    rw (front, tail)
      (ap (λ l. ok l)
        (ap (λ l. take n rest ++ l)
            (ap (λ l. take (k * n) l)
              (ap (λ j. drop j bytes) next ∙ sym (drop_add (i * n) n bytes)))
          ∙ sym split))

-- The two ways on packed lines.
block_eq_copy :
    (p : Picture) (c : ℕ)
    → 0 < p.width
    → channels p.format ≡ ok c
    → p.height * p.line_size ≤ length p.bytes
    → p.line_size ≡ p.width * c
    → (p.line_size % p.width == 0) ≡ true
    → to_dl_tensor p ≡ copy_to_ndarray p
unfolding to_dl_tensor copy_to_ndarray
block_eq_copy p c h format room packed block =
    let per : p.line_size / p.width ≡ c = ap (λ l. l / p.width) packed ∙ mul_div p.width c h in
    let m = p.height * p.width * c in
    let total : m ≡ p.height * (p.width * c) = grind arith in
    let same : p.height * p.line_size ≡ p.height * (p.width * c) = ap (λ l. p.height * l) packed in
    let front = bytes_at_lem p.bytes 0 m (omega arith) in
    let lines : copy_lines p.bytes p.line_size (p.width * c) 0 p.height ≡ ok (take m p.bytes) =
      ap (λ l. copy_lines p.bytes l (p.width * c) 0 p.height) packed
      ∙ copy_lines-compact p.bytes (p.width * c) 0 p.height m total (omega arith)
      ∙ ap (λ j. ok (take m (drop j p.bytes))) (let z : 0 * (p.width * c) ≡ 0 = omega arith in z) in
    rw (format, block, per, front, lines) refl

-- For a picture of width at least 1 with all its lines in memory, whose lines are either packed or
-- not a whole number of `width` bytes apart, the array that shares the picture's memory has the
-- shape, the time and the bytes of the array that is copied line by line, and fails where it fails.
pub as_ndarray-eq-copy :
    (p : Picture) (c : ℕ)
    → 0 < p.width
    → channels p.format ≡ ok c
    → p.height * p.line_size ≤ length p.bytes
    → (p.line_size ≡ p.width * c) ⊎ (p.line_size % p.width ≢ 0)
    → as_ndarray p ≡ copy_to_ndarray p
unfolding as_ndarray
as_ndarray-eq-copy p c h format room (inr apart) =
    let some_width : (p.width == 0) ≡ false = ground arith in
    let no_block : (p.line_size % p.width == 0) ≡ false = ground arith in
    ap
      (λ b.
        if b
        then fatal
        else if p.line_size % p.width == 0
        then to_dl_tensor p
        else copy_to_ndarray p)
      some_width
    ∙ ap (λ b. if b then to_dl_tensor p else copy_to_ndarray p) no_block
as_ndarray-eq-copy p c h format room (inl packed) =
    let some_width : (p.width == 0) ≡ false = ground arith in
    let whole : p.line_size % p.width ≡ 0 = ap (λ l. l % p.width) packed ∙ mul_mod p.width c h in
    let block : (p.line_size % p.width == 0) ≡ true = ground arith in
    ap
      (λ b.
        if b
        then fatal
        else if p.line_size % p.width == 0
        then to_dl_tensor p
        else copy_to_ndarray p)
      some_width
    ∙ ap (λ b. if b then to_dl_tensor p else copy_to_ndarray p) block
    ∙ block_eq_copy p c h format room packed block

-- A picture whose lines are `m` bytes of each pixel apart, padding included, is taken for one of
-- `m` channels: where `m` is not the format's number of channels, the array has another shape, with
-- the padding in it, and is not refused.
pub as_ndarray_padded :
    (p : Picture) (c m : ℕ)
    → 0 < p.width
    → channels p.format ≡ ok c
    → p.on_device ≡ false
    → p.line_size ≡ p.width * m
    → p.height * p.line_size ≤ length p.bytes
    → as_ndarray p
      ≡ ok (record {
        shape = p.height ∷ p.width ∷ m ∷ [];
        frame = image_frame p.pts (p.height * p.width * m) (take (p.height * p.width * m) p.bytes);
      })
unfolding as_ndarray to_dl_tensor
as_ndarray_padded p c m h format here padded room =
    let some_width : (p.width == 0) ≡ false = ground arith in
    let whole : p.line_size % p.width ≡ 0 = ap (λ l. l % p.width) padded ∙ mul_mod p.width m h in
    let block : (p.line_size % p.width == 0) ≡ true = ground arith in
    let per : p.line_size / p.width ≡ m = ap (λ l. l / p.width) padded ∙ mul_div p.width m h in
    let total : p.height * p.width * m ≡ p.height * (p.width * m) = grind arith in
    let same : p.height * p.line_size ≡ p.height * (p.width * m) = ap (λ l. p.height * l) padded in
    let front = bytes_at_lem p.bytes 0 (p.height * p.width * m) (omega arith) in
    rw (some_width, block, format, here, per, front) refl
