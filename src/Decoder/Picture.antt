-- ===== src/Decoder/Picture.antt =====
-- `AsNDArray` and `CopyToNDArray` (src/video/ffmpeg/threaded_decoder.cc), with `ToDLTensor`
-- (src/video/ffmpeg/ffmpeg_common.h): the array of a picture.
use Prim.Native.Nat.{◌/◌}
use peli.Base.{
  ℕ, zero, suc, ◌+◌, ◌*◌, ◌%◌, Bool, true, false, not, List, [], ◌∷◌, ◌++◌, Outcome, ok, fatal,
  ◌>>=◌, ◌>>◌, check, if◌then◌else◌, ◌==◌, leb, take, drop, length, ℤ,
}
use peli.Reader.State.{Frame}

pub data PixelFormat : Type 0 where
  rgb24 : PixelFormat
  gray8 : PixelFormat
  unsupported : PixelFormat

-- `AVFrame` of a picture: `line_size` is `linesize[0]` and `bytes` what `data[0]` points to.
pub record Picture : Type 0 where
  pub pts : ℤ
  pub width : ℕ
  pub height : ℕ
  pub line_size : ℕ
  pub format : PixelFormat
  pub on_device : Bool
  pub bytes : List ℕ

-- An array of bytes with its shape.
pub record Image : Type 0 where
  pub shape : List ℕ
  pub frame : Frame

-- The channels of the two formats that are taken.
unfoldable pub channels : PixelFormat → Outcome ℕ
channels rgb24 = ok 3
channels gray8 = ok 1
channels unsupported = fatal

-- `n` bytes from byte `at` on; outside the buffer a read is undefined, `fatal` here.
unfoldable pub bytes_at : List ℕ → ℕ → ℕ → Outcome (List ℕ)
bytes_at bytes at n = check (leb (at + n) (length bytes)) >> ok (take n (drop at bytes))

-- The copy line by line, from line `i` on, with `k` lines left.
unfoldable pub copy_lines : List ℕ → ℕ → ℕ → ℕ → ℕ → Outcome (List ℕ)
copy_lines bytes line_size n i zero = ok []
copy_lines bytes line_size n i (suc k) = do
  line ← bytes_at bytes (i * line_size) n
  rest ← copy_lines bytes line_size n (i + 1) k
  ok (line ++ rest)

abbrev pub image_frame : ℤ → ℕ → List ℕ → Frame
image_frame pts size pixels = record {
  defined = true;
  size = size;
  is_int64 = false;
  pts = pts;
  pixels = pixels;
}

-- `CopyToNDArray`.
unfoldable pub copy_to_ndarray : Picture → Outcome Image
copy_to_ndarray p = do
  c ← channels p.format
  check (not p.on_device)
  pixels ← copy_lines p.bytes p.line_size (p.width * c) 0 p.height
  ok (record {
    shape = p.height ∷ p.width ∷ c ∷ [];
    frame = image_frame p.pts (p.height * p.width * c) pixels;
  })

-- `ToDLTensor`, and the array that `FromDLPack` makes of it on the picture's own memory.
unfoldable pub to_dl_tensor : Picture → Outcome Image
to_dl_tensor p = do
  c ← channels p.format
  check (p.line_size % p.width == 0)
  check (not p.on_device)
  let n = p.line_size / p.width
  pixels ← bytes_at p.bytes 0 (p.height * p.width * n)
  ok (record {
    shape = p.height ∷ p.width ∷ n ∷ [];
    frame = image_frame p.pts (p.height * p.width * n) pixels;
  })

-- `AsNDArray`; a width of 0 is undefined.
unfoldable pub as_ndarray : Picture → Outcome Image
as_ndarray p =
    if p.width == 0
    then fatal
    else if p.line_size % p.width == 0
    then to_dl_tensor p
    else copy_to_ndarray p
