-- ===== src/Avio.antt =====
-- `AVIOBytesContext` (src/video/ffmpeg/ffmpeg_common.h): FFmpeg's reads and seeks on a file that is
-- held in memory, which the video and the audio reader open for raw bytes.
mod Reads
mod Tests
use peli.Base.{
  ℕ, ◌+◌, ◌-◌, ◌%◌, ◌^◌, Bool, Option, none, some, List, [], Outcome, ok, fatal, if◌then◌else◌, ltb,
  leb, ◌==◌, ◌&&◌, length, take, drop, ℤ, pos, negsuc, pos_part, neg_part, leb_ℤ, ◌+ℤ◌,
}

-- `struct AVIOBufferData`. `ptr` counts from `ori_ptr`, and `file` is what `ori_ptr` points to.
pub record Buffer : Type 0 where
  pub ptr : ℤ
  pub size : ℕ
  pub file_size : ℕ
  pub file : List ℕ

-- `a - b` of a `size_t` and an `int64_t`.
unfoldable pub size_sub : ℕ → ℤ → ℕ
size_sub a b = (a + neg_part b + 2 ^ 64 - pos_part b % 2 ^ 64) % 2 ^ 64

-- The constructor on the bytes of `data`, with the buffer and the context that FFmpeg allocates.
unfoldable pub open_bytes : List ℕ → Buffer
open_bytes bytes = record {
  ptr = pos 0;
  size = length bytes;
  file_size = length bytes;
  file = bytes;
}

-- `FFMIN(m, n)`.
unfoldable pub ffmin : ℕ → ℕ → ℕ
ffmin m n = if ltb n m then n else m

-- `memcpy` of `n` bytes from `ptr`, which is undefined outside the file: `fatal` here.
unfoldable pub copy_out : Buffer → ℕ → Outcome (List ℕ)
copy_out b n =
    if leb_ℤ (pos 0) b.ptr && leb (pos_part b.ptr + n) (length b.file)
    then ok (take n (drop (pos_part b.ptr) b.file))
    else fatal

-- `read`: `none` is `AVERROR_EOF`, and otherwise the bytes that it leaves in `buf`.
unfoldable pub read : Buffer → ℕ → Outcome (Option (List ℕ) × Buffer)
read b buf_size =
    let n = ffmin buf_size b.size in
    if n == 0 then ok (none, b) else elim (copy_out b n) [
      | ok bytes ↦ ok (some bytes, record b { ptr = b.ptr +ℤ pos n; size = b.size - n })
      | _ ↦ fatal
    ]

pub data Whence : Type 0 where
  avseek_size : Whence
  seek_set : Whence
  other : Whence

-- `seek`; -1 is `negsuc 0`.
unfoldable pub seek : Buffer → ℤ → Whence → ℤ × Buffer
seek b offset avseek_size = (pos b.file_size, b)
seek b offset seek_set = (offset, record b { ptr = offset; size = size_sub b.file_size offset })
seek b offset other = (negsuc 0, b)
