-- ===== src/Avio/Tests.antt =====
-- Reads of a file of five bytes.
use peli.Base.{ℕ, ◌≡◌, refl, none, some, List, [], ◌∷◌, ok, fatal, arith, pos, ◌+ℤ◌}
use peli.Avio.{Buffer, size_sub, open_bytes, ffmin, copy_out, read, seek_set, avseek_size, seek}
use peli.Avio.Reads.{reads, Received, reads_after_seek, seek_past_end}

abbrev five : List ℕ
five = 10 ∷ 11 ∷ 12 ∷ 13 ∷ 14 ∷ []

abbrev opened : Buffer
opened = record { ptr = pos 0; size = 5; file_size = 5; file = five }

open_five : open_bytes five ≡ opened
unfolding open_bytes
open_five = refl

size_five : (seek opened (pos 3) avseek_size).0 ≡ pos 5
unfolding seek
size_five = refl

two_reads :
    reads (seek opened (pos 2) seek_set).1 (2 ∷ 4 ∷ 4 ∷ [])
    ≡ ok (
      some (12 ∷ 13 ∷ []) ∷ some (14 ∷ []) ∷ none ∷ [],
      record { ptr = pos 5; size = 0; file_size = 5; file = five },
    )
unfolding reads read copy_out ffmin seek size_sub ◌+ℤ◌
two_reads = refl

reads_after_seek_example :
    ((seek opened (pos 2) seek_set).0 ≡ pos 2)
    × Received five 2 10 (reads (seek opened (pos 2) seek_set).1 (2 ∷ 4 ∷ 4 ∷ []))
reads_after_seek_example =
    reads_after_seek five opened 2 (2 ∷ 4 ∷ 4 ∷ []) (omega arith) refl refl (omega arith)

seek_past_end_example :
    ((seek opened (pos 9) seek_set).0 ≡ pos 9) × (read (seek opened (pos 9) seek_set).1 4 ≡ fatal)
seek_past_end_example =
    seek_past_end opened 9 4 refl (omega arith) (omega arith) (omega arith) (omega arith)
