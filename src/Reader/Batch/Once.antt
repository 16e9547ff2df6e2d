-- ===== src/Reader/Batch/Once.antt =====
-- `GetBatch` against a description without a buffer: the frames in order, where a position that
-- came before takes the bytes that it had.
use peli.Base.{
  ℕ, suc, ◌+◌, ◌-◌, ◌*◌, ◌/◌, ◌≡◌, ◌<◌, refl, sym, ap, ◌∙◌, Bool, true, false, ◌&&◌, not, Option,
  none, some, List, [], ◌∷◌, ◌++◌, inl, inr, arith, Outcome, ok, ◌>>=◌, ◌>>◌, check, >>-eq-ok,
  >>=-eq-ok, ltb, leb, ◌==◌, length, drop, get_elem?, ℤ, All, All-append, All-get, append_nil,
  length-append, length-drop, length-replicate, replicate,
}
use peli.Reader.State.{Frame, Backend, Limits, Sys}
use peli.Reader.Keyframes.{frame_count}
use peli.Reader.Decode.{find_key}
use peli.Reader.Batch.{
  first_places, write, element_size, store_frame, copy_frame, load_frame, batch_loop, get_batch,
}
use peli.Reader.Batch.Places.{first_from, first_places_lem, first_from_cases, keys, keys_snoc}
use native.Mathlib.Nat.{mul-div_cancel_left}
use peli.Reader.Batch.Buffer.{flat, HasSize, length-flat, flat-append, write-front, view-flat}

-- A frame that a place of `n` bytes takes.
abbrev pub fits : ℕ → Frame → Bool
fits n f = f.defined && (not f.is_int64 && length f.pixels == n)

module _ (be : Backend) (limits : Limits) (feed fuel n : ℕ) (count : ℤ) where
  -- The places after `slots`, each with its bytes.
  unfoldable pub frames_of :
      List (ℤ × List ℕ) → List ℤ → Sys be → Outcome (List (ℤ × List ℕ) × Sys be)
  frames_of slots [] s = ok (slots, s)
  frames_of slots (p ∷ ps) s =
      let again : List ℕ → Sys be → Outcome (List (ℤ × List ℕ) × Sys be) =
        λ bytes t. frames_of (slots ++ ((p, bytes) ∷ [])) ps t in
      let fresh : Outcome (List (ℤ × List ℕ) × Sys be) = (do
        (f, t) ← load_frame be limits feed fuel count s p
        check (fits n f)
        again f.pixels t) in
      elim (find_key p slots) [ none ↦ fresh | some bytes ↦ again bytes s ]

  pub write-flat :
      (slots : List (ℤ × List ℕ)) (rest bytes : List ℕ)
      → All (HasSize n) slots
      → length bytes ≡ n
      → write (flat slots ++ rest) (length slots * n) bytes ≡ (flat slots ++ bytes) ++ drop n rest
  write-flat slots rest bytes hs h =
      ap (λ o. write (flat slots ++ rest) o bytes) (sym (length-flat n slots hs))
      ∙ write-front (flat slots) rest bytes
      ∙ ap (λ m. (flat slots ++ bytes) ++ drop m rest) h

  pub fits_inv :
      (f : Frame)
      → check (fits n f) ≡ ok tt
      → (f.defined ≡ true) × (f.is_int64 ≡ false) × (length f.pixels ≡ n)
  fits_inv f h = ground arith

  pub store_frame-fits :
      (slots : List (ℤ × List ℕ)) (rest : List ℕ) (k : ℕ) (f : Frame)
      → All (HasSize n) slots
      → length rest ≡ suc k * n
      → check (fits n f) ≡ ok tt
      → store_frame n (flat slots ++ rest) (length slots * n) f
        ≡ ok ((flat slots ++ f.pixels) ++ drop n rest, suc (length slots) * n)
  unfolding store_frame element_size
  store_frame-fits slots rest k f hs hr hf =
      let (d, e, l) = fits_inv f hf in
      let room : leb (n * 1 + length slots * n) (length (flat slots ++ rest)) ≡ true =
        ground (arith, length-append (flat slots) rest, length-flat n slots hs) in
      let size : (length f.pixels == n * 1) ≡ true = ground arith in
      let one : n * 1 ≡ n = omega arith in
      rw (d, e, room, size, write-flat slots rest f.pixels hs l)
        (ap (λ o. ok ((flat slots ++ f.pixels) ++ drop n rest, o)) (omega arith))

  pub copy_frame-slot :
      (slots : List (ℤ × List ℕ)) (rest : List ℕ) (k j : ℕ) (q : ℤ) (bytes : List ℕ)
      → All (HasSize n) slots
      → length rest ≡ suc k * n
      → j < length slots
      → get_elem? slots j ≡ some (q, bytes)
      → copy_frame n (flat slots ++ rest) (length slots * n) (length slots) j
        ≡ ok ((flat slots ++ bytes) ++ drop n rest, suc (length slots) * n)
  unfolding copy_frame
  copy_frame-slot slots rest k j q bytes hs hr lt hj =
      let old : length slots * n / length slots * j ≡ j * n =
        ap (λ m. m * j) (mul-div_cancel_left n (omega arith)) ∙ omega arith in
      let d = length slots - suc j in
      let count : length slots ≡ suc j + d = omega arith in
      let split : length slots * n ≡ suc j * n + d * n = ap (λ m. m * n) count ∙ omega arith in
      let size : length (flat slots ++ rest) ≡ length slots * n + suc k * n =
        omega (arith, length-append (flat slots) rest, length-flat n slots hs) in
      let before : ltb j (length slots) ≡ true = ground arith in
      let later : ltb 0 (length slots) ≡ true = ground arith in
      let from : leb (n + j * n) (length (flat slots ++ rest)) ≡ true = ground arith in
      let to : leb (n + length slots * n) (length (flat slots ++ rest)) ≡ true = ground arith in
      let seen = view-flat n slots rest j q bytes hs hj in
      let bytes_size : length bytes ≡ n = All-get (HasSize n) slots j hs hj in
      rw (before, later, old, from, to, seen, write-flat slots rest bytes hs bytes_size)
        (ap (λ o. ok ((flat slots ++ bytes) ++ drop n rest, o)) (omega arith))

  -- What the loop needs of its arguments after the places `slots`, with `ps` to come.
  pub record IsAt (seen : List (ℤ × ℕ)) (slots : List (ℤ × List ℕ)) (ps : List ℤ) (i : ℕ)
      (buf : List ℕ) (offset : ℕ) (rest : List ℕ) : Type 0 where
    pub sizes : All (HasSize n) slots
    pub place : i ≡ length slots
    pub at_offset : offset ≡ length slots * n
    pub filled : buf ≡ flat slots ++ rest
    pub room : length rest ≡ length ps * n
    pub firsts : (q : ℤ) → find_key q seen ≡ first_from 0 q (keys slots ++ ps)

  pub IsAt-next :
      (seen : List (ℤ × ℕ)) (slots : List (ℤ × List ℕ)) (p : ℤ) (ps : List ℤ) (rest : List ℕ)
      (bytes : List ℕ)
      → All (HasSize n) slots
      → length rest ≡ suc (length ps) * n
      → ((q : ℤ) → find_key q seen ≡ first_from 0 q (keys slots ++ (p ∷ ps)))
      → length bytes ≡ n
      → IsAt seen
          (slots ++ ((p, bytes) ∷ []))
          ps
          (suc (length slots))
          ((flat slots ++ bytes) ++ drop n rest)
          (suc (length slots) * n)
          (drop n rest)
  IsAt-next seen slots p ps rest bytes hs hr hf hb =
      let count : length (slots ++ ((p, bytes) ∷ [])) ≡ suc (length slots) =
        omega (arith, length-append slots ((p, bytes) ∷ [])) in
      record {
        sizes = All-append (HasSize n) slots ((p, bytes) ∷ []) hs (hb, tt);
        place = sym count;
        at_offset = ap (λ m. m * n) (sym count);
        filled = ap (λ l. l ++ drop n rest) (sym (flat-append slots p bytes));
        room = length-drop rest n (length ps * n) (omega arith);
        firsts = λ q. hf q ∙ ap (λ l. first_from 0 q l) (sym (keys_snoc slots p bytes ps));
      }

  pub IsAt-start :
      (ps : List ℤ) (buf : List ℕ)
      → length buf ≡ length ps * n
      → IsAt (first_places 0 ps []) [] ps 0 buf 0 buf
  unfolding first_from find_key
  IsAt-start ps buf h = record {
    sizes = tt;
    place = refl;
    at_offset = omega arith;
    filled = refl;
    room = h;
    firsts = λ q. first_places_lem q 0 ps [];
  }

  pub batch_loop_lem :
      (seen : List (ℤ × ℕ)) (ps : List ℤ) (slots : List (ℤ × List ℕ)) (i : ℕ) (buf : List ℕ)
      (offset : ℕ) (rest : List ℕ) (s : Sys be) {out : List (ℤ × List ℕ)} {t : Sys be}
      → IsAt seen slots ps i buf offset rest
      → frames_of slots ps s ≡ ok (out, t)
      → batch_loop be limits feed fuel n count seen i ps buf offset s ≡ ok (flat out, t)
  unfolding batch_loop frames_of
  batch_loop_lem seen [] slots i buf offset [] s h e =
      let filled : buf ≡ flat slots = h.filled ∙ append_nil (flat slots) in cc
  batch_loop_lem seen [] slots i buf offset (x ∷ rest) s h e = absurd (omega (arith, h.room))
  batch_loop_lem seen (p ∷ ps) slots i buf offset rest s h e =
      elim (first_from_cases 0 p slots ps) [
        | inl (new, first) ↦
            let known : find_key p seen ≡ some (length slots) =
              h.firsts p ∙ first ∙ ap (λ k. some k) (omega arith) in
            let same : (length slots == length slots) ≡ true = ground arith in
            let ((f, u), loaded, checked) =
              >>=-eq-ok (load_frame be limits feed fuel count s p) _ (rw (new, frames_of) at e) in
            let (fit, later) = >>-eq-ok (check (fits n f)) _ checked in
            let next =
              IsAt-next seen slots p ps rest f.pixels h.sizes h.room h.firsts (fits_inv f fit).2 in
            rw (h.place, h.at_offset, h.filled)
              (rw
                (
                  batch_loop,
                  known,
                  same,
                  loaded,
                  store_frame-fits slots rest (length ps) f h.sizes h.room fit,
                )
                (batch_loop_lem seen ps _ _ _ _ (drop n rest) u next later))
        | inr (j, q, bytes, lt, old, first, at_j) ↦
            let known : find_key p seen ≡ some j =
              h.firsts p ∙ first ∙ ap (λ k. some k) (omega arith) in
            let other : (j == length slots) ≡ false = ground arith in
            let size : length bytes ≡ n = All-get (HasSize n) slots j h.sizes at_j in
            let next = IsAt-next seen slots p ps rest bytes h.sizes h.room h.firsts size in
            rw (h.place, h.at_offset, h.filled)
              (rw
                (
                  batch_loop,
                  known,
                  other,
                  copy_frame-slot slots rest (length ps) j q bytes h.sizes h.room lt at_j,
                )
                (batch_loop_lem seen ps _ _ _ _ (drop n rest) s next (rw (old, frames_of) at e)))
      ]

-- The buffer that a caller passes, if it passes one, holds as many frames as are asked for.
unfoldable pub HasRoom : ℕ → Option (List ℕ) → Type 0
HasRoom size none = Unit
HasRoom size (some buf) = length buf ≡ size

-- On a reader with a file whose frames are counted, and a buffer of the right size or none,
-- `GetBatch` fills the buffer with the frames of the positions in order, and leaves the reader as
-- the loads of the positions' first occurrences leave it, whenever each of those loads gives a
-- frame of the reader's size: a position that repeats is not decoded again and gets the bytes that
-- its first occurrence got.
pub get_batch_lem :
    (be : Backend) (limits : Limits) (feed fuel : ℕ) (s : Sys be) (indices : List ℤ)
    (buf : Option (List ℕ)) (count : ℤ) {out : List (ℤ × List ℕ)} {t : Sys be}
    → s.reader.opened ≡ true
    → frame_count s.reader ≡ ok count
    → HasRoom (length indices * s.reader.frame_size) buf
    → frames_of be limits feed fuel s.reader.frame_size count [] indices s ≡ ok (out, t)
    → get_batch be limits feed fuel s indices buf ≡ ok (some (flat out), t)
unfolding get_batch HasRoom
get_batch_lem be limits feed fuel s indices none count opened counted room e =
    let n = s.reader.frame_size in
    let filled =
      batch_loop_lem be limits feed fuel n count (first_places 0 indices []) indices [] 0
        (replicate (length indices * n) 0) 0 (replicate (length indices * n) 0) s
        (IsAt-start be limits feed fuel n count indices _ (length-replicate (length indices * n) 0))
        e in
    rw (counted, filled, opened) refl
get_batch_lem be limits feed fuel s indices (some buf) count opened counted room e =
    let n = s.reader.frame_size in
    let filled =
      batch_loop_lem be limits feed fuel n count (first_places 0 indices []) indices [] 0 buf 0 buf
        s (IsAt-start be limits feed fuel n count indices buf room) e in
    rw (counted, filled, opened) refl
