-- ===== src/Reader/Keyframes.antt =====
-- `GetFrameCount`, `FrameToPTS`, `FramesToPTS` and `LocateKeyframe`.
pub mod Locate
use peli.Base.{
  ℕ, zero, suc, ◌+◌, ◌-◌, ◌≡◌, Bool, true, false, ◌&&◌, Option, none, some, List, [], ◌∷◌, Outcome,
  ok, fatal, ◌>>=◌, ◌>>◌, check, or_fatal, if◌then◌else◌, ltb, length, get_elem?, ℤ, pos, negsuc,
  pos_part, neg_part, ltb_ℤ, leb_ℤ,
}
use peli.Reader.State.{Reader, FrameTime}

-- `v[i]` of a vector, where an index out of range is undefined.
unfoldable pub index {ℓ} : {A : Type ℓ} → List A → ℤ → Outcome A
index xs (pos n) = or_fatal (get_elem? xs n)
index xs (negsuc n) = fatal

-- The count that the metadata gives where no frame was indexed.
unfoldable pub metadata_count : Reader → Outcome ℤ
metadata_count r = do
  check (leb_ℤ (pos 0) r.actv_stm_idx)
  check (leb_ℤ (pos 0) r.actv_stm_idx && ltb_ℤ r.actv_stm_idx (pos r.nb_streams))
  let count = if ltb_ℤ r.nb_frames (pos 1) then r.estimate else r.nb_frames
  if ltb_ℤ count (pos 1) then fatal else ok count

unfoldable pub frame_count : Reader → Outcome ℤ
frame_count r =
    if r.opened
    then (if ltb 0 (length r.frame_ts) then ok (pos (length r.frame_ts)) else metadata_count r)
    else ok (pos 0)

unfoldable pub frame_to_pts : Reader → ℤ → Outcome ℤ
frame_to_pts r p = do t ← index r.frame_ts p; ok t.pts

unfoldable pub frames_to_pts : Reader → List ℤ → Outcome (List ℤ)
frames_to_pts r [] = ok []
frames_to_pts r (p ∷ ps) = do t ← index r.frame_ts p; ts ← frames_to_pts r ps; ok (t.pts ∷ ts)

-- `std::upper_bound` on a sorted vector: the index of the first element above `p`.
unfoldable pub upper_bound : List ℤ → ℤ → ℕ
upper_bound [] p = 0
upper_bound (k ∷ ks) p = let rest = upper_bound ks p in if leb_ℤ k p then suc rest else 0

-- `v.back()` of a vector that is not empty.
unfoldable pub back_of : ℤ → List ℤ → ℤ
back_of k [] = k
back_of k (j ∷ ks) = back_of j ks

-- `*(std::upper_bound(...) - 1)`.
unfoldable pub at_bound : List ℤ → ℤ → Outcome ℤ
at_bound ks p = elim (upper_bound ks p) [ zero ↦ fatal | suc i ↦ or_fatal (get_elem? ks i) ]

unfoldable pub locate_among : Reader → List ℤ → ℤ → Outcome ℤ
locate_among r [] p = ok (pos 0)
locate_among r (k ∷ ks) p = if leb_ℤ p k then ok (pos 0) else (do
  count ← frame_count r
  if leb_ℤ count p then ok (back_of k ks) else at_bound (k ∷ ks) p)

unfoldable pub locate_keyframe : Reader → ℤ → Outcome ℤ
locate_keyframe r p = locate_among r r.key_indices p
