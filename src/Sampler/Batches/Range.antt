-- ===== src/Sampler/Batches/Range.antt =====
-- The checks of a file's range, and what becomes of a negative end.
use peli.Base.{◌≡◌, ◌⊎◌, List, ◌∷◌, ok, fatal, arith, ℤ, pos, ◌≤ℤ◌, ◌<ℤ◌, -ℤ_parts}
use peli.Sampler.Batches.{resolve_end, check_range}

-- The range from `begin` to `end` of a file of `len` frames passes the checks.
abbrev pub IsRange : ℤ → ℤ → ℤ → Type 0
IsRange len begin end = (pos 0 ≤ℤ end) × (begin <ℤ end) × (end <ℤ len)

abbrev pub AreRanges : List ℤ → List ℤ → Type 0
AreRanges (len ∷ lens) (begin ∷ end ∷ range) =
    IsRange len begin (resolve_end len end) × AreRanges lens range
AreRanges _ _ = Unit

abbrev pub CheckResult : ℤ → ℤ → ℤ → Type 0
CheckResult len begin end =
    ((check_range len begin end ≡ ok tt) × IsRange len begin end)
    ⊎ ((check_range len begin end ≡ fatal) × ¬ IsRange len begin end)

pub check_range_lem : (len begin end : ℤ) → CheckResult len begin end
unfolding check_range
check_range_lem len begin end = ground arith

-- A negative end never passes the checks, whatever the length and the begin: it is resolved to a
-- frame past the file's last.
pub check_range_negative :
    (len begin end : ℤ) → end <ℤ pos 0 → check_range len begin (resolve_end len end) ≡ fatal
unfolding check_range resolve_end
check_range_negative len begin end h = ground (arith, -ℤ_parts len end)
