-- ===== src/Nvdec/Setup.antt =====
-- What `Initialize` makes of a first format and of a later one.
use Prim.Native.Nat.{◌/◌}
use peli.Base.{
  ℕ, ◌*◌, ◌%◌, ◌^◌, ◌≡◌, ◌≤◌, ◌⊎◌, inl, inr, sym, ap, ◌∙◌, Bool, true, false, Bool-cases, Option,
  none, some, ok, ◌>>=◌, >>=-eq-ok, arith, if◌then◌else◌,
}
use peli.Nvdec.Format.{
  Format, Caps, Driver, Hardware, check_caps, check_known, info_of, same_format, created,
  initialize,
}

-- What the device can do with a format; the number of macroblocks is counted in 32 bits.
pub record Fits (f : Format) (caps : Caps) : Type 0 where
  pub supported : caps.is_supported ≡ true
  pub wide_enough : caps.min_width ≤ f.coded_width
  pub high_enough : caps.min_height ≤ f.coded_height
  pub not_too_wide : f.coded_width ≤ caps.max_width
  pub not_too_high : f.coded_height ≤ caps.max_height
  pub blocks : f.coded_width * f.coded_height % 2 ^ 32 / 256 ≤ caps.max_mb_count

check_caps-Fits : (f : Format) (caps : Caps) → check_caps f caps ≡ ok tt → Fits f caps
unfolding check_caps
check_caps-Fits f caps e = record {
  supported = ground arith;
  wide_enough = ground arith;
  high_enough = ground arith;
  not_too_wide = ground arith;
  not_too_high = ground arith;
  blocks = ground arith;
}

Fits-check_caps : (f : Format) (caps : Caps) → Fits f caps → check_caps f caps ≡ ok tt
unfolding check_caps
Fits-check_caps f caps h = ground arith

-- Two formats that one decoder serves.
abbrev pub Agrees : Format → Format → Type 0
Agrees g f =
    (g.codec ≡ f.codec)
    × (g.coded_width ≡ f.coded_width)
    × (g.coded_height ≡ f.coded_height)
    × (g.chroma_format ≡ f.chroma_format)

same_format_cases :
    (g f : Format)
    → (Agrees g f × (same_format g (info_of f) ≡ true))
      ⊎ ((Agrees g f → ⊥) × (same_format g (info_of f) ≡ false))
unfolding same_format info_of
same_format_cases g f = elim (Bool-cases (same_format g (info_of f))) [
  | inl e ↦ inl (ground arith, e)
  | inr e ↦ inr (λ a. absurd (ground arith), e)
]

module _ (dr : Driver) where
  module _ (f : Format) where
    first :
        (h : Hardware) (s : dr.State)
        → h.initialized ≡ false
        → initialize dr f h s
          ≡ (check_known f (dr.get_caps s f) >>= λ checked. created dr f (dr.create s (info_of f)))
    unfolding initialize
    first h s new = ground (arith, new)

    created_lem :
        (o : Option (ℕ × dr.State)) {r : ℕ} {h' : Hardware} {t : dr.State}
        → created dr f o ≡ ok (r, h', t)
        → (r ≡ 1) × (h'.initialized ≡ true) × (h'.info ≡ info_of f)
    unfolding created
    created_lem none e = absurd (cc)
    created_lem (some (handle, s)) e = (ground arith, ground arith, ground arith)

    later_call :
        (h' : Hardware) (g : Format) (u : dr.State) {b : Bool}
        → h'.initialized ≡ true
        → h'.info ≡ info_of f
        → same_format g (info_of f) ≡ b
        → initialize dr g h' u ≡ ok (if b then 1 else 0, h', u)
    unfolding initialize
    later_call h' g u on info same = ground (arith, on, ap (same_format g) info, same)

  -- `Initialize` of a decoder that is not set up, where it returns: it returns 1, and if the device
  -- says what it can do, it supports the format, both coded sizes are within its bounds, and their
  -- product modulo 2^32, divided by 256, is within its number of macroblocks; and the decoder is set
  -- up for the format. From then on it changes nothing: it returns 1 for a format of the same codec,
  -- coded size and chroma format, and 0 for any other.
  pub initialize_lem :
      (f : Format) (h h' : Hardware) (s t : dr.State) (r : ℕ)
      → h.initialized ≡ false
      → initialize dr f h s ≡ ok (r, h', t)
      → (r ≡ 1)
        × ((caps : Caps) → dr.get_caps s f ≡ some caps → Fits f caps)
        × (h'.info ≡ info_of f)
        × ((g : Format) (u : dr.State)
            → (Agrees g f × (initialize dr g h' u ≡ ok (1, h', u)))
              ⊎ ((Agrees g f → ⊥) × (initialize dr g h' u ≡ ok (0, h', u))))
  unfolding check_known
  initialize_lem f h h' s t r new e =
      let (u, checked, made) =
        >>=-eq-ok (check_known f (dr.get_caps s f))
          (λ checked. created dr f (dr.create s (info_of f))) (sym (first f h s new) ∙ e) in
      let (one, on, info) = created_lem f (dr.create s (info_of f)) made in
      (
        one,
        λ caps known. check_caps-Fits f caps (sym (ap (check_known f) known) ∙ checked),
        info,
        λ g v. elim (same_format_cases g f) [
          | inl (agrees, same) ↦ inl (agrees, later_call f h' g v on info same)
          | inr (differs, other) ↦ inr (differs, later_call f h' g v on info other)
        ],
      )
