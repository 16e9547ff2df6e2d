-- ===== src/Nvdec/Format.antt =====
-- `CUVideoDecoderImpl` (src/video/nvcodec/cuda_decoder_impl.cc): the hardware decoder of a format.
-- Codecs are their numbers, of which 11 is `cudaVideoCodec_NumCodecs`.
use Prim.Native.Nat.{◌/◌}
use peli.Base.{
  ℕ, ◌+◌, ◌-◌, ◌*◌, ◌%◌, ◌^◌, Bool, true, false, not, ◌||◌, Option, none, some, List, [], ◌∷◌,
  Outcome, ok, fatal, ◌>>=◌, ◌>>◌, check, if◌then◌else◌, ◌==◌, ltb, leb, get_elem?, ℤ, pos_part,
  neg_part, ◌-ℤ◌,
}

-- `CUVIDEOFORMAT`, as far as it is read. The sizes are `unsigned int`, the area's edges `int`.
pub record Format : Type 0 where
  pub codec : ℕ
  pub chroma_format : ℕ
  pub bit_depth : ℕ
  pub coded_width : ℕ
  pub coded_height : ℕ
  pub left : ℤ
  pub top : ℤ
  pub right : ℤ
  pub bottom : ℤ

-- `CUVIDDECODECAPS` as `cuvidGetDecoderCaps` fills it.
pub record Caps : Type 0 where
  pub is_supported : Bool
  pub min_width : ℕ
  pub min_height : ℕ
  pub max_width : ℕ
  pub max_height : ℕ
  pub max_mb_count : ℕ

-- What is remembered of `CUVIDDECODECREATEINFO`.
pub record Info : Type 0 where
  pub codec_type : ℕ
  pub width : ℕ
  pub height : ℕ
  pub chroma_format : ℕ
  pub bit_depth : ℕ
  pub decode_surfaces : ℕ
  pub output_surfaces : ℕ
  pub target_width : ℕ
  pub target_height : ℕ

-- NVCUVID: `get_caps` is `none` where the call fails, `create` the handle of a new decoder.
pub record Driver : Type 1 where
  pub State : Type 0
  pub get_caps : State → Format → Option Caps
  pub create : State → Info → Option (ℕ × State)
  pub destroy : State → ℕ → State

pub record Hardware : Type 0 where
  pub handle : ℕ
  pub info : Info
  pub initialized : Bool

-- An `int` that is stored in an `unsigned long`.
unfoldable pub to_unsigned : ℤ → ℕ
to_unsigned z = (pos_part z + 2 ^ 64 - neg_part z % 2 ^ 64) % 2 ^ 64

-- The checks on what the device can do.
unfoldable pub check_caps : Format → Caps → Outcome (Unit {0})
check_caps f caps = do
  check caps.is_supported
  check (not (ltb f.coded_width caps.min_width || ltb f.coded_height caps.min_height))
  check (not (ltb caps.max_width f.coded_width || ltb caps.max_height f.coded_height))
  check (not (ltb caps.max_mb_count (f.coded_width * f.coded_height % 2 ^ 32 / 256)))

-- The checks are skipped where the device does not say.
unfoldable pub check_known : Format → Option Caps → Outcome (Unit {0})
check_known f none = ok tt
check_known f (some caps) = check_caps f caps

unfoldable pub info_of : Format → Info
info_of f = record {
  codec_type = f.codec;
  width = f.coded_width;
  height = f.coded_height;
  chroma_format = f.chroma_format;
  bit_depth = f.bit_depth;
  decode_surfaces = 20;
  output_surfaces = 2;
  target_width = to_unsigned (f.right -ℤ f.left);
  target_height = to_unsigned (f.bottom -ℤ f.top);
}

-- Whether a format is the one that the decoder was made for.
unfoldable pub same_format : Format → Info → Bool
same_format f i = not (
    not (f.codec == i.codec_type)
    || not (f.coded_width == i.width)
    || not (f.coded_height == i.height)
    || not (f.chroma_format == i.chroma_format))

module _ (dr : Driver) where
  -- What `cuvidCreateDecoder` came to.
  unfoldable pub created : Format → Option (ℕ × dr.State) → Outcome (ℕ × Hardware × dr.State)
  created f none = fatal
  created f (some (handle, s)) =
      ok (1, record { handle = handle; info = info_of f; initialized = true }, s)

  -- `Initialize`: what it returns, and the decoder after it.
  unfoldable pub initialize : Format → Hardware → dr.State → Outcome (ℕ × Hardware × dr.State)
  initialize f h s =
      if h.initialized
      then ok (if same_format f h.info then 1 else 0, h, s)
      else (check_known f (dr.get_caps s f) >>= λ checked. created f (dr.create s (info_of f)))

  -- The move assignment: the decoder that was there is destroyed, and `decoder_info_` stays.
  unfoldable pub move_assign : Hardware → Hardware → dr.State → Hardware × Hardware × dr.State
  move_assign h other s = (
    record h { handle = other.handle; initialized = other.initialized },
    record other { handle = 0; initialized = false },
    if h.initialized then dr.destroy s h.handle else s,
  )

-- `Width` and `Height`, as `uint16_t`.
unfoldable pub hardware_width : Hardware → ℕ
hardware_width h = h.info.target_width % 2 ^ 16

unfoldable pub hardware_height : Hardware → ℕ
hardware_height h = h.info.target_height % 2 ^ 16

-- The codes of the table of names, by place.
abbrev pub codec_names : List ℕ
codec_names =
    0 ∷ 1 ∷ 2 ∷ 3 ∷ 4 ∷ 5 ∷ 6 ∷ 7 ∷ 8 ∷ 9 ∷ 10 ∷ 11 ∷ 0x49595556 ∷ 0x59563132 ∷ 0x4e563132
    ∷ 0x59555956 ∷ 0x55595659 ∷ []

-- The search from place `i` on: it reads the name at the place of the codec's number, which is
-- outside the table, `fatal` here.
unfoldable pub find_codec : ℕ → List ℕ → Outcome (Option ℕ)
find_codec codec [] = ok none
find_codec codec (c ∷ rest) =
    if codec == c
    then elim (get_elem? codec_names codec) [ some _ ↦ ok (some codec) | none ↦ fatal ]
    else find_codec codec rest

-- `GetVideoCodecString`: the place of the name, and `none` for "Unknown".
unfoldable pub codec_string : ℕ → Outcome (Option ℕ)
codec_string codec =
    if leb codec 11
    then ok (some codec)
    else find_codec codec (0x49595556 ∷ 0x59563132 ∷ 0x4e563132 ∷ 0x59555956 ∷ 0x55595659 ∷ [])
