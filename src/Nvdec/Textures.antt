-- ===== src/Nvdec/Textures.antt =====
-- `CUTextureRegistry` (src/video/nvcodec/cuda_texture.cc): the texture objects of the decoder's
-- frames, by pointer and method.
use Prim.Native.Nat.{◌/◌}
use peli.Base.{
  ℕ, ◌+◌, ◌*◌, ◌%◌, ◌^◌, Bool, true, false, ◌&&◌, Option, none, some, List, [], ◌∷◌, Outcome, ok,
  ◌>>=◌, or_fatal, if◌then◌else◌, ◌==◌,
}

pub data ScaleMethod : Type 0 where
  nearest : ScaleMethod
  linear : ScaleMethod

-- `ChromaUpMethod` has one value, so the key is the pointer and the scale method.
pub record TexId : Type 0 where
  pub ptr : ℕ
  pub scale_method : ScaleMethod

-- What `cudaCreateTextureObject` is given.
pub record TexDesc : Type 0 where
  pub dev_ptr : ℕ
  pub width : ℕ
  pub height : ℕ
  pub pitch : ℕ
  pub channels : ℕ
  pub filter : ScaleMethod

pub record ImageTexture : Type 0 where
  pub luma : ℕ
  pub chroma : ℕ

-- The driver: `none` where no object can be made.
pub record Cuda : Type 1 where
  pub State : Type 0
  pub create_texture : State → TexDesc → Option (ℕ × State)

unfoldable pub same_scale : ScaleMethod → ScaleMethod → Bool
same_scale nearest nearest = true
same_scale linear linear = true
same_scale nearest linear = false
same_scale linear nearest = false

unfoldable pub same_id : TexId → TexId → Bool
same_id a b = (a.ptr == b.ptr) && same_scale a.scale_method b.scale_method

unfoldable pub find_texture : TexId → List (TexId × ImageTexture) → Option ImageTexture
find_texture id [] = none
find_texture id ((key, tex) ∷ rest) = if same_id id key then some tex else find_texture id rest

-- The plane of brightness at the pointer.
unfoldable pub luma_desc : TexId → ℕ → ℕ → ℕ → TexDesc
luma_desc id pitch width height = record {
  dev_ptr = id.ptr;
  width = width;
  height = height;
  pitch = pitch;
  channels = 1;
  filter = id.scale_method;
}

-- The plane of colour behind it, of half the size.
unfoldable pub chroma_desc : TexId → ℕ → ℕ → ℕ → TexDesc
chroma_desc id pitch width height = record {
  dev_ptr = id.ptr + height * pitch % 2 ^ 32;
  width = width / 2;
  height = height / 2;
  pitch = pitch;
  channels = 2;
  filter = linear;
}

module _ (cu : Cuda) where
  -- Two new texture objects for a key that is not there.
  unfoldable pub new_texture :
      TexId
      → ℕ
      → ℕ
      → ℕ
      → List (TexId × ImageTexture)
      → cu.State
      → Outcome (ImageTexture × List (TexId × ImageTexture) × cu.State)
  new_texture id pitch width height textures s = do
    (luma, t) ← or_fatal (cu.create_texture s (luma_desc id pitch width height))
    (chroma, u) ← or_fatal (cu.create_texture t (chroma_desc id pitch width height))
    let tex : ImageTexture = record { luma = luma; chroma = chroma }
    ok (tex, (id, tex) ∷ textures, u)

  -- `GetTexture`.
  unfoldable pub get_texture :
      TexId
      → ℕ
      → ℕ
      → ℕ
      → List (TexId × ImageTexture)
      → cu.State
      → Outcome (ImageTexture × List (TexId × ImageTexture) × cu.State)
  get_texture id pitch width height textures s = elim (find_texture id textures) [
    | some tex ↦ ok (tex, textures, s)
    | none ↦ new_texture id pitch width height textures s
  ]
