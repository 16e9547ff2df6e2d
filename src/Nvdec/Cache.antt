-- ===== src/Nvdec/Cache.antt =====
-- What the registry of textures keeps.
use peli.Base.{
  ℕ, ◌≡◌, refl, sym, ap, ◌∙◌, true, false, Option-cases, some, inl, inr, List, ◌∷◌, ok, arith,
}
use peli.Nvdec.Textures.{
  TexId, ScaleMethod, nearest, linear, ImageTexture, Cuda, same_scale, same_id, find_texture,
  luma_desc, chroma_desc, new_texture, get_texture,
}

same_scale_refl : (m : ScaleMethod) → same_scale m m ≡ true
unfolding same_scale
same_scale_refl nearest = refl
same_scale_refl linear = refl

same_id_refl : (id : TexId) → same_id id id ≡ true
unfolding same_id
same_id_refl id = ground (arith, same_scale_refl id.scale_method)

front_hit :
    (id : TexId) (tex : ImageTexture) (ts : List (TexId × ImageTexture))
    → find_texture id ((id, tex) ∷ ts) ≡ some tex
unfolding find_texture
front_hit id tex ts = rw (same_id_refl id) refl

front_miss :
    (other id : TexId) (tex : ImageTexture) (ts : List (TexId × ImageTexture))
    → same_id other id ≡ false
    → find_texture other ((id, tex) ∷ ts) ≡ find_texture other ts
unfolding find_texture
front_miss other id tex ts e = rw e refl

module _ (cu : Cuda) where
  hit :
      (id : TexId) (pitch width height : ℕ) (ts : List (TexId × ImageTexture)) (s : cu.State)
      (tex : ImageTexture)
      → find_texture id ts ≡ some tex
      → get_texture cu id pitch width height ts s ≡ ok (tex, ts, s)
  unfolding get_texture
  hit id pitch width height ts s tex e = rw (e, get_texture) refl

  -- A key that was not there is put in front.
  new_texture_lem :
      (id : TexId) (pitch width height : ℕ) (ts ts' : List (TexId × ImageTexture)) (s t : cu.State)
      (tex : ImageTexture)
      → new_texture cu id pitch width height ts s ≡ ok (tex, ts', t)
      → ts' ≡ (id, tex) ∷ ts
  unfolding new_texture
  new_texture_lem id pitch width height ts ts' s t tex e =
      elim (Option-cases (cu.create_texture s (luma_desc id pitch width height))) [
        | inl n ↦ absurd (ground (arith, n))
        | inr (a, m) ↦
            elim (Option-cases (cu.create_texture a.1 (chroma_desc id pitch width height))) [
              | inl n ↦ absurd (ground (arith, m, n))
              | inr (b, k) ↦ ground (arith, m, k)
            ]
      ]

  -- Where `GetTexture` returns a texture, the registry has it under its key, every other key has
  -- what it had, and a later call with the key returns it at once and changes nothing, whatever
  -- size and pitch the call gives.
  pub get_texture_lem :
      (id : TexId) (pitch width height : ℕ) (ts ts' : List (TexId × ImageTexture)) (s t : cu.State)
      (tex : ImageTexture)
      → get_texture cu id pitch width height ts s ≡ ok (tex, ts', t)
      → (find_texture id ts' ≡ some tex)
        × ((other : TexId)
            → same_id other id ≡ false
            → find_texture other ts' ≡ find_texture other ts)
        × ((pitch' width' height' : ℕ) (u : cu.State)
            → get_texture cu id pitch' width' height' ts' u ≡ ok (tex, ts', u))
  unfolding get_texture
  get_texture_lem id pitch width height ts ts' s t tex e =
      elim (Option-cases (find_texture id ts)) [
        | inr (old, found) ↦
            let same = sym (hit id pitch width height ts s old found) ∙ e in
            let there : find_texture id ts' ≡ some tex = ground (arith, same, found) in
            (
              there,
              λ other differs.
                  ap (find_texture other) (let eq : ts' ≡ ts = ground (arith, same) in eq),
              λ pitch' width' height' u. hit id pitch' width' height' ts' u tex there,
            )
        | inl missing ↦
            let made =
              new_texture_lem id pitch width height ts ts' s t tex (ground (arith, missing, e)) in
            let there = ap (find_texture id) made ∙ front_hit id tex ts in
            (
              there,
              λ other differs. ap (find_texture other) made ∙ front_miss other id tex ts differs,
              λ pitch' width' height' u. hit id pitch' width' height' ts' u tex there,
            )
      ]
