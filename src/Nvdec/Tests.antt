-- ===== src/Nvdec/Tests.antt =====
-- A device, a driver and a decoder of one format, and a run that ends the stream twice.
use peli.Base.{ℕ, ◌+◌, ◌≡◌, ◌⊎◌, refl, true, false, none, some, [], ◌∷◌, ok, fatal, pos}
use peli.Decoder.Lines.{lines}
use peli.Nvdec.Format.{
  Format, Caps, Info, Driver, Hardware, check_caps, check_known, info_of, created, initialize,
  codec_string, find_codec,
}
use peli.Nvdec.Textures.{
  nearest, TexId, ImageTexture, Cuda, same_id, find_texture, get_texture, new_texture,
}
use peli.Nvdec.Decoder.{
  Nv, idle, fetch, ended, CuDecoder, started, start, signal_stop, is_joinable, join, clear,
  push_begins,
}
use peli.Nvdec.Setup.{Fits, Agrees, initialize_lem}
use peli.Nvdec.Cache.{get_texture_lem}
use peli.Nvdec.Drained.{starts, clears, stays, goes, drained_once}

abbrev hd_format : Format
hd_format = record {
  codec = 4;
  chroma_format = 1;
  bit_depth = 8;
  coded_width = 1920;
  coded_height = 1088;
  left = pos 0;
  top = pos 0;
  right = pos 1920;
  bottom = pos 1080;
}

abbrev wide_caps : Caps
wide_caps = record {
  is_supported = true;
  min_width = 48;
  min_height = 16;
  max_width = 4096;
  max_height = 4096;
  max_mb_count = 65536;
}

abbrev device : Driver
device = record {
  State = ℕ;
  get_caps = λ s f. some wide_caps;
  create = λ s info. some (s + 1, s + 1);
  destroy = λ s handle. s;
}

abbrev no_info : Info
no_info = record {
  codec_type = 0;
  width = 0;
  height = 0;
  chroma_format = 0;
  bit_depth = 0;
  decode_surfaces = 0;
  output_surfaces = 0;
  target_width = 0;
  target_height = 0;
}

abbrev hd_hardware : Hardware
hd_hardware = record { handle = 1; info = info_of hd_format; initialized = true }

abbrev no_hardware : Hardware
no_hardware = record { handle = 0; info = no_info; initialized = false }

set_up : initialize device hd_format no_hardware 0 ≡ ok (1, hd_hardware, 1)
unfolding initialize check_known check_caps created info_of
set_up = refl

initialize_lem_example :
    (◌≡◌ {A = ℕ} 1 1)
    × ((caps : Caps) → some wide_caps ≡ some caps → Fits hd_format caps)
    × (info_of hd_format ≡ info_of hd_format)
    × ((g : Format) (u : ℕ)
        → (Agrees g hd_format × (initialize device g hd_hardware u ≡ ok (1, hd_hardware, u)))
          ⊎ ((Agrees g hd_format → ⊥)
              × (initialize device g hd_hardware u ≡ ok (0, hd_hardware, u))))
initialize_lem_example = initialize_lem device hd_format no_hardware hd_hardware 0 1 1 refl set_up

-- A fourcc of the table is looked up past its end.
iyuv_outside : codec_string 0x49595556 ≡ fatal
unfolding codec_string find_codec
iyuv_outside = refl

-- The number of macroblocks of a format of 65536 × 65536 counts as 0.
abbrev huge_format : Format
huge_format = record hd_format { coded_width = 65536; coded_height = 65536 }

blocks_wrap :
    check_caps huge_format
      (record wide_caps { max_width = 65536; max_height = 65536; max_mb_count = 1 })
    ≡ ok tt
unfolding check_caps
blocks_wrap = refl

abbrev texture_driver : Cuda
texture_driver = record { State = ℕ; create_texture = λ s d. some (s, s + 1) }

abbrev a_key : TexId
a_key = record { ptr = 4096; scale_method = nearest }

abbrev a_texture : ImageTexture
a_texture = record { luma = 7; chroma = 8 }

texture_made :
    get_texture texture_driver a_key 2048 1920 1080 [] 7
    ≡ ok (a_texture, (a_key, a_texture) ∷ [], 9)
unfolding get_texture find_texture new_texture
texture_made = refl

get_texture_lem_example :
    (find_texture a_key ((a_key, a_texture) ∷ []) ≡ some a_texture)
    × ((other : TexId)
        → same_id other a_key ≡ false
        → find_texture other ((a_key, a_texture) ∷ []) ≡ find_texture other [])
    × ((pitch width height u : ℕ)
        → get_texture texture_driver a_key pitch width height ((a_key, a_texture) ∷ []) u
          ≡ ok (a_texture, (a_key, a_texture) ∷ [], u))
get_texture_lem_example =
    get_texture_lem texture_driver a_key 2048 1920 1080 [] ((a_key, a_texture) ∷ []) 7 9 a_texture
      texture_made

abbrev quiet_nv : Nv
quiet_nv = record {
  driver = device;
  send_filter = λ s p. (true, s);
  receive_filter = λ s. none;
  parse = λ s source. ([], true, s);
  decode_picture = λ s n. (true, s);
  render = λ s d buf. some (buf, s);
  new_parser = λ s. some s;
  flush_buffers = λ s. s;
}

abbrev on_air : CuDecoder lines quiet_nv
on_air = record {
  pkt_queue = ([], false);
  frame_queue = ([], false);
  reorder_queue = ([], false);
  run = true;
  frame_count = pos 0;
  draining = false;
  discard_pts = [];
  error_status = false;
  hardware = no_hardware;
  gpu = 0;
  worker = ended;
}

abbrev closing : CuDecoder lines quiet_nv
closing = record on_air { draining = true }

abbrev cleared : CuDecoder lines quiet_nv
cleared = record closing {
  pkt_queue = ([], true);
  frame_queue = ([], true);
  reorder_queue = ([], true);
  run = false;
  worker = idle;
}

abbrev again_on_air : CuDecoder lines quiet_nv
again_on_air = record closing { worker = fetch }

ends : push_begins lines quiet_nv none on_air ≡ ok (true, closing)
unfolding push_begins
ends = refl

clearing : clear lines quiet_nv 1 closing ≡ ok cleared
unfolding clear signal_stop join is_joinable
clearing = refl

restarting : start lines quiet_nv cleared ≡ ok again_on_air
unfolding start started
restarting = refl

drained_once_example : push_begins lines quiet_nv none again_on_air ≡ ok (false, again_on_air)
drained_once_example =
    drained_once lines quiet_nv on_air closing again_on_air ends
      (goes closing cleared again_on_air (clears 1 clearing)
        (goes cleared again_on_air again_on_air (starts restarting) (stays again_on_air)))
      refl
