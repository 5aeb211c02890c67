-- ===== src/Paste/Image/Png.antt =====
-- The dimensions of a PNG.
use omarchy_whatsapp.Prelude.{List, arith, ◌++◌, ◌≡◌, ◌<◌, ◌^◌, ℕ}
use omarchy_whatsapp.Prelude.Bytes.{be_bytes_4}
use omarchy_whatsapp.Prelude.Result.{ok}
use omarchy_whatsapp.Paste.Image.{ihdr, png_dimensions, png_magic}

-- The start of a PNG: the signature, the length of the first chunk, its type, width and height.
abbrev pub png_header : ℕ → ℕ → ℕ → List ℕ
png_header chunk width height =
    png_magic ++ (be_bytes_4 chunk ++ (ihdr ++ (be_bytes_4 width ++ be_bytes_4 height)))

-- The dimensions of a PNG that are written into its header, each a positive number of 32 bits, are
-- read back, whatever follows the header.
pub png_dimensions-header :
    (chunk width height : ℕ) (rest : List ℕ)
    → 0 < width
    → 0 < height
    → width < 2 ^ 32
    → height < 2 ^ 32
    → png_dimensions (png_header chunk width height ++ rest) ≡ ok (width, height)
unfolding png_dimensions
png_dimensions-header chunk width height rest w h ww hh = ground arith
