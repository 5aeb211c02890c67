-- ===== src/Paste/Examples.antt =====
-- Tests of the image formats, and the theorems at concrete bytes.
use omarchy_whatsapp.Prelude.{List, [], ◌∷◌, ◌≡◌, refl, some, ℕ}
use omarchy_whatsapp.Prelude.Result.{err}
use omarchy_whatsapp.Paste.Image.{pasted_image_dimensions, truncated_frame}
use omarchy_whatsapp.Paste.Image.Jpeg.{Part, alone, padding, segment}

-- An APP0 segment, a marker that stands alone, and a byte of padding.
abbrev three_parts : List Part
three_parts = segment 0xe0 (0x4a ∷ 0x46 ∷ []) ∷ alone 0x01 ∷ padding 0 ∷ []

-- A frame header that is cut off.
abbrev cut_off : List ℕ
cut_off = 0xff ∷ 0xd8 ∷ 0xff ∷ 0xc0 ∷ 0x00 ∷ []

cut_off_dimensions : pasted_image_dimensions cut_off "image/jpeg" ≡ some (err truncated_frame)
unfolding pasted_image_dimensions
cut_off_dimensions = refl
