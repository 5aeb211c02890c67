-- ===== src/Paste/Image.antt =====
-- Image types and dimensions read from the bytes of a pasted image (sniff_image_mime,
-- validate_pasted_bytes, png_dimensions, jpeg_dimensions, pasted_image_dimensions).
pub mod Png
pub mod Jpeg
pub mod Total
use omarchy_whatsapp.Prelude.{
  Bool, List, Option, String, [], drop, eqb, if◌then◌else◌, leb, length, ltb, none, not, opt_eq,
  some, suc, zero, ℕ, ◌&&◌, ◌*◌, ◌+◌, ◌==◌, ◌||◌, ◌∷◌,
}
use omarchy_whatsapp.Prelude.Bytes.{be_value, split_at, starts_with, take}
use omarchy_whatsapp.Prelude.Result.{Result, ensure, err, ok, ◌>>=◌, ◌>>◌}

pub data ImageError : Type 0 where
  empty_image too_large wrong_type unsupported_type : ImageError
  truncated_png not_png missing_ihdr png_zero : ImageError
  not_jpeg truncated_frame jpeg_zero truncated_segment corrupt_segment no_frame_header : ImageError

-- MAX_IMAGE_BYTES
abbrev pub max_image_bytes : ℕ
max_image_bytes = 25 * 1024 * 1024

abbrev pub png_magic : List ℕ
png_magic = 0x89 ∷ 0x50 ∷ 0x4e ∷ 0x47 ∷ 0x0d ∷ 0x0a ∷ 0x1a ∷ 0x0a ∷ []

abbrev pub jpeg_magic : List ℕ
jpeg_magic = 0xff ∷ 0xd8 ∷ 0xff ∷ []

abbrev pub ihdr : List ℕ
ihdr = 0x49 ∷ 0x48 ∷ 0x44 ∷ 0x52 ∷ []

unfoldable pub sniff_image_mime : List ℕ → Option String
sniff_image_mime bytes =
    if starts_with png_magic bytes
    then some "image/png"
    else if starts_with jpeg_magic bytes
    then some "image/jpeg"
    else none

unfoldable pub validate_pasted_bytes : List ℕ → String → Result ImageError (Unit {0})
unfolding sniff_image_mime
validate_pasted_bytes bytes mime_type = do
  ensure (ltb 0 (length bytes)) empty_image
  ensure (leb (length bytes) max_image_bytes) too_large
  ensure (opt_eq (sniff_image_mime bytes) (some mime_type)) wrong_type

unfoldable pub png_dimensions : List ℕ → Result ImageError (ℕ × ℕ)
unfolding be_value
png_dimensions bytes = do
  ensure (leb 24 (length bytes)) truncated_png
  ensure (starts_with png_magic bytes) not_png
  ensure (starts_with ihdr (take 4 (drop 12 bytes))) missing_ihdr
  let width = be_value (take 4 (drop 16 bytes))
  let height = be_value (take 4 (drop 20 bytes))
  ensure (ltb 0 width && ltb 0 height) png_zero
  ok (width, height)

-- D8, D9, D0 to D7 and 01 stand alone, without a segment.
abbrev pub stands_alone : ℕ → Bool
stands_alone marker =
    eqb marker 0xd8
    || (eqb marker 0xd9 || ((leb 0xd0 marker && leb marker 0xd7) || eqb marker 0x01))

-- The start-of-frame markers, from 0xc0 to 0xcf, less the three of tables.
abbrev pub is_frame : ℕ → Bool
is_frame marker =
    (leb 0xc0 marker && leb marker 0xcf)
    && not (eqb marker 0xc4 || (eqb marker 0xc8 || eqb marker 0xcc))

-- What one round of the walk does: it goes on at a later cursor, or it ends.
pub data Scan : Type 0 where
  go_on : List ℕ → Scan
  ends : Result ImageError (ℕ × ℕ) → Scan

-- The frame header behind its two marker bytes: length, precision, height and width.
unfoldable pub frame_header : List ℕ → Result ImageError (ℕ × ℕ)
unfolding be_value
frame_header rest = do
  ensure (leb 7 (length rest)) truncated_frame
  let height = be_value (take 2 (drop 3 rest))
  let width = be_value (take 2 (drop 5 rest))
  ensure (ltb 0 width && ltb 0 height) jpeg_zero
  ok (width, height)

-- A segment behind its two marker bytes: its length counts the two bytes of the length.
unfoldable pub skip_segment : List ℕ → Scan
unfolding be_value
skip_segment rest =
    let segment = be_value (take 2 rest) in
    if ltb 1 (length rest)
    then if leb 2 segment then go_on (drop segment rest) else ends (err corrupt_segment)
    else ends (err truncated_segment)

-- The list is what stands at the cursor and behind it.
unfoldable pub scan : List ℕ → Scan
unfolding frame_header skip_segment
scan [] = ends (err no_frame_header)
scan (b ∷ []) = ends (err no_frame_header)
scan (b ∷ marker ∷ rest) =
    if not (eqb b 0xff)
    then go_on (marker ∷ rest)
    else if stands_alone marker
    then go_on rest
    else if is_frame marker
    then ends (frame_header rest)
    else if eqb marker 0xff
    then go_on (marker ∷ rest)
    else skip_segment rest

-- The loop on fuel; `none` means that the fuel ran out.
pub walk : ℕ → List ℕ → Option (Result ImageError (ℕ × ℕ))
unfolding scan
walk zero bytes = none
walk (suc fuel) bytes = elim (scan bytes) [
  | go_on rest ↦ walk fuel rest
  | ends result ↦ some result
]

-- Each round moves the cursor by one byte at least.
unfoldable pub jpeg_dimensions : List ℕ → Option (Result ImageError (ℕ × ℕ))
unfolding walk
jpeg_dimensions bytes =
    if ltb 2 (length bytes) && starts_with (0xff ∷ 0xd8 ∷ []) bytes
    then walk (length bytes) (drop 2 bytes)
    else some (err not_jpeg)

unfoldable pub pasted_image_dimensions : List ℕ → String → Option (Result ImageError (ℕ × ℕ))
unfolding png_dimensions jpeg_dimensions
pasted_image_dimensions bytes mime_type =
    if mime_type == "image/png"
    then some (png_dimensions bytes)
    else if mime_type == "image/jpeg"
    then jpeg_dimensions bytes
    else some (err unsupported_type)
