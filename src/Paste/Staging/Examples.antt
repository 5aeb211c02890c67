-- ===== src/Paste/Staging/Examples.antt =====
-- Tests of the staging, and the theorem at a concrete clipboard.
use omarchy_whatsapp.Prelude.{
  List, Option, String, [], none, refl, some, ℕ, ◌==◌, ◌∷◌, ◌≡◌, if◌then◌else◌,
}
use omarchy_whatsapp.Prelude.Trim.{trim}
use omarchy_whatsapp.Prelude.Result.{ok}
use omarchy_whatsapp.Paste.Image.{pasted_image_dimensions, sniff_image_mime, validate_pasted_bytes}
use omarchy_whatsapp.Paste.Image.Png.{png_header}
use omarchy_whatsapp.Paste.Names.{document_mime, offers, pick_image_mime}
use omarchy_whatsapp.Paste.Staging.{
  LocalFile, missing, paste_image_from_clipboard, regular, stage_bytes, stage_local_file, staged,
  staged_document, staged_image,
}
use omarchy_whatsapp.Paste.Staging.Sound.{IsOutcome, paste_image_from_clipboard-IsOutcome}

-- A conversion that leaves the start of a JPEG and no frame.
abbrev no_frame : List ℕ → Option (List ℕ)
no_frame bytes = some (0xff ∷ 0xd8 ∷ 0xff ∷ [])

abbrev heic_bytes : List ℕ
heic_bytes = 0 ∷ 0 ∷ 0 ∷ 24 ∷ 0x66 ∷ 0x74 ∷ 0x79 ∷ 0x70 ∷ 0x68 ∷ 0x65 ∷ 0x69 ∷ 0x63 ∷ []

abbrev picture : List ℕ
picture = png_header 13 2 3

abbrev file_system : String → LocalFile
file_system path = if path == "/tmp/a.txt" then regular (104 ∷ 105 ∷ []) else missing

text_file :
    stage_local_file no_frame file_system "/tmp/a.txt"
    ≡ ok (staged_document (104 ∷ 105 ∷ []) "a.txt" "text/plain" 2)
unfolding stage_local_file document_mime sniff_image_mime
text_file = refl

-- A converted image that is no image any more is staged as a JPEG under the name and the type of the HEIF one.
heic_document :
    stage_bytes no_frame heic_bytes "a.heic"
    ≡ staged_document (0xff ∷ 0xd8 ∷ 0xff ∷ []) "a.heic" "image/heic" 3
unfolding stage_bytes document_mime sniff_image_mime validate_pasted_bytes pasted_image_dimensions
heic_document = refl

abbrev read_picture : String → Option (List ℕ)
read_picture mime_type = if mime_type == "image/png" then some picture else none

pasted_png :
    paste_image_from_clipboard no_frame file_system some
      (λ bytes. "")
      read_picture
      (some ("text/plain" ∷ "image/PNG; q=1" ∷ "image/jpeg" ∷ []))
    ≡ ok (staged (staged_image picture ".png" 2 3 "image/png"))
unfolding paste_image_from_clipboard pick_image_mime offers trim validate_pasted_bytes
    pasted_image_dimensions
pasted_png = refl

paste_image_from_clipboard-IsOutcome_example : IsOutcome (
    paste_image_from_clipboard no_frame file_system some
      (λ bytes. "")
      read_picture
      (some ("image/png" ∷ [])))
paste_image_from_clipboard-IsOutcome_example =
    paste_image_from_clipboard-IsOutcome no_frame file_system some (λ bytes. "") read_picture
      (some ("image/png" ∷ []))
