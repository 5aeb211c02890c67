-- ===== src/Paste/Staging/Sound.antt =====
-- The checks behind what is staged (stage_bytes, paste_image_from_clipboard in crates/daemon/src/paste.rs).
use omarchy_whatsapp.Prelude.{
  Bool-cases, List, Option, Option-cases, String, [], arith, inl, inr, leb, length, ltb, none,
  opt_eq, opt_eq_iff, refl, some, true, ℕ, ◌∷◌, ◌≡◌,
}
use omarchy_whatsapp.Prelude.Result.{
  Holds, Result, Result-cases, bind-Holds, then-Holds, ensure, is_ok, ok,
}
use omarchy_whatsapp.Paste.Image.{
  ImageError, max_image_bytes, pasted_image_dimensions, sniff_image_mime, validate_pasted_bytes,
}
use omarchy_whatsapp.Paste.Names.{document_mime, offers, pick_image_mime}
use omarchy_whatsapp.Paste.Staging.{
  LocalFile, PasteError, PasteOutcome, StagedFile, contents, copied_path, document, document_types,
  empty_file, file_name_of, file_too_large, is_absolute, matches_document_image, max_document_bytes,
  named, not_absolute, not_such_image, pasted_too_large, either, heif_as_jpeg, measured, nothing,
  paste_copied, paste_image_from_clipboard, paste_offered, paste_others, pasted_image, pasted_other,
  sized_image, stage_bytes, stage_local_file, staged, staged_document, staged_image, typed_bytes,
}

-- The bytes of an image are of its type, not too many, and give its dimensions; a document has its bytes' number
-- and the type of its name.
abbrev pub IsStaged : StagedFile → Type 0
IsStaged (staged_image bytes extension width height mime_type) =
    (sniff_image_mime bytes ≡ some mime_type)
    × (ltb 0 (length bytes) ≡ true)
    × (leb (length bytes) max_image_bytes ≡ true)
    × (pasted_image_dimensions bytes mime_type ≡ some (ok (width, height)))
IsStaged (staged_document bytes file_name mime_type file_size) =
    (file_size ≡ length bytes) × (mime_type ≡ document_mime file_name)

abbrev pub IsPaste : PasteOutcome → Type 0
IsPaste (staged f) = IsStaged f
IsPaste nothing = Unit

abbrev pub IsOutcome : Result PasteError PasteOutcome → Type 0
IsOutcome = Holds IsPaste

validate_pasted_bytes-ok :
    (bytes : List ℕ) (mime_type : String)
    → is_ok (validate_pasted_bytes bytes mime_type) ≡ true
    → (sniff_image_mime bytes ≡ some mime_type)
      × (ltb 0 (length bytes) ≡ true)
      × (leb (length bytes) max_image_bytes ≡ true)
unfolding validate_pasted_bytes
validate_pasted_bytes-ok bytes mime_type h =
    let typed : opt_eq (sniff_image_mime bytes) (some mime_type) ≡ true = ground arith in
    ((opt_eq_iff (sniff_image_mime bytes) (some mime_type)).0 typed, ground arith, ground arith)

measured-ok :
    (result : Option (Result ImageError (ℕ × ℕ))) (size : ℕ × ℕ)
    → measured result ≡ ok size
    → result ≡ some (ok size)
measured-ok none size h = cc
measured-ok (some result) size h = cc

module _ (ffmpeg : List ℕ → Option (List ℕ)) where
  typed_bytes-IsStaged :
      (bytes : List ℕ) (file_name : String) (mime : Option String)
      → sniff_image_mime bytes ≡ mime
      → IsStaged (typed_bytes ffmpeg bytes file_name mime)
  unfolding typed_bytes document sized_image
  typed_bytes-IsStaged bytes file_name none e = (refl, refl)
  typed_bytes-IsStaged bytes file_name (some mime_type) e =
      elim (Bool-cases (is_ok (validate_pasted_bytes bytes mime_type))) [
        | inr bad ↦ rw bad (refl, refl)
        | inl good ↦ elim (Result-cases (measured (pasted_image_dimensions bytes mime_type))) [
          | inr (x, failed) ↦ rw (good, failed) (refl, refl)
          | inl (size, found) ↦
              let (typed, some_, few) = validate_pasted_bytes-ok bytes mime_type good in
              rw (good, found) (typed, some_, few, measured-ok _ size found)
        ]
      ]

  stage_bytes-IsStaged :
      (bytes : List ℕ) (file_name : String) → IsStaged (stage_bytes ffmpeg bytes file_name)
  unfolding stage_bytes
  stage_bytes-IsStaged bytes file_name =
      let chosen = either ffmpeg (heif_as_jpeg ffmpeg bytes) bytes in
      typed_bytes-IsStaged chosen file_name (sniff_image_mime chosen) refl

  module _ (file_at : String → LocalFile) where
    stage_local_file-Holds :
        (source : String) → Holds IsStaged (stage_local_file ffmpeg file_at source)
    unfolding stage_local_file
    stage_local_file-Holds source =
        bind-Holds IsStaged (ensure (is_absolute source) not_absolute) _ (λ absolute.
          bind-Holds IsStaged (named (file_name_of source)) _ (λ file_name.
            bind-Holds IsStaged (contents (file_at source)) _ (λ bytes.
              bind-Holds IsStaged (ensure (ltb 0 (length bytes)) empty_file) _ (λ filled.
                bind-Holds IsStaged (ensure (leb (length bytes) max_document_bytes) file_too_large)
                  _ (λ fits. stage_bytes-IsStaged bytes file_name)))))

    module _ (percent_decode : String → Option String) (from_utf8_lossy : List ℕ → String)
        (read : String → Option (List ℕ)) where
      pasted_image-IsOutcome :
          (mime_type extension : String) (bytes : Option (List ℕ))
          → IsOutcome (
              pasted_image ffmpeg file_at percent_decode from_utf8_lossy read mime_type extension
                bytes)
      unfolding pasted_image
      pasted_image-IsOutcome mime_type extension none = tt
      pasted_image-IsOutcome mime_type extension (some bytes) =
          elim (Result-cases (validate_pasted_bytes bytes mime_type)) [
            | inr (e, bad) ↦ rw bad tt
            | inl (done, good) ↦
                elim (Result-cases (measured (pasted_image_dimensions bytes mime_type))) [
                  | inr (x, failed) ↦ rw (good, failed) tt
                  | inl (size, found) ↦
                      let (typed, some_, few) =
                        validate_pasted_bytes-ok bytes mime_type (rw good refl) in
                      rw (good, found) (typed, some_, few, measured-ok _ size found)
                ]
          ]

      pasted_other-IsOutcome :
          (mime_type file_name : String) (bytes : Option (List ℕ))
          → IsOutcome (
              pasted_other ffmpeg file_at percent_decode from_utf8_lossy read mime_type file_name
                bytes)
      unfolding pasted_other
      pasted_other-IsOutcome mime_type file_name none = tt
      pasted_other-IsOutcome mime_type file_name (some bytes) =
          bind-Holds IsPaste (ensure (leb (length bytes) max_image_bytes) pasted_too_large) _
            (λ fits.
              bind-Holds IsPaste (ensure (matches_document_image bytes mime_type) not_such_image) _
                (λ matches. stage_bytes-IsStaged bytes file_name))

      paste_others-IsOutcome :
          (offered : List String) (types : List (String × String))
          → IsOutcome
              (paste_others ffmpeg file_at percent_decode from_utf8_lossy read offered types)
      unfolding paste_others
      paste_others-IsOutcome offered [] = tt
      paste_others-IsOutcome offered ((mime_type, file_name) ∷ types) =
          elim (Bool-cases (offers offered mime_type)) [
            | inl offered_ ↦
                rw offered_ (pasted_other-IsOutcome mime_type file_name (read mime_type))
            | inr not_offered ↦ rw not_offered (paste_others-IsOutcome offered types)
          ]

      paste_copied-IsOutcome :
          (offered : List String) (path : Option String)
          → IsOutcome (paste_copied ffmpeg file_at percent_decode from_utf8_lossy read offered path)
      unfolding paste_copied
      paste_copied-IsOutcome offered none = paste_others-IsOutcome offered document_types
      paste_copied-IsOutcome offered (some path) =
          then-Holds IsStaged IsPaste (stage_local_file ffmpeg file_at path) _
            (stage_local_file-Holds path) (λ f is. is)

      -- Whatever the clipboard offers and gives, whatever a copied path leads to and whatever a conversion of HEIF
      -- leaves: an image that is staged has passed the checks of the size and the type, with its own dimensions, and a
      -- document is described by its bytes and its name.
      pub paste_image_from_clipboard-IsOutcome :
          (offered : Option (List String))
          → IsOutcome (
              paste_image_from_clipboard ffmpeg file_at percent_decode from_utf8_lossy read offered)
      unfolding paste_image_from_clipboard paste_offered
      paste_image_from_clipboard-IsOutcome none = tt
      paste_image_from_clipboard-IsOutcome (some offered) =
          elim (Option-cases (pick_image_mime offered)) [
            | inl no_image ↦ rw no_image (
                paste_copied-IsOutcome offered
                  (copied_path ffmpeg file_at percent_decode from_utf8_lossy read offered))
            | inr ((mime_type, extension), picked) ↦
                rw picked (pasted_image-IsOutcome mime_type extension (read mime_type))
          ]
