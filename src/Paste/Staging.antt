-- ===== src/Paste/Staging.antt =====
-- What is staged for sending (stage_bytes, stage_local_file and paste_image_from_clipboard in
-- crates/daemon/src/paste.rs). A staged file is what is written and its extension, and writing it succeeds.
-- The clipboard, the files, ffmpeg and the decoding of texts are parameters.
pub mod Sound
pub mod Examples
use Prim.Native.Char.{code}
use Prim.Native.String
use omarchy_whatsapp.Prelude.{
  Bool, List, Option, String, [], drop, eqb, false, if◌then◌else◌, leb, length, ltb, none, not,
  some, true, ℕ, ◌&&◌, ◌*◌, ◌+◌, ◌==◌, ◌||◌, ◌∷◌,
}
use omarchy_whatsapp.Prelude.Bytes.{starts_with}
use omarchy_whatsapp.Prelude.Result.{Result, ensure, err, is_ok, ok, ◌>>=◌, ◌>>◌}
use omarchy_whatsapp.Prelude.Trim.{is_empty}
use omarchy_whatsapp.Paste.Image.{
  ImageError, max_image_bytes, no_frame_header, pasted_image_dimensions, sniff_image_mime,
  validate_pasted_bytes,
}
use omarchy_whatsapp.Paste.Names.{document_mime, first_copied_file, offers, pick_image_mime, split}

-- MAX_DOCUMENT_BYTES of crates/daemon/src/assets.rs
abbrev pub max_document_bytes : ℕ
max_document_bytes = 100 * 1024 * 1024

-- StagedFile, with the bytes that are written and the extension of the file in place of its path.
pub data StagedFile : Type 0 where
  staged_image :
      (bytes : List ℕ) (extension : String) (width height : ℕ) (mime_type : String) → StagedFile
  staged_document : (bytes : List ℕ) (file_name mime_type : String) (file_size : ℕ) → StagedFile

pub data PasteOutcome : Type 0 where
  nothing : PasteOutcome
  staged : StagedFile → PasteOutcome

pub data PasteError : Type 0 where
  image_error : ImageError → PasteError
  not_absolute no_file_name unavailable not_regular unreadable empty_file file_too_large :
      PasteError
  pasted_too_large not_such_image : PasteError

-- What a path leads to.
pub data LocalFile : Type 0 where
  missing other_kind closed : LocalFile
  regular : List ℕ → LocalFile

-- bytes.get(8..12) and the other slices
abbrev brand_is : List ℕ → List ℕ → Bool
brand_is brand bytes = starts_with brand (drop 8 bytes)

-- ftyp, then heic, heix, heim, heis or mif1
unfoldable pub is_heif : List ℕ → Bool
is_heif bytes =
    starts_with (0x66 ∷ 0x74 ∷ 0x79 ∷ 0x70 ∷ []) (drop 4 bytes)
    && (brand_is (0x68 ∷ 0x65 ∷ 0x69 ∷ 0x63 ∷ []) bytes
        || (brand_is (0x68 ∷ 0x65 ∷ 0x69 ∷ 0x78 ∷ []) bytes
            || (brand_is (0x68 ∷ 0x65 ∷ 0x69 ∷ 0x6d ∷ []) bytes
                || (brand_is (0x68 ∷ 0x65 ∷ 0x69 ∷ 0x73 ∷ []) bytes
                    || brand_is (0x6d ∷ 0x69 ∷ 0x66 ∷ 0x31 ∷ []) bytes))))

-- GIF87a, GIF89a, and RIFF with WEBP
unfoldable pub matches_document_image : List ℕ → String → Bool
unfolding is_heif
matches_document_image bytes mime_type =
    if mime_type == "image/gif"
    then starts_with (0x47 ∷ 0x49 ∷ 0x46 ∷ 0x38 ∷ 0x37 ∷ 0x61 ∷ []) bytes
      || starts_with (0x47 ∷ 0x49 ∷ 0x46 ∷ 0x38 ∷ 0x39 ∷ 0x61 ∷ []) bytes
    else if mime_type == "image/webp"
    then starts_with (0x52 ∷ 0x49 ∷ 0x46 ∷ 0x46 ∷ []) bytes
      && starts_with (0x57 ∷ 0x45 ∷ 0x42 ∷ 0x50 ∷ []) (drop 8 bytes)
    else is_heif bytes

abbrev pub document_types : List (String × String)
document_types =
    ("image/heic", "Pasted image.heic")
    ∷ ("image/heif", "Pasted image.heif")
    ∷ ("image/gif", "Pasted image.gif")
    ∷ ("image/webp", "Pasted image.webp")
    ∷ []

-- The result of the walk over the bytes, which always is there (see Image.Total).
abbrev pub measured : Option (Result ImageError (ℕ × ℕ)) → Result ImageError (ℕ × ℕ)
measured none = err no_frame_header
measured (some result) = result

-- Path::file_name: the last component that is not empty and not a dot, and none where it is two dots.
abbrev last_component : List String → String → String
last_component [] last = last
last_component (part ∷ parts) last =
    last_component parts (if is_empty part || part == "." then last else part)

abbrev pub file_name_of : String → Option String
file_name_of source =
    let name = last_component (split b'/' source) String.[] in
    if is_empty name || name == ".." then none else some name

abbrev pub is_absolute : String → Bool
is_absolute String.[] = false
is_absolute (String.◌∷◌ c s) = eqb (code c) b'/'

abbrev named : Option String → Result PasteError String
named none = err no_file_name
named (some name) = ok name

abbrev contents : LocalFile → Result PasteError (List ℕ)
contents missing = err unavailable
contents other_kind = err not_regular
contents closed = err unreadable
contents (regular bytes) = ok bytes

abbrev image_checked : Result ImageError (Unit {0}) → Result PasteError (Unit {0})
image_checked (ok done) = ok tt
image_checked (err e) = err (image_error e)

abbrev dimensions_checked : Result ImageError (ℕ × ℕ) → Result PasteError (ℕ × ℕ)
dimensions_checked (ok size) = ok size
dimensions_checked (err e) = err (image_error e)

-- `ffmpeg` is the picture that the conversion of a HEIF image leaves, if any.
module _ (ffmpeg : List ℕ → Option (List ℕ)) where
  converted : Option (List ℕ) → Option (List ℕ)
  converted none = none
  converted (some jpeg) = if is_jpeg (sniff_image_mime jpeg) then some jpeg else none
    where
      is_jpeg : Option String → Bool
      is_jpeg none = false
      is_jpeg (some mime_type) = mime_type == "image/jpeg"

  unfoldable pub heif_as_jpeg : List ℕ → Option (List ℕ)
  unfolding converted is_heif
  heif_as_jpeg bytes = if is_heif bytes then converted (ffmpeg bytes) else none

  document : List ℕ → String → StagedFile
  document bytes file_name =
      staged_document bytes file_name (document_mime file_name) (length bytes)

  -- Where the type, the checks or the dimensions fail, the bytes are a document.
  sized_image : List ℕ → String → String → Result ImageError (ℕ × ℕ) → StagedFile
  unfolding document
  sized_image bytes file_name mime_type (err e) = document bytes file_name
  sized_image bytes file_name mime_type (ok (width, height)) =
      staged_image bytes (if mime_type == "image/png" then ".png" else ".jpg") width height
        mime_type

  typed_bytes : List ℕ → String → Option String → StagedFile
  unfolding document sized_image
  typed_bytes bytes file_name none = document bytes file_name
  typed_bytes bytes file_name (some mime_type) =
      if is_ok (validate_pasted_bytes bytes mime_type)
      then sized_image bytes file_name mime_type
          (measured (pasted_image_dimensions bytes mime_type))
      else document bytes file_name

  either : Option (List ℕ) → List ℕ → List ℕ
  either none bytes = bytes
  either (some jpeg) bytes = jpeg

  unfoldable pub stage_bytes : List ℕ → String → StagedFile
  unfolding heif_as_jpeg either typed_bytes
  stage_bytes bytes file_name =
      let chosen = either (heif_as_jpeg bytes) bytes in
      typed_bytes chosen file_name (sniff_image_mime chosen)

  module _ (file_at : String → LocalFile) where
    -- The read is cut off one byte behind the limit, so a longer file is longer than the limit here.
    unfoldable pub stage_local_file : String → Result PasteError StagedFile
    unfolding stage_bytes
    stage_local_file source = do
      ensure (is_absolute source) not_absolute
      file_name ← named (file_name_of source)
      bytes ← contents (file_at source)
      ensure (ltb 0 (length bytes)) empty_file
      ensure (leb (length bytes) max_document_bytes) file_too_large
      ok (stage_bytes bytes file_name)

    -- `read` is read_bytes of the clipboard; `none` is an error, which pastes nothing.
    module _ (percent_decode : String → Option String) (from_utf8_lossy : List ℕ → String)
        (read : String → Option (List ℕ)) where
      pasted_image : String → String → Option (List ℕ) → Result PasteError PasteOutcome
      pasted_image mime_type extension none = ok nothing
      pasted_image mime_type extension (some bytes) = do
        image_checked (validate_pasted_bytes bytes mime_type)
        (width, height) ← dimensions_checked (measured (pasted_image_dimensions bytes mime_type))
        ok (staged (staged_image bytes extension width height mime_type))

      pasted_other : String → String → Option (List ℕ) → Result PasteError PasteOutcome
      unfolding matches_document_image stage_bytes
      pasted_other mime_type file_name none = ok nothing
      pasted_other mime_type file_name (some bytes) = do
        ensure (leb (length bytes) max_image_bytes) pasted_too_large
        ensure (matches_document_image bytes mime_type) not_such_image
        ok (staged (stage_bytes bytes file_name))

      paste_others : List String → List (String × String) → Result PasteError PasteOutcome
      unfolding pasted_other
      paste_others offered [] = ok nothing
      paste_others offered ((mime_type, file_name) ∷ types) =
          let later = paste_others offered types in
          if offers offered mime_type
          then pasted_other mime_type file_name (read mime_type)
          else later

      copied_path : List String → Option String
      copied_path offered =
          if offers offered "text/uri-list" then path_in (read "text/uri-list") else none
        where
          path_in : Option (List ℕ) → Option String
          path_in none = none
          path_in (some bytes) = first_copied_file percent_decode (from_utf8_lossy bytes)

      paste_copied : List String → Option String → Result PasteError PasteOutcome
      unfolding stage_local_file paste_others
      paste_copied offered (some path) = do f ← stage_local_file path; ok (staged f)
      paste_copied offered none = paste_others offered document_types

      paste_offered : List String → Option (String × String) → Result PasteError PasteOutcome
      unfolding pasted_image paste_copied copied_path
      paste_offered offered (some (mime_type, extension)) =
          pasted_image mime_type extension (read mime_type)
      paste_offered offered none = paste_copied offered (copied_path offered)

      -- `none` is that the clipboard could not be inspected.
      unfoldable pub paste_image_from_clipboard :
          Option (List String) → Result PasteError PasteOutcome
      unfolding paste_offered
      paste_image_from_clipboard none = ok nothing
      paste_image_from_clipboard (some offered) = paste_offered offered (pick_image_mime offered)
