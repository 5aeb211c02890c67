-- ===== src/Paste/Names.antt =====
-- The texts that staging reads: offered types, the names of files, and the list of copied files (offers,
-- pick_image_mime, first_copied_file, document_mime in crates/daemon/src/paste.rs).
use Prim.Native.Char.{Char, code}
use omarchy_whatsapp.Prelude.{
  Bool, List, Option, String, [], eqb, false, if◌then◌else◌, leb, none, some, true, unwrap_or, ℕ,
  ◌&&◌, ◌+◌, ◌||◌, ◌∷◌,
}
use omarchy_whatsapp.Prelude.Trim.{trim}

abbrev pub cons_first : Char → List String → List String
cons_first c [] = String.◌∷◌ c String.[] ∷ []
cons_first c (part ∷ parts) = String.◌∷◌ c part ∷ parts

-- str::split
abbrev pub split : ℕ → String → List String
split separator String.[] = String.[] ∷ []
split separator (String.◌∷◌ c s) =
    let parts = split separator s in
    if eqb (code c) separator then String.[] ∷ parts else cons_first c parts

abbrev first_of : List String → String
first_of [] = String.[]
first_of (part ∷ parts) = part

abbrev pub lower : ℕ → ℕ
lower c = if leb b'A' c && leb c b'Z' then c + 32 else c

-- str::eq_ignore_ascii_case
abbrev pub same_ignoring_case : String → String → Bool
same_ignoring_case String.[] String.[] = true
same_ignoring_case String.[] (String.◌∷◌ d t) = false
same_ignoring_case (String.◌∷◌ c s) String.[] = false
same_ignoring_case (String.◌∷◌ c s) (String.◌∷◌ d t) =
    eqb (lower (code c)) (lower (code d)) && same_ignoring_case s t

unfoldable pub offers : List String → String → Bool
offers [] mime_type = false
offers (candidate ∷ offered) mime_type =
    same_ignoring_case (trim (first_of (split b';' candidate))) mime_type
    || offers offered mime_type

unfoldable pub pick_image_mime : List String → Option (String × String)
unfolding offers
pick_image_mime offered =
    if offers offered "image/png"
    then some ("image/png", ".png")
    else if offers offered "image/jpeg"
    then some ("image/jpeg", ".jpg")
    else none

-- str::strip_prefix
abbrev pub strip_text : String → String → Option String
strip_text String.[] text = some text
strip_text (String.◌∷◌ p ps) String.[] = none
strip_text (String.◌∷◌ p ps) (String.◌∷◌ c s) =
    let rest = strip_text ps s in if eqb (code c) (code p) then rest else none

abbrev pub starts_with_hash : String → Bool
starts_with_hash String.[] = false
starts_with_hash (String.◌∷◌ c s) = eqb (code c) b'#'

abbrev or_else : Option String → Option String → Option String
or_else none b = b
or_else (some a) b = some a

-- percent_decode_str with decode_utf8 is a parameter.
module _ (percent_decode : String → Option String) where
  abbrev decoded_path : Option String → Option String
  decoded_path none = none
  decoded_path (some encoded) = percent_decode encoded

  abbrev pub line_path : String → Option String
  line_path line =
      if starts_with_hash line
      then none
      else decoded_path (or_else (strip_text "file://localhost/" line) (strip_text "file:///" line))

  abbrev with_root : Option String → Option String → Option String
  with_root none later = later
  with_root (some path) later = some (String.◌∷◌ "/" path)

  abbrev first_path : List String → Option String
  first_path [] = none
  first_path (line ∷ lines) = with_root (line_path (trim line)) (first_path lines)

  -- str::lines splits at line feeds; the carriage return before one is trimmed off with the rest.
  unfoldable pub first_copied_file : String → Option String
  first_copied_file uri_list = first_path (split b'\n' uri_list)

-- What stands behind the last dot, where something stands before it.
abbrev pub after_last_dot : String → Option String
after_last_dot String.[] = none
after_last_dot (String.◌∷◌ c s) =
    let rest = after_last_dot s in or_else rest (if eqb (code c) b'.' then some s else none)

-- Path::extension of a file name.
abbrev pub extension : String → String
extension String.[] = String.[]
extension (String.◌∷◌ c s) = unwrap_or (after_last_dot s) String.[]

abbrev mime_table : List (String × String)
mime_table =
    ("pdf", "application/pdf")
    ∷ ("txt", "text/plain")
    ∷ ("log", "text/plain")
    ∷ ("md", "text/plain")
    ∷ ("csv", "text/csv")
    ∷ ("json", "application/json")
    ∷ ("zip", "application/zip")
    ∷ ("doc", "application/msword")
    ∷ ("docx", "application/vnd.openxmlformats-officedocument.wordprocessingml.document")
    ∷ ("xls", "application/vnd.ms-excel")
    ∷ ("xlsx", "application/vnd.openxmlformats-officedocument.spreadsheetml.sheet")
    ∷ ("ppt", "application/vnd.ms-powerpoint")
    ∷ ("pptx", "application/vnd.openxmlformats-officedocument.presentationml.presentation")
    ∷ ("odt", "application/vnd.oasis.opendocument.text")
    ∷ ("ods", "application/vnd.oasis.opendocument.spreadsheet")
    ∷ ("gif", "image/gif")
    ∷ ("webp", "image/webp")
    ∷ ("heic", "image/heic")
    ∷ ("heif", "image/heif")
    ∷ ("mp3", "audio/mpeg")
    ∷ ("mp4", "video/mp4")
    ∷ []

-- The table is in small letters, so an extension in any case is looked up as it is in small ones.
abbrev mime_in : List (String × String) → String → String
mime_in [] extension_ = "application/octet-stream"
mime_in ((e, mime) ∷ table) extension_ =
    if same_ignoring_case extension_ e then mime else mime_in table extension_

unfoldable pub document_mime : String → String
document_mime file_name = mime_in mime_table (extension file_name)
