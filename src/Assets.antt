-- ===== src/Assets.antt =====
-- The names of cached files and what happens to the files (crates/daemon/src/assets.rs). A name and a jid are
-- their bytes, and a directory is the list of the names in it; reading and removing files succeed.
pub mod Keys
pub mod Avatars
pub mod Removal
pub mod Pruning
pub mod Examples
use Prim.Native.Char.{code}
use Prim.Native.String
use omarchy_whatsapp.Prelude.{
  Bool, List, Option, String, [], eqb, false, if◌then◌else◌, leb, length, ltb, none, not, some, suc,
  true, zero, ℕ, ◌&&◌, ◌%◌, ◌*◌, ◌+◌, ◌++◌, ◌-◌, ◌/◌, ◌||◌, ◌∷◌,
}
use omarchy_whatsapp.Prelude.Bytes.{starts_with}
use omarchy_whatsapp.Prelude.Table.{delete_where}

-- The bytes of a text in ASCII.
abbrev pub ascii : String → List ℕ
ascii String.[] = []
ascii (String.◌∷◌ c s) = code c ∷ ascii s

abbrev pub same_bytes : List ℕ → List ℕ → Bool
same_bytes [] [] = true
same_bytes [] (y ∷ ys) = false
same_bytes (x ∷ xs) [] = false
same_bytes (x ∷ xs) (y ∷ ys) = eqb x y && same_bytes xs ys

abbrev pub hex_digit : ℕ → ℕ
hex_digit n = if ltb n 10 then n + b'0' else n + 87

abbrev pub hex_key : List ℕ → List ℕ
hex_key [] = []
hex_key (b ∷ bytes) = hex_digit (b / 16) ∷ hex_digit (b % 16) ∷ hex_key bytes

abbrev pub avatar_name : List ℕ → List ℕ
avatar_name jid = hex_key jid ++ ascii ".img"

abbrev pub avatar_missing_name : List ℕ → List ℕ
avatar_missing_name jid = hex_key jid ++ ascii ".none"

-- The files of a message; the arguments are what stands behind the kind: the extension with its dot, or nothing.
pub data Kind : Type 0 where
  image image_thumbnail sticker sticker_thumbnail video_thumbnail location : Kind
  video audio document : List ℕ → Kind

abbrev pub suffix_of : Kind → List ℕ
suffix_of image = ascii "img"
suffix_of image_thumbnail = ascii "thumbnail.jpg"
suffix_of sticker = ascii "sticker.webp"
suffix_of sticker_thumbnail = ascii "sticker-thumbnail.png"
suffix_of video_thumbnail = ascii "video-thumbnail.jpg"
suffix_of location = ascii "location.jpg"
suffix_of (video extension) = ascii "video" ++ extension
suffix_of (audio extension) = ascii "audio" ++ extension
suffix_of (document extension) = ascii "document" ++ extension

abbrev pub message_stem : List ℕ → List ℕ → List ℕ → List ℕ
message_stem chat_jid message_id rest =
    hex_key chat_jid ++ b'-' ∷ (hex_key message_id ++ b'.' ∷ rest)

abbrev pub message_name : Kind → List ℕ → List ℕ → List ℕ
message_name kind chat_jid message_id = message_stem chat_jid message_id (suffix_of kind)

-- remove_file; a file that is not there is no error.
abbrev pub remove_file : List ℕ → List (List ℕ) → List (List ℕ)
remove_file name = delete_where (same_bytes name)

-- The six files whose names are known, and the test on the names of the others.
abbrev pub remove_fixed : List ℕ → List ℕ → List (List ℕ) → List (List ℕ)
remove_fixed chat_jid message_id files = remove_file (message_name location chat_jid message_id) (
    remove_file (message_name sticker_thumbnail chat_jid message_id) (
      remove_file (message_name sticker chat_jid message_id) (
        remove_file (message_name video_thumbnail chat_jid message_id) (
          remove_file (message_name image_thumbnail chat_jid message_id)
            (remove_file (message_name image chat_jid message_id) files)))))

abbrev pub has_prefix : List ℕ → List ℕ → List ℕ → Bool
has_prefix chat_jid message_id name =
    starts_with (message_name (document []) chat_jid message_id) name
    || (starts_with (message_name (video []) chat_jid message_id) name
        || starts_with (message_name (audio []) chat_jid message_id) name)

unfoldable pub remove_message_media : List ℕ → List ℕ → List (List ℕ) → List (List ℕ)
remove_message_media chat_jid message_id files =
    delete_where (has_prefix chat_jid message_id) (remove_fixed chat_jid message_id files)

unfoldable pub remove_chat_media : List ℕ → List (List ℕ) → List (List ℕ)
remove_chat_media chat_jid = delete_where (starts_with (hex_key chat_jid ++ b'-' ∷ []))

unfoldable pub remove_avatar : List ℕ → List (List ℕ) → List (List ℕ)
remove_avatar jid files =
    remove_file (avatar_missing_name jid) (remove_file (avatar_name jid) files)
