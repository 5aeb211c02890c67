-- ===== src/Assets/Removal.antt =====
-- Which files remove_message_media and remove_chat_media leave (crates/daemon/src/assets.rs).
use omarchy_whatsapp.Prelude.{
  Bool, Bool-cases, List, [], ap, arith, inl, inr, not, refl, true, ℕ, ◌&&◌, ◌++◌, ◌||◌, ◌∙◌, ◌∷◌,
  ◌≡◌,
}
use omarchy_whatsapp.Prelude.Bytes.{IsByte, starts_with}
use omarchy_whatsapp.Prelude.Table.{All, delete_where, exists_where}
use omarchy_whatsapp.Assets.Keys.{same_bytes_key, starts_with_key}
use omarchy_whatsapp.Assets.{
  Kind, audio, document, has_prefix, hex_key, image, image_thumbnail, location, message_name,
  message_stem, remove_chat_media, remove_file, remove_fixed, remove_message_media, same_bytes,
  sticker, sticker_thumbnail, suffix_of, video, video_thumbnail,
}

abbrev pub is_cached : List ℕ → List (List ℕ) → Bool
is_cached name = exists_where (same_bytes name)

same_bytes_refl : (x : List ℕ) → same_bytes x x ≡ true
same_bytes_refl [] = refl
same_bytes_refl (b ∷ x) = ground (arith, same_bytes_refl x)

same_bytes_eq : (x y : List ℕ) → same_bytes x y ≡ true → x ≡ y
same_bytes_eq [] [] h = refl
same_bytes_eq [] (b ∷ y) h = cc
same_bytes_eq (a ∷ x) [] h = cc
same_bytes_eq (a ∷ x) (b ∷ y) h =
    let rest : x ≡ y = same_bytes_eq x y (ground arith) in
    let first : a ≡ b = ground arith in ground arith

-- A file is left by a delete unless its own name is asked for.
is_cached-delete :
    (p : List ℕ → Bool) (name : List ℕ) (files : List (List ℕ))
    → is_cached name (delete_where p files) ≡ (is_cached name files && not (p name))
is_cached-delete p name [] = refl
is_cached-delete p name (f ∷ files) = elim (Bool-cases (same_bytes name f)) [
  | inl same ↦
      let own : p name ≡ p f = ap p (same_bytes_eq name f same) in
      ground (arith, is_cached-delete p name files)
  | inr other ↦ ground (arith, is_cached-delete p name files)
]

-- After remove_chat_media no file of a message of the chat is left, and every file of a message of another chat
-- is there as before, whatever the jids and the IDs are.
pub remove_chat_media-exact :
    (kind : Kind) (chat_jid other_jid message_id : List ℕ) (files : List (List ℕ))
    → All IsByte chat_jid
    → All IsByte other_jid
    → is_cached (message_name kind other_jid message_id) (remove_chat_media chat_jid files) ≡ (
        is_cached (message_name kind other_jid message_id) files
        && not (same_bytes chat_jid other_jid))
unfolding remove_chat_media
remove_chat_media-exact kind chat_jid other_jid message_id files c o =
    is_cached-delete (starts_with (hex_key chat_jid ++ b'-' ∷ []))
      (message_name kind other_jid message_id) files
    ∙ ground (
      arith,
      starts_with_key b'-' chat_jid other_jid [] (hex_key message_id ++ b'.' ∷ suffix_of kind) c o
          (omega arith),
    )

-- The names of two messages agree only where the chat, the ID and the rest do.
module _ (chat_jid message_id other_jid other_id : List ℕ) (c : All IsByte chat_jid)
    (m : All IsByte message_id) (o : All IsByte other_jid) (i : All IsByte other_id) where
  abbrev same_message : Bool
  same_message = same_bytes chat_jid other_jid && same_bytes message_id other_id

  same_stem :
      (x y : List ℕ)
      → same_bytes (message_stem chat_jid message_id x) (message_stem other_jid other_id y)
        ≡ (same_message && same_bytes x y)
  same_stem x y =
      same_bytes_key b'-' chat_jid other_jid _ _ c o (omega arith)
      ∙ ground (arith, same_bytes_key b'.' message_id other_id x y m i (omega arith))

  starts_stem :
      (x y : List ℕ)
      → starts_with (message_stem chat_jid message_id x) (message_stem other_jid other_id y)
        ≡ (same_message && starts_with x y)
  starts_stem x y =
      starts_with_key b'-' chat_jid other_jid _ _ c o (omega arith)
      ∙ ground (arith, starts_with_key b'.' message_id other_id x y m i (omega arith))

  abbrev other_name : Kind → List ℕ
  other_name kind = message_name kind other_jid other_id

  is_cached-remove_file :
      (removed kind : Kind) (files : List (List ℕ)) (before : Bool)
      → is_cached (other_name kind) files ≡ before
      → is_cached (other_name kind) (remove_file (message_name removed chat_jid message_id) files)
        ≡ (before && not (same_message && same_bytes (suffix_of removed) (suffix_of kind)))
  is_cached-remove_file removed kind files before e =
      is_cached-delete (same_bytes (message_name removed chat_jid message_id)) (other_name kind)
        files
      ∙ ground (arith, e, same_stem (suffix_of removed) (suffix_of kind))

  -- The six names and the three prefixes between them reach every kind.
  each_kind :
      (kind : Kind) (before s : Bool)
      → (((((((before && not (s && same_bytes (suffix_of image) (suffix_of kind)))
                    && not (s && same_bytes (suffix_of image_thumbnail) (suffix_of kind)))
                  && not (s && same_bytes (suffix_of video_thumbnail) (suffix_of kind)))
                && not (s && same_bytes (suffix_of sticker) (suffix_of kind)))
              && not (s && same_bytes (suffix_of sticker_thumbnail) (suffix_of kind)))
            && not (s && same_bytes (suffix_of location) (suffix_of kind)))
          && not (
              (s && starts_with (suffix_of (document [])) (suffix_of kind))
              || ((s && starts_with (suffix_of (video [])) (suffix_of kind))
                  || (s && starts_with (suffix_of (audio [])) (suffix_of kind)))))
        ≡ (before && not s)
  each_kind image before s = ground arith
  each_kind image_thumbnail before s = ground arith
  each_kind sticker before s = ground arith
  each_kind sticker_thumbnail before s = ground arith
  each_kind video_thumbnail before s = ground arith
  each_kind location before s = ground arith
  each_kind (video extension) before s = ground arith
  each_kind (audio extension) before s = ground arith
  each_kind (document extension) before s = ground arith

-- After remove_message_media no file of the message is left, of whatever kind, and every file of another message
-- is there as before, in its chat or in another one.
pub remove_message_media-exact :
    (kind : Kind) (chat_jid message_id other_jid other_id : List ℕ) (files : List (List ℕ))
    → All IsByte chat_jid
    → All IsByte message_id
    → All IsByte other_jid
    → All IsByte other_id
    → is_cached
        (message_name kind other_jid other_id)
        (remove_message_media chat_jid message_id files)
      ≡ (is_cached (message_name kind other_jid other_id) files
          && not (same_bytes chat_jid other_jid && same_bytes message_id other_id))
unfolding remove_message_media
remove_message_media-exact kind chat_jid message_id other_jid other_id files c m o i =
    let remove = is_cached-remove_file chat_jid message_id other_jid other_id c m o i in
    let starts = starts_stem chat_jid message_id other_jid other_id c m o i in
    is_cached-delete (has_prefix chat_jid message_id) (message_name kind other_jid other_id)
      (remove_fixed chat_jid message_id files)
    ∙ rw
        (
          starts (suffix_of (document [])) (suffix_of kind),
          starts (suffix_of (video [])) (suffix_of kind),
          starts (suffix_of (audio [])) (suffix_of kind),
          remove location kind _ _ (
              remove sticker_thumbnail kind _ _ (
                remove sticker kind _ _ (
                  remove video_thumbnail kind _ _
                    (remove image_thumbnail kind _ _ (remove image kind files _ refl))))),
        )
        (each_kind chat_jid message_id other_jid other_id c m o i kind
          (is_cached (message_name kind other_jid other_id) files)
          (same_bytes chat_jid other_jid && same_bytes message_id other_id))
