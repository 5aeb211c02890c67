-- ===== src/Assets/Examples.antt =====
-- Tests of the cache, and the theorems at concrete names.
use omarchy_whatsapp.Prelude.{List, [], arith, not, refl, some, true, ℕ, ◌&&◌, ◌∷◌, ◌≡◌}
use omarchy_whatsapp.Prelude.Int.{pos}
use omarchy_whatsapp.Prelude.Bytes.{IsByte}
use omarchy_whatsapp.Prelude.Table.{All, delete_where, exists_where}
use omarchy_whatsapp.Assets.{
  ascii, avatar_name, message_name, remove_chat_media, remove_message_media, same_bytes, video,
}
use omarchy_whatsapp.Assets.Avatars.{
  decoded, fingerprint_jid, fingerprint_jid-avatar_name, is_utf8, panicked,
}
use omarchy_whatsapp.Assets.Removal.{is_cached, remove_message_media-exact}
use omarchy_whatsapp.Assets.Pruning.{
  CachedFile, IsPruned, is_temporary, prune_directory, prune_directory-IsPruned,
}

-- "a1" and "b"
abbrev chat_a : List ℕ
chat_a = ascii "a1"

abbrev chat_b : List ℕ
chat_b = ascii "b"

a_bytes : All IsByte chat_a
a_bytes = (omega arith, (omega arith, tt))

b_bytes : All IsByte chat_b
b_bytes = (omega arith, tt)

abbrev two_videos : List (List ℕ)
two_videos =
    message_name (video (ascii ".mp4")) chat_a chat_b ∷ message_name (video []) chat_b chat_b ∷ []

one_video_left : remove_chat_media chat_a two_videos ≡ message_name (video []) chat_b chat_b ∷ []
unfolding remove_chat_media
one_video_left = refl

remove_message_media-exact_example :
    is_cached
      (message_name (video (ascii ".mp4")) chat_a chat_b)
      (remove_message_media chat_a chat_b two_videos)
    ≡ (is_cached (message_name (video (ascii ".mp4")) chat_a chat_b) two_videos
        && not (same_bytes chat_a chat_a && same_bytes chat_b chat_b))
remove_message_media-exact_example =
    remove_message_media-exact (video (ascii ".mp4")) chat_a chat_b chat_a chat_b two_videos a_bytes
      b_bytes a_bytes b_bytes

utf8_a : is_utf8 chat_a ≡ true
unfolding is_utf8
utf8_a = refl

fingerprint_jid-avatar_name_example : fingerprint_jid (avatar_name chat_a) ≡ decoded chat_a
fingerprint_jid-avatar_name_example = fingerprint_jid-avatar_name chat_a a_bytes utf8_a refl

-- A name of three bytes of which the last two are one character, and another byte.
cut_character : fingerprint_jid (0x61 ∷ 0xc3 ∷ 0xa9 ∷ 0x62 ∷ ascii ".img") ≡ panicked
unfolding fingerprint_jid
cut_character = refl

abbrev three_files : List CachedFile
three_files =
    record { name = chat_a; size = 5; modified = some (pos 1) }
    ∷ record { name = chat_b; size = 4; modified = some (pos 3) }
    ∷ record { name = ascii "c.tmp-1"; size = 9; modified = some (pos 2) }
    ∷ []

oldest_goes :
    delete_where is_temporary (prune_directory 6 chat_b three_files)
    ≡ record { name = chat_b; size = 4; modified = some (pos 3) } ∷ []
unfolding prune_directory
oldest_goes = refl

prune_directory-IsPruned_example :
    IsPruned 6 chat_b (delete_where is_temporary (prune_directory 6 chat_b three_files))
    × (exists_where (λ f. same_bytes f.name chat_b) (prune_directory 6 chat_b three_files)
        ≡ exists_where (λ f. same_bytes f.name chat_b) three_files)
prune_directory-IsPruned_example = prune_directory-IsPruned 6 chat_b three_files
