-- ===== src/Jobs/Examples.antt =====
-- Tests of the times and the keys of the daemon's jobs.
use omarchy_whatsapp.Jobs.{conflict_key, timeout}
use omarchy_whatsapp.Prelude.{none, refl, ◌≡◌}
use omarchy_whatsapp.Protocol.{
  discard_voice_recording, mark_read, ping, send_voice_message, set_chat_pinned,
}
use omarchy_whatsapp.Prelude.{false}

one_chat : conflict_key (mark_read "a") ≡ conflict_key (set_chat_pinned "a" false)
unfolding conflict_key
one_chat = refl

one_recording :
    conflict_key (send_voice_message "a" "r") ≡ conflict_key (discard_voice_recording "r")
unfolding conflict_key
one_recording = refl

no_key : conflict_key ping ≡ none
unfolding conflict_key
no_key = refl

media_time : timeout (send_voice_message "a" "r") ≡ 120
unfolding timeout
media_time = refl
