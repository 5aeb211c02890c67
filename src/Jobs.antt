-- ===== src/Jobs.antt =====
-- How the daemon schedules the commands of its clients (crates/daemon/src/jobs.rs): the time that a
-- command may take, and the key under which two of them exclude one another.
pub mod Examples
use Prim.Native.String.{String, ◌++◌}
use omarchy_whatsapp.Prelude.{Option, none, some, ℕ}
use omarchy_whatsapp.Protocol.{
  Command, create_poll, discard_text_message, discard_voice_recording, get_group_participants,
  logout, mark_read, react, resync_chat_state, retry_text_message, send_document, send_image,
  send_message, send_voice_message, set_active_chat, set_chat_pinned, set_chat_state, set_presence,
  vote_poll,
}

-- In seconds.
pub timeout : Command → ℕ
timeout (send_voice_message _ _) = 120
timeout (send_image _ _ _ _ _ _) = 120
timeout (send_document _ _ _ _ _ _ _) = 120
timeout (create_poll _ _ _ _ _) = 120
timeout (get_group_participants _) = 60
timeout _ = 30

pub conflict_key : Command → Option String
conflict_key (send_message chat _ _ _ _) = some ("chat:" ++ chat)
conflict_key (send_image chat _ _ _ _ _) = some ("chat:" ++ chat)
conflict_key (send_document chat _ _ _ _ _ _) = some ("chat:" ++ chat)
conflict_key (create_poll chat _ _ _ _) = some ("chat:" ++ chat)
conflict_key (vote_poll chat _ _) = some ("chat:" ++ chat)
conflict_key (react chat _ _ _ _) = some ("chat:" ++ chat)
conflict_key (mark_read chat) = some ("chat:" ++ chat)
conflict_key (set_chat_pinned chat _) = some ("chat:" ++ chat)
conflict_key (set_chat_state chat _) = some ("chat:" ++ chat)
conflict_key (send_voice_message _ clip) = some ("voice:" ++ clip)
conflict_key (discard_voice_recording clip) = some ("voice:" ++ clip)
conflict_key (retry_text_message delivery) = some ("text:" ++ delivery)
conflict_key (discard_text_message delivery) = some ("text:" ++ delivery)
conflict_key (set_active_chat _) = some "connection-intent"
conflict_key (set_presence _) = some "connection-intent"
conflict_key resync_chat_state = some "global-session"
conflict_key logout = some "global-session"
conflict_key _ = none
