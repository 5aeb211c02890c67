-- ===== src/Protocol.antt =====
-- The wire types of crates/protocol/src/lib.rs that the daemon's modelled parts use.
use omarchy_whatsapp.Prelude.{Bool, List, Option, String, ℕ}
use omarchy_whatsapp.Prelude.Int.{ℤ}

pub record MessageQuote : Type 0 where
  pub message_id : String
  pub sender_jid : String
  pub sender_name : String
  pub text : String

pub record ReplyTarget : Type 0 where
  pub message_id : String
  pub sender_jid : String

pub data ChatState : Type 0 where
  typing recording paused : ChatState

pub record PollOption : Type 0 where
  pub name : String
  pub votes : ℕ
  pub selected_by_me : Bool
  pub voter_jids : List String

pub record Poll : Type 0 where
  pub question : String
  pub options : List PollOption
  pub selectable_count : ℕ
  pub total_voters : ℕ
  pub quiz : Bool
  pub correct_option_index : Option ℕ
  pub end_timestamp : ℤ

pub data MessageMedia : Type 0 where
  -- path, thumbnail_path, downloaded, mime_type, width, height
  image : String → String → Bool → String → ℕ → ℕ → MessageMedia
  -- path, thumbnail_path, downloaded, mime_type, width, height, animated, lottie, label
  sticker : String → String → Bool → String → ℕ → ℕ → Bool → Bool → String → MessageMedia
  -- path, thumbnail_path, downloaded, mime_type, width, height, duration_seconds, gif_playback
  video : String → String → Bool → String → ℕ → ℕ → ℕ → Bool → MessageMedia
  -- path, downloaded, mime_type, duration_seconds, voice_message
  audio : String → Bool → String → ℕ → Bool → MessageMedia
  -- path, file_name, mime_type, file_size, page_count
  document : String → String → String → ℕ → ℕ → MessageMedia
  -- latitude_e7, longitude_e7, accuracy_m, name, address, thumbnail_path, live, updated_at, duration
  location : ℤ → ℤ → ℕ → String → String → Option String → Bool → ℤ → ℕ → MessageMedia
  poll : Poll → MessageMedia

-- A message as the database takes it in; the reader lists are filled in on the way out.
pub record Message : Type 0 where
  pub id : String
  pub chat_jid : String
  pub sender_jid : String
  pub sender_name : String
  pub text : String
  pub timestamp : ℤ
  pub from_me : Bool
  pub receipt : ℕ
  pub delivered_at : Option ℤ
  pub read_at : Option ℤ
  pub media : Option MessageMedia
  pub quote : Option MessageQuote

pub data Command : Type 0 where
  get_state : Command
  list_chats : (limit : ℕ) → Command
  get_messages : (chat_jid : String) (limit : ℕ) → Command
  get_group_participants : (chat_jid : String) → Command
  send_message :
      (chat_jid text delivery_id : String) (mentions : List String) (reply_to : Option ReplyTarget)
      → Command
  send_voice_message : (chat_jid recording_id : String) → Command
  paste_image : Command
  stage_file : (path : String) → Command
  send_image :
      (chat_jid path caption delivery_id : String) (mentions : List String)
      (reply_to : Option ReplyTarget)
      → Command
  send_document :
      (chat_jid path file_name caption delivery_id : String) (mentions : List String)
      (reply_to : Option ReplyTarget)
      → Command
  discard_voice_recording : (recording_id : String) → Command
  list_voice_outbox : Command
  list_text_outbox : Command
  retry_text_message : (delivery_id : String) → Command
  discard_text_message : (delivery_id : String) → Command
  create_poll :
      (chat_jid question : String) (options : List String) (selectable_count : ℕ)
      (correct_option_index : Option ℕ)
      → Command
  vote_poll : (chat_jid message_id : String) (selected_options : List String) → Command
  download_media : (chat_jid message_id : String) → Command
  react :
      (chat_jid message_id sender_jid : String) (target_from_me : Bool) (emoji : String) → Command
  mark_read : (chat_jid : String) → Command
  set_chat_pinned : (chat_jid : String) (pinned : Bool) → Command
  request_avatar : (jid : String) → Command
  list_avatars : Command
  set_active_chat : (chat_jid : Option String) → Command
  set_presence : (available : Bool) → Command
  set_chat_state : (chat_jid : String) (state : ChatState) → Command
  resync_chat_state : Command
  logout : Command
  ping : Command
