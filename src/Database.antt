-- ===== src/Database.antt =====
-- The history database (crates/daemon/src/database.rs): its tables as lists of rows in rowid order.
-- `T` is a stored JSON text. A column that the modelled statements neither read nor write is left out.
pub mod ReadQueue
pub mod Insert
pub mod Unread
pub mod Retention
pub mod ReadState
pub mod Removal
pub mod History
pub mod Reactions
pub mod Receipts
pub mod Polls
pub mod Settings
pub mod Names
pub mod Examples
pub mod EventExamples
pub mod PollExamples
use omarchy_whatsapp.Prelude.{Bool, List, Option, String, false, none, not, ℕ, ◌&&◌, ◌==◌}
use omarchy_whatsapp.Prelude.Int.{pos, ℤ}
use omarchy_whatsapp.Prelude.Json.{Json}
use omarchy_whatsapp.Protocol.{MessageMedia, MessageQuote}

-- The table chats.
pub record ChatRow : Type 0 where
  pub jid : String
  pub name : String
  pub name_source : ℕ
  pub last_message : String
  pub last_timestamp : ℤ
  pub unread : ℕ
  pub is_group : Bool

-- The table messages; its primary key is the chat, the sender and the ID.
pub record MessageRow (T : Type 0) : Type 0 where
  pub chat_jid : String
  pub id : String
  pub sender_jid : String
  pub sender_name : String
  pub text : String
  pub timestamp : ℤ
  pub from_me : Bool
  pub read : Bool
  pub receipt : ℕ
  pub delivered_at : Option ℤ
  pub receipt_read_at : Option ℤ
  pub media_json : Option T
  pub quote_json : Option T

-- The table chat_settings. `none` is SQL's NULL.
pub record SettingsRow (T : Type 0) : Type 0 where
  pub jid : String
  pub pinned : Option Bool
  pub pinned_updated_at : ℤ
  pub archived : Option Bool
  pub archived_updated_at : ℤ
  pub muted : Option Bool
  pub mute_end : Option ℤ
  pub mute_updated_at : ℤ
  pub read_state : Option Bool
  pub read_state_updated_at : ℤ
  pub explicit_unread : Bool
  pub deleted : Bool
  pub cleared_at : ℤ
  pub read_boundary : ℤ
  pub read_boundary_ids : Option T

-- The tables message_tombstones and poll_secrets, as far as they are keyed, and message_reads.
pub record MessageKey : Type 0 where
  pub chat_jid : String
  pub id : String

pub record ReadRow : Type 0 where
  pub chat_jid : String
  pub message_id : String
  pub reader_jid : String
  pub read_at : ℤ
  pub delivered_at : ℤ

pub record ContactRow : Type 0 where
  pub jid : String
  pub name : String
  pub source : ℕ

pub record ReactionRow : Type 0 where
  pub chat_jid : String
  pub message_id : String
  pub reactor_jid : String
  pub emoji : String
  pub from_me : Bool
  pub timestamp : ℤ

pub record ReactionTombstone : Type 0 where
  pub chat_jid : String
  pub message_id : String
  pub reactor_jid : String
  pub timestamp : ℤ

pub record PollSecretRow : Type 0 where
  pub chat_jid : String
  pub message_id : String
  pub creator_jid : String
  pub message_secret : List ℕ

pub record PollVoteRow (T : Type 0) : Type 0 where
  pub chat_jid : String
  pub message_id : String
  pub voter_jid : String
  pub selected_options : T
  pub from_me : Bool
  pub timestamp : ℤ

pub record PendingReadChat : Type 0 where
  pub chat_jid : String
  pub created_at : ℤ

pub record PendingReadMessage : Type 0 where
  pub chat_jid : String
  pub message_id : String
  pub sender_jid : String
  pub is_group : Bool

pub record UnreadReceipt : Type 0 where
  pub message_id : String
  pub sender_jid : String
  pub is_group : Bool

pub record Database (T : Type 0) : Type 0 where
  pub chats : List ChatRow
  pub messages : List (MessageRow T)
  pub settings : List (SettingsRow T)
  pub message_tombstones : List MessageKey
  pub message_reads : List ReadRow
  pub contacts : List ContactRow
  pub reactions : List ReactionRow
  pub reaction_tombstones : List ReactionTombstone
  pub poll_secrets : List PollSecretRow
  pub poll_votes : List (PollVoteRow T)
  pub pending_read_chats : List PendingReadChat
  pub pending_read_messages : List PendingReadMessage

-- A row of chat_settings as `INSERT INTO chat_settings (jid)` fills it in.
abbrev pub new_settings : {T : Type 0} → String → SettingsRow T
new_settings jid = record {
  jid = jid;
  pinned = none;
  pinned_updated_at = pos 0;
  archived = none;
  archived_updated_at = pos 0;
  muted = none;
  mute_end = none;
  mute_updated_at = pos 0;
  read_state = none;
  read_state_updated_at = pos 0;
  explicit_unread = false;
  deleted = false;
  cleared_at = pos 0;
  read_boundary = pos 0;
  read_boundary_ids = none;
}

-- The JSON codecs that the database uses.
pub record Codecs (T : Type 0) : Type 0 where
  pub media : Json MessageMedia T
  pub quote : Json MessageQuote T
  pub ids : Json (List String) T

abbrev pub chat_is : String → ChatRow → Bool
chat_is c r = r.jid == c

abbrev pub settings_of : {T : Type 0} → String → SettingsRow T → Bool
settings_of c r = r.jid == c

abbrev pub in_chat : {T : Type 0} → String → MessageRow T → Bool
in_chat c m = m.chat_jid == c

-- chat_jid = c AND from_me = 0 AND read = 0
abbrev pub is_unread : {T : Type 0} → String → MessageRow T → Bool
is_unread c m = m.chat_jid == c && (not m.from_me && not m.read)

-- The primary key of messages.
abbrev pub same_key : {T : Type 0} → MessageRow T → MessageRow T → Bool
same_key a b = a.chat_jid == b.chat_jid && (a.sender_jid == b.sender_jid && a.id == b.id)

abbrev pub chat_name_unknown : ℕ
chat_name_unknown = 0

abbrev pub chat_name_history : ℕ
chat_name_history = 10

abbrev pub chat_name_message : ℕ
chat_name_message = 20

abbrev pub chat_name_group_metadata : ℕ
chat_name_group_metadata = 30

abbrev pub chat_name_address_book : ℕ
chat_name_address_book = 40
