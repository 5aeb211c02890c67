-- ===== src/Database/Insert.antt =====
-- How a message enters the history (Database::insert_message_into, insert_message_inner and
-- prune_chat_history in crates/daemon/src/database.rs).
use omarchy_whatsapp.Prelude.{
  Bool, List, Option, String, [], contains, eqb, false, if◌then◌else◌, none, not, refl, some, true,
  ℕ, ◌&&◌, ◌++◌, ◌+◌, ◌==◌, ◌||◌, ◌∷◌, ◌≡◌,
}
use omarchy_whatsapp.Prelude.Int.{leb_ℤ, ltb_ℤ, max_ℤ, pos, ℤ}
use omarchy_whatsapp.Prelude.Table.{delete_where, exists_where, find_where, update_where, upsert}
use omarchy_whatsapp.Prelude.Trim.{trim}
use omarchy_whatsapp.Prelude.Newest.{keep_newest}
use omarchy_whatsapp.Prelude.Json.{JsonLaws}
use omarchy_whatsapp.Protocol.{Message, MessageMedia, MessageQuote}
use omarchy_whatsapp.Database.{
  ChatRow, Codecs, ContactRow, Database, MessageKey, MessageRow, SettingsRow, UnreadReceipt,
  chat_is, chat_name_history, chat_name_message, chat_name_unknown, in_chat, new_settings, same_key,
  settings_of,
}
use omarchy_whatsapp.Database.ReadQueue.{queue_chat, queue_receipt}

pub record MessageInsert : Type 0 where
  pub message : Message
  pub chat_name : String
  pub is_group : Bool
  pub increment_unread : Bool
  pub from_history : Bool
  pub read_intent : Option UnreadReceipt

-- The most messages of a chat that are kept.
abbrev pub retention : ℕ
retention = 1000

-- The name that the message suggests for its chat, and where it comes from.
pub candidate_name : MessageInsert → String × ℕ
unfolding trim
candidate_name i =
    let candidate = trim i.chat_name in
    if candidate == "" || candidate == i.message.chat_jid
    then ("", chat_name_unknown)
    else if i.from_history
    then (candidate, chat_name_history)
    else (candidate, chat_name_message)

abbrev pub tombstone_is : String → String → MessageKey → Bool
tombstone_is c id r = r.chat_jid == c && r.id == id

sender_name_of : Option ContactRow → String → String
sender_name_of none name = name
sender_name_of (some r) name = r.name

-- The row of chats that a first message inserts.
unfoldable pub new_chat : MessageInsert → ChatRow
unfolding candidate_name
new_chat i = record {
  jid = i.message.chat_jid;
  name = (candidate_name i).0;
  name_source = (candidate_name i).1;
  last_message = i.message.text;
  last_timestamp = i.message.timestamp;
  unread = 0;
  is_group = i.is_group;
}

-- ON CONFLICT(jid) DO UPDATE SET last_message, last_timestamp, is_group
unfoldable pub touch_chat : MessageInsert → ChatRow → ChatRow
touch_chat i r = record r {
  last_message =
      if leb_ℤ r.last_timestamp i.message.timestamp then i.message.text else r.last_message;
  last_timestamp = max_ℤ r.last_timestamp i.message.timestamp;
  is_group = i.is_group;
}

abbrev pub bump : ChatRow → ChatRow
bump r = record r { unread = r.unread + 1 }

module _ {T : Type 0} where
  unfoldable pub cleared : Option (SettingsRow T) → ℤ → Bool
  cleared none timestamp = false
  cleared (some s) timestamp = leb_ℤ timestamp s.cleared_at

  -- A tombstoned message, or one inside a cleared window, is dropped.
  unfoldable pub is_dropped : Message → Database T → Bool
  unfolding cleared
  is_dropped m db =
      exists_where (tombstone_is m.chat_jid m.id) db.message_tombstones
      || cleared (find_where (settings_of m.chat_jid) db.settings) m.timestamp

  -- A live message brings a deleted chat back.
  unfoldable pub revive : MessageInsert → Database T → Database T
  revive i db = if i.from_history then db else record db {
    settings =
        if exists_where (settings_of i.message.chat_jid) db.settings
        then update_where
            (λ s. s.jid == i.message.chat_jid && ltb_ℤ s.cleared_at i.message.timestamp)
            (λ s. record s { deleted = false }) db.settings
        else (db.settings ++ new_settings i.message.chat_jid ∷ []);
  }

  unfoldable pub upsert_chat : MessageInsert → Database T → Database T
  upsert_chat i db = record db {
    chats = upsert (chat_is i.message.chat_jid) (new_chat i) (touch_chat i) db.chats;
  }

  -- UPDATE chats SET unread = unread + 1 WHERE jid = c
  unfoldable pub bump_unread : String → Database T → Database T
  bump_unread c db = record db { chats = update_where (chat_is c) bump db.chats }

  unfoldable pub queue_intent : MessageInsert → Option UnreadReceipt → Database T → Database T
  queue_intent i none db = db
  queue_intent i (some receipt) db =
      queue_receipt i.message.chat_jid receipt
        (queue_chat i.message.chat_jid i.message.timestamp db)

  -- Keep the newest messages of the chat, and forget what belonged to the others.
  unfoldable pub prune_chat_history : String → Database T → Database T
  prune_chat_history c db =
      let kept = keep_newest (λ m. m.timestamp) same_key retention (in_chat c) db.messages in
      let gone = λ (id : String). not (exists_where (λ m. m.chat_jid == c && m.id == id) kept) in
      record db {
        messages = kept;
        poll_votes = delete_where (λ v. v.chat_jid == c && gone v.message_id) db.poll_votes;
        poll_secrets = delete_where (λ s. s.chat_jid == c && gone s.message_id) db.poll_secrets;
        message_reads = delete_where (λ r. r.chat_jid == c && gone r.message_id) db.message_reads;
      }

module _ {T : Type 0} (codecs : Codecs T) where
  pub parsed_ids : Option (List String) → List String
  parsed_ids none = []
  parsed_ids (some ids) = ids

  -- A column that is NULL or does not parse covers no message.
  pub read_boundary_ids : Option T → List String
  unfolding parsed_ids
  read_boundary_ids none = []
  read_boundary_ids (some text) = parsed_ids (codecs.ids.from_str text)

  pub read_boundary_ids-none : read_boundary_ids none ≡ []
  unfolding read_boundary_ids
  read_boundary_ids-none = refl

  pub read_boundary_ids-printed :
      JsonLaws codecs.ids
      → (ids : List String) → read_boundary_ids (some (codecs.ids.to_string ids)) ≡ ids
  unfolding read_boundary_ids parsed_ids
  read_boundary_ids-printed laws ids = rw (laws.round_trip ids) refl

  unfoldable pub covered : Option (SettingsRow T) → ℤ → String → Bool
  unfolding read_boundary_ids
  covered none timestamp id = leb_ℤ timestamp (pos 0)
  covered (some s) timestamp id =
      leb_ℤ timestamp s.read_boundary || contains id (read_boundary_ids s.read_boundary_ids)

  print_media : Option MessageMedia → Option T
  print_media none = none
  print_media (some m) = some (codecs.media.to_string m)

  print_quote : Option MessageQuote → Option T
  print_quote none = none
  print_quote (some q) = some (codecs.quote.to_string q)

  unfoldable pub new_message : MessageInsert → Bool → Database T → MessageRow T
  unfolding print_media print_quote sender_name_of
  new_message i unread db = record {
    chat_jid = i.message.chat_jid;
    id = i.message.id;
    sender_jid = i.message.sender_jid;
    sender_name =
        sender_name_of
          (find_where (λ c. c.jid == i.message.sender_jid && eqb c.source 1) db.contacts)
          i.message.sender_name;
    text = i.message.text;
    timestamp = i.message.timestamp;
    from_me = i.message.from_me;
    read = not unread;
    receipt = i.message.receipt;
    delivered_at = i.message.delivered_at;
    receipt_read_at = i.message.read_at;
    media_json = print_media i.message.media;
    quote_json = print_quote i.message.quote;
  }

  -- Whether the message counts as unread, by the chat's read boundary.
  unfoldable pub counts_unread : MessageInsert → Database T → Bool
  unfolding covered
  counts_unread i db =
      i.increment_unread
      && not (
          covered (find_where (settings_of i.message.chat_jid) db.settings) i.message.timestamp
            i.message.id)

  -- INSERT OR IGNORE INTO messages, and the chat's counter.
  unfoldable pub store : MessageInsert → Bool → Database T → Database T × Bool
  unfolding new_message bump_unread
  store i unread db =
      let row = new_message i unread db in
      if exists_where (same_key row) db.messages
      then (db, false)
      else if unread
      then (bump_unread i.message.chat_jid (record db { messages = db.messages ++ row ∷ [] }), true)
      else (record db { messages = db.messages ++ row ∷ [] }, true)

  unfoldable pub absorb : MessageInsert → Database T → Database T × Bool
  unfolding counts_unread store queue_intent
  absorb i db =
      let (db', inserted) = store i (counts_unread i db) db in
      (queue_intent i i.read_intent db', inserted)

  unfoldable pub insert_message_into : MessageInsert → Database T → Database T × Bool
  unfolding is_dropped revive upsert_chat absorb
  insert_message_into i db =
      if is_dropped i.message db then (db, false) else absorb i (upsert_chat i (revive i db))

  unfoldable pub insert_message_inner : MessageInsert → Database T → Database T × Bool
  unfolding insert_message_into prune_chat_history
  insert_message_inner i db =
      let (db', inserted) = insert_message_into i db in
      (prune_chat_history i.message.chat_jid db', inserted)

  unfoldable pub insert_message : Message → String → Bool → Bool → Database T → Database T × Bool
  unfolding insert_message_inner
  insert_message m chat_name is_group increment_unread db =
      insert_message_inner
        (record {
          message = m;
          chat_name = chat_name;
          is_group = is_group;
          increment_unread = increment_unread;
          from_history = false;
          read_intent = none;
        })
        db

  pub insert_message_with_read_intent :
      Message → String → Bool → UnreadReceipt → Database T → Database T × Bool
  unfolding insert_message_inner
  insert_message_with_read_intent m chat_name is_group receipt db =
      insert_message_inner
        (record {
          message = m;
          chat_name = chat_name;
          is_group = is_group;
          increment_unread = false;
          from_history = false;
          read_intent = some receipt;
        })
        db
