-- ===== src/Database/Removal.antt =====
-- How messages leave the history: deleted and cleared chats, and deleted messages
-- (Database::delete_chat, clear_chat, delete_messages_through, refresh_chat_tail and delete_message
-- in crates/daemon/src/database.rs).
pub mod Counters
pub mod Windows
use omarchy_whatsapp.Prelude.{
  Bool, List, Option, String, [], false, if◌then◌else◌, none, not, some, true, unwrap_or, ◌&&◌,
  ◌++◌, ◌==◌, ◌∷◌,
}
use omarchy_whatsapp.Prelude.Int.{leb_ℤ, ltb_ℤ, max_ℤ, pos, ℤ}
use omarchy_whatsapp.Prelude.Table.{count_where, delete_where, exists_where, update_where, upsert}
use omarchy_whatsapp.Database.{
  ChatRow, Database, MessageRow, chat_is, in_chat, is_unread, new_settings, settings_of,
}
use omarchy_whatsapp.Database.Insert.{tombstone_is}
use omarchy_whatsapp.Database.ReadState.{message_is, settings_row, timestamp_of}

module _ {T : Type 0} where
  -- chat_jid = c AND timestamp <= t
  abbrev pub through : String → ℤ → MessageRow T → Bool
  through c t m = in_chat c m && leb_ℤ m.timestamp t

  -- message_id IN (SELECT id FROM messages WHERE chat_jid = c AND timestamp <= t)
  abbrev pub goes : String → ℤ → List (MessageRow T) → String → Bool
  goes c t ms id = exists_where (λ m. through c t m && m.id == id) ms

  unfoldable pub delete_messages_through : String → ℤ → Database T → Database T
  delete_messages_through c t db = record db {
    poll_votes =
        delete_where (λ v. v.chat_jid == c && goes c t db.messages v.message_id) db.poll_votes;
    poll_secrets =
        delete_where (λ s. s.chat_jid == c && goes c t db.messages s.message_id) db.poll_secrets;
    message_reads =
        delete_where (λ r. r.chat_jid == c && goes c t db.messages r.message_id) db.message_reads;
    reactions =
        delete_where (λ r. r.chat_jid == c && goes c t db.messages r.message_id) db.reactions;
    messages = delete_where (through c t) db.messages;
  }

  later : MessageRow T → Option (MessageRow T) → Option (MessageRow T)
  later m none = some m
  later m (some n) = if leb_ℤ m.timestamp n.timestamp then some n else some m

  -- ORDER BY timestamp DESC, rowid DESC LIMIT 1
  pub last_message : String → List (MessageRow T) → Option (MessageRow T)
  unfolding later
  last_message c [] = none
  last_message c (m ∷ ms) =
      let rest = last_message c ms in if in_chat c m then later m rest else rest

  tail_text : Option (MessageRow T) → String
  tail_text none = ""
  tail_text (some m) = m.text

  unfoldable pub refresh_chat_tail : String → Database T → Database T
  unfolding last_message tail_text
  refresh_chat_tail c db = record db {
    chats =
        update_where (chat_is c)
          (λ r. record r {
            last_message = tail_text (last_message c db.messages);
            last_timestamp = unwrap_or (timestamp_of (last_message c db.messages)) (pos 0);
            unread = count_where (is_unread c) db.messages;
          })
          db.chats;
  }

  -- The chat row goes with its last message.
  unfoldable pub settle_chat : String → Bool → Database T → Database T
  unfolding refresh_chat_tail
  settle_chat c true db = refresh_chat_tail c db
  settle_chat c false db = record db { chats = delete_where (chat_is c) db.chats }

  unfoldable pub delete_chat : String → ℤ → Database T → Database T
  unfolding delete_messages_through settle_chat
  delete_chat c t db =
      let db' = delete_messages_through c t db in
      let has_newer = exists_where (in_chat c) db'.messages in
      let db'' = settle_chat c has_newer db' in
      if ltb_ℤ t (settings_row c db.settings).cleared_at then db else record db'' {
        settings =
            upsert (settings_of c) (record (new_settings c) { deleted = true; cleared_at = t })
              (λ s. record s { deleted = not has_newer; cleared_at = max_ℤ s.cleared_at t })
              db''.settings;
      }

  unfoldable pub clear_chat : String → ℤ → Database T → Database T
  unfolding delete_messages_through refresh_chat_tail
  clear_chat c t db =
      let db' = refresh_chat_tail c (delete_messages_through c t db) in
      if ltb_ℤ t (settings_row c db.settings).cleared_at then db else record db' {
        settings =
            upsert (settings_of c)
              (record (new_settings c) {
                read_state = some true;
                explicit_unread = false;
                cleared_at = t;
              })
              (λ s. record s {
                read_state = some true;
                explicit_unread = false;
                cleared_at = max_ℤ s.cleared_at t;
              })
              db'.settings;
      }

  -- COALESCE of the tail of the chat: the timestamp stays where no message is left.
  tail_after : Option (MessageRow T) → ChatRow → ChatRow
  tail_after none r = record r { last_message = "" }
  tail_after (some m) r = record r { last_message = m.text; last_timestamp = m.timestamp }

  -- ORDER BY timestamp DESC LIMIT 1: among equal times the first row.
  pub newest_message : String → List (MessageRow T) → Option (MessageRow T)
  newest_message c [] = none
  newest_message c (m ∷ ms) =
      let rest = newest_message c ms in
      if in_chat c m
      then (elim rest [
        | none ↦ some m
        | some n ↦ if ltb_ℤ m.timestamp n.timestamp then some n else some m
      ])
      else rest

  unfoldable pub delete_message : String → String → Database T → Database T
  unfolding newest_message tail_after
  delete_message c id db =
      let left = delete_where (message_is c id) db.messages in
      record db {
        poll_votes = delete_where (λ v. v.chat_jid == c && v.message_id == id) db.poll_votes;
        poll_secrets = delete_where (λ s. s.chat_jid == c && s.message_id == id) db.poll_secrets;
        message_reads = delete_where (λ r. r.chat_jid == c && r.message_id == id) db.message_reads;
        messages = left;
        reactions = delete_where (λ r. r.chat_jid == c && r.message_id == id) db.reactions;
        message_tombstones =
            if exists_where (tombstone_is c id) db.message_tombstones
            then db.message_tombstones
            else db.message_tombstones ++ record { chat_jid = c; id = id } ∷ [];
        chats = update_where (chat_is c) (tail_after (newest_message c left)) db.chats;
      }
