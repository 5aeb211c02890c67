-- ===== src/Database/Names.antt =====
-- The names of contacts and chats (update_contact_name_into and its callers, update_group_name, contact_name and
-- insert_history_chat_into in crates/daemon/src/database.rs).
pub mod AddressBook
pub mod Examples
use omarchy_whatsapp.Prelude.{
  Bool, List, Option, String, [], eqb, false, if◌then◌else◌, is_some, leb, ltb, none, not, some,
  true, ℕ, ◌&&◌, ◌==◌, ◌||◌, ◌∷◌,
}
use omarchy_whatsapp.Prelude.Int.{max_ℤ, ℤ}
use omarchy_whatsapp.Prelude.Table.{exists_where, find_where, update_where, upsert}
use omarchy_whatsapp.Prelude.Trim.{is_empty, trim}
use omarchy_whatsapp.Database.{
  ChatRow, ContactRow, Database, MessageRow, SettingsRow, chat_is, chat_name_address_book,
  chat_name_group_metadata, chat_name_history, chat_name_message, chat_name_unknown, settings_of,
}

abbrev pub contact_is : String → ContactRow → Bool
contact_is jid c = c.jid == jid

-- A name of a better source is known.
abbrev pub is_outranked : Option ContactRow → ℕ → Bool
is_outranked none source = false
is_outranked (some c) source = ltb source c.source

abbrev pub chat_name_source : ℕ → ℕ
chat_name_source source = if ltb 0 source then chat_name_address_book else chat_name_message

abbrev pub name_contact : String → String → ℕ → List ContactRow → List ContactRow
name_contact jid name source =
    upsert (contact_is jid) (record { jid = jid; name = name; source = source })
      (λ c. record c { name = name; source = source })

-- jid = ?1 AND is_group = 0 AND name_source <= ?3
abbrev pub is_direct_below : String → ℕ → ChatRow → Bool
is_direct_below jid source r = r.jid == jid && (not r.is_group && leb r.name_source source)

-- jid = ?1 AND is_group = 1 AND (name != ?2 OR name_source != ?3)
abbrev pub is_group_named_otherwise : String → String → ChatRow → Bool
is_group_named_otherwise jid name r =
    r.jid == jid
    && (r.is_group && (not (r.name == name) || not (eqb r.name_source chat_name_group_metadata)))

-- The columns of a chat that its history writes.
pub record HistoryChat : Type 0 where
  pub jid : String
  pub name : String
  pub last_message : String
  pub last_timestamp : ℤ
  pub unread : ℕ
  pub is_group : Bool

pub history_name : HistoryChat → String × ℕ
unfolding trim
history_name chat =
    let candidate = trim chat.name in
    if is_empty candidate || candidate == chat.jid
    then ("", chat_name_unknown)
    else (candidate, chat_name_history)

-- MAX
abbrev later_source : ℕ → ℕ → ℕ
later_source a b = if ltb a b then b else a

abbrev pub history_row : HistoryChat → ChatRow
history_row chat = record {
  jid = chat.jid;
  name = (history_name chat).0;
  name_source = (history_name chat).1;
  last_message = chat.last_message;
  last_timestamp = chat.last_timestamp;
  unread = chat.unread;
  is_group = chat.is_group;
}

-- ON CONFLICT(jid) DO UPDATE SET name, name_source, last_timestamp, is_group
abbrev pub merge_history : HistoryChat → ChatRow → ChatRow
merge_history chat r = record r {
  name =
      if eqb r.name_source chat_name_unknown && ltb chat_name_unknown (history_name chat).1
      then (history_name chat).0
      else r.name;
  name_source = later_source r.name_source (history_name chat).1;
  last_timestamp = max_ℤ r.last_timestamp chat.last_timestamp;
  is_group = chat.is_group;
}

abbrev pub name_of : Option ContactRow → Option String
name_of none = none
name_of (some c) = some c.name

module _ {T : Type 0} where
  abbrev pub is_suppressed : Option (SettingsRow T) → Bool
  is_suppressed none = false
  is_suppressed (some s) = s.deleted

  unfoldable pub update_contact_name_into : String → String → ℕ → Database T → Database T × Bool
  unfolding trim
  update_contact_name_into jid name source db =
      if is_empty (trim name) || is_outranked (find_where (contact_is jid) db.contacts) source
      then (db, false)
      else (
        record db {
          contacts = name_contact jid (trim name) source db.contacts;
          chats =
              update_where (is_direct_below jid (chat_name_source source))
                (λ r. record r { name = trim name; name_source = chat_name_source source })
                db.chats;
          messages =
              update_where (λ m. m.sender_jid == jid) (λ m. record m { sender_name = trim name })
                db.messages;
        },
        true,
      )

  abbrev pub update_contact_name : String → String → Database T → Database T × Bool
  update_contact_name jid name = update_contact_name_into jid name 0

  abbrev pub update_address_book_name : String → String → Database T → Database T × Bool
  update_address_book_name jid name = update_contact_name_into jid name 1

  unfoldable pub update_group_name : String → String → Database T → Database T × Bool
  update_group_name jid name db = if is_empty (trim name) then (db, false) else (
    record db {
      chats =
          update_where (is_group_named_otherwise jid (trim name))
            (λ r. record r { name = trim name; name_source = chat_name_group_metadata }) db.chats;
    },
    exists_where (is_group_named_otherwise jid (trim name)) db.chats,
  )

  abbrev pub contact_name : String → Database T → Option String
  contact_name jid db = name_of (find_where (contact_is jid) db.contacts)

  unfoldable pub insert_history_chat_into : HistoryChat → Database T → Database T
  insert_history_chat_into chat db =
      if is_suppressed (find_where (settings_of chat.jid) db.settings) then db else record db {
        chats = upsert (chat_is chat.jid) (history_row chat) (merge_history chat) db.chats;
      }
