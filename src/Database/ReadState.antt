-- ===== src/Database/ReadState.antt =====
-- How a chat is marked read: the read boundary (Database::apply_read_boundary, mark_read,
-- apply_read_state, apply_synced_read_state, apply_self_read_receipt and
-- reconcile_unread_after_full_sync in crates/daemon/src/database.rs).
pub mod Marks
pub mod Boundary
pub mod Counters
pub mod Late
use omarchy_whatsapp.Prelude.{
  Bool, List, Option, String, [], contains, drop, eqb, false, if◌then◌else◌, length, ltb, none, not,
  some, true, unwrap_or, ℕ, ◌&&◌, ◌++◌, ◌+◌, ◌-◌, ◌==◌, ◌||◌, ◌∷◌,
}
use omarchy_whatsapp.Prelude.Int.{eqb_ℤ, leb_ℤ, ltb_ℤ, max_opt, max_ℤ, pos, saturating_sub, ℤ}
use omarchy_whatsapp.Prelude.Table.{count_where, exists_where, find_where, update_where, upsert}
use omarchy_whatsapp.Database.{
  ChatRow, Codecs, Database, MessageRow, SettingsRow, chat_is, in_chat, is_unread, new_settings,
  settings_of,
}
use omarchy_whatsapp.Database.Insert.{covered, read_boundary_ids}

-- READ_BOUNDARY_IDS_CAP
abbrev pub read_boundary_ids_cap : ℕ
read_boundary_ids_cap = 256

abbrev pub message_is : {T : Type 0} → String → String → MessageRow T → Bool
message_is c id m = m.chat_jid == c && m.id == id

abbrev pub set_read : {T : Type 0} → MessageRow T → MessageRow T
set_read m = record m { read = true }

-- The IDs of the stored boundary, and then those of the new one that are not among them.
pub add_ids : List String → List String → List String
add_ids covered [] = covered
add_ids covered (id ∷ ids) =
    add_ids (if contains id covered then covered else covered ++ id ∷ []) ids

-- extra_ids.drain(..extra_ids.len() - cap)
pub keep_last : ℕ → List String → List String
keep_last cap xs = if ltb cap (length xs) then drop (length xs - cap) xs else xs

pub candidate_boundary : ℤ → List String → ℤ
candidate_boundary timestamp [] = timestamp
candidate_boundary timestamp (id ∷ ids) = saturating_sub timestamp (pos 1)

abbrev pub timestamp_of : {T : Type 0} → Option (MessageRow T) → Option ℤ
timestamp_of none = none
timestamp_of (some m) = some m.timestamp

later_than : ℤ → Option ℤ → Bool
later_than b none = true
later_than b (some t) = ltb_ℤ b t

changed_unread : Option ChatRow → ℕ → Bool
changed_unread none unread = false
changed_unread (some r) unread = not (eqb r.unread unread)

module _ {T : Type 0} where
  abbrev pub settings_row : String → List (SettingsRow T) → SettingsRow T
  settings_row c rows = unwrap_or (find_where (settings_of c) rows) (new_settings c)

  -- INSERT INTO chat_settings (jid) … ON CONFLICT(jid) DO NOTHING
  unfoldable pub ensure_settings : String → List (SettingsRow T) → List (SettingsRow T)
  ensure_settings c rows =
      if exists_where (settings_of c) rows then rows else rows ++ new_settings c ∷ []

  abbrev pub message_timestamp : String → String → List (MessageRow T) → Option ℤ
  message_timestamp c id rows = timestamp_of (find_where (message_is c id) rows)

  -- SELECT MAX(timestamp)
  pub maximum_message_timestamp : String → List (MessageRow T) → Option ℤ
  maximum_message_timestamp c [] = none
  maximum_message_timestamp c (m ∷ ms) =
      let rest = maximum_message_timestamp c ms in
      if in_chat c m then max_opt (some m.timestamp) rest else rest

  -- The IDs that the boundary's second does not cover; one that is not stored yet is kept.
  pub extra_ids : String → ℤ → List (MessageRow T) → List String → List String
  unfolding later_than
  extra_ids c b ms [] = []
  extra_ids c b ms (id ∷ ids) =
      let rest = extra_ids c b ms ids in
      if later_than b (message_timestamp c id ms) then id ∷ rest else rest

  abbrev pub is_covered_unread : String → ℤ → MessageRow T → Bool
  is_covered_unread c b m = is_unread c m && leb_ℤ m.timestamp b

  abbrev pub is_named_unread : String → String → MessageRow T → Bool
  is_named_unread c id m = message_is c id m && (not m.from_me && not m.read)

  -- The messages after the statements for the named ones, and how many rows they changed.
  pub mark_ids : String → List String → List (MessageRow T) → List (MessageRow T) × ℕ
  mark_ids c [] ms = (ms, 0)
  mark_ids c (id ∷ ids) ms =
      let rest = mark_ids c ids (update_where (is_named_unread c id) set_read ms) in
      (rest.0, count_where (is_named_unread c id) ms + rest.1)

  -- What the statement writes into the chat's settings.
  abbrev pub new_boundary : String → ℤ → List String → Database T → ℤ
  new_boundary c timestamp ids db =
      max_ℤ (settings_row c db.settings).read_boundary (candidate_boundary timestamp ids)

  -- read_state = 0, explicit_unread = 1
  unfoldable pub mark_unread : String → Database T → Database T × Bool
  mark_unread c db = (
    record db {
      settings =
          upsert (settings_of c)
            (record (new_settings c) { read_state = some false; explicit_unread = true })
            (λ s. record s { read_state = some false; explicit_unread = true }) db.settings;
    },
    not (settings_row c db.settings).explicit_unread,
  )

  -- The latest of the named messages that are stored.
  pub newest_named : String → List String → List (MessageRow T) → Option ℤ → Option ℤ
  newest_named c [] ms newest = newest
  newest_named c (id ∷ ids) ms newest =
      newest_named c ids ms (max_opt newest (message_timestamp c id ms))

  pub synced_boundary : String → Option ℤ → List String → ℤ → Database T → ℤ
  unfolding newest_named maximum_message_timestamp
  synced_boundary c (some boundary) ids event db = boundary
  synced_boundary c none [] event db = unwrap_or (maximum_message_timestamp c db.messages) event
  synced_boundary c none (id ∷ ids) event db =
      unwrap_or (newest_named c (id ∷ ids) db.messages none) event

  unfoldable pub stamp_read_state : String → ℤ → Database T → Database T
  stamp_read_state c event db = record db {
    settings =
        update_where (settings_of c) (λ s. record s { read_state_updated_at = event }) db.settings;
  }

  -- `complete` is what the session database says of the app state.
  unfoldable pub reconcile_unread_after_full_sync : Bool → Database T → Database T × ℕ
  reconcile_unread_after_full_sync complete db =
      let differs =
        λ (r : ChatRow). not (eqb r.unread (count_where (is_unread r.jid) db.messages)) in
      if complete
      then (
        record db {
          chats =
              update_where differs
                (λ r. record r { unread = count_where (is_unread r.jid) db.messages }) db.chats;
        },
        count_where differs db.chats,
      )
      else (db, 0)

module _ {T : Type 0} (codecs : Codecs T) where
  print_ids : List String → Option T
  print_ids [] = none
  print_ids (id ∷ ids) = some (codecs.ids.to_string (id ∷ ids))

  abbrev pub new_ids : String → ℤ → List String → Database T → List String
  new_ids c timestamp ids db = keep_last read_boundary_ids_cap (
      extra_ids c (new_boundary c timestamp ids db) db.messages
        (add_ids (read_boundary_ids codecs (settings_row c db.settings).read_boundary_ids) ids))

  abbrev pub marked_messages : String → ℤ → List String → Database T → List (MessageRow T) × ℕ
  marked_messages c timestamp ids db =
      mark_ids c ids
        (update_where (is_covered_unread c (new_boundary c timestamp ids db)) set_read db.messages)

  unfoldable pub apply_read_boundary : String → ℤ → List String → Database T → Database T × Bool
  unfolding ensure_settings add_ids keep_last candidate_boundary extra_ids mark_ids changed_unread
      print_ids
  apply_read_boundary c timestamp ids db =
      let old = settings_row c db.settings in
      let boundary = new_boundary c timestamp ids db in
      let extra = new_ids c timestamp ids db in
      let messages = (marked_messages c timestamp ids db).0 in
      let marked =
        count_where (is_covered_unread c boundary) db.messages
        + (marked_messages c timestamp ids db).1 in
      let unread = count_where (is_unread c) messages in
      (
        record db {
          settings =
              update_where (settings_of c)
                (λ s. record s {
                  read_boundary = boundary;
                  read_boundary_ids = print_ids extra;
                  read_state = some true;
                  explicit_unread = false;
                })
                (ensure_settings c db.settings);
          messages = messages;
          chats = update_where (chat_is c) (λ r. record r { unread = unread }) db.chats;
        },
        ltb 0 marked
            || (old.explicit_unread
                || (not (eqb_ℤ boundary old.read_boundary)
                    || changed_unread (find_where (chat_is c) db.chats) unread)),
      )

  unfoldable pub mark_read : String → Database T → Database T
  unfolding apply_read_boundary maximum_message_timestamp
  mark_read c db =
      (apply_read_boundary c (unwrap_or (maximum_message_timestamp c db.messages) (pos 0)) [] db).0

  unfoldable pub apply_read_state : String → Bool → Database T → Database T × Bool
  unfolding apply_read_boundary mark_unread maximum_message_timestamp
  apply_read_state c true db =
      apply_read_boundary c (unwrap_or (maximum_message_timestamp c db.messages) (pos 0)) [] db
  apply_read_state c false db = mark_unread c db

  unfoldable pub apply_synced_read_state :
      String → Bool → Option ℤ → List String → ℤ → Database T → Database T × Bool
  unfolding apply_read_state apply_read_boundary synced_boundary stamp_read_state
  apply_synced_read_state c read boundary ids event db =
      let result =
        if read
        then apply_read_boundary c (synced_boundary c boundary ids event db) ids db
        else apply_read_state c false db in
      if ltb_ℤ event (settings_row c db.settings).read_state_updated_at
      then (db, false)
      else (stamp_read_state c event result.0, result.1)

  unfoldable pub apply_self_read_receipt : String → List String → ℤ → Database T → Database T × Bool
  unfolding apply_read_boundary newest_named
  apply_self_read_receipt c [] receipt db = (db, false)
  apply_self_read_receipt c (id ∷ ids) receipt db =
      apply_read_boundary c (unwrap_or (newest_named c (id ∷ ids) db.messages none) receipt)
        (id ∷ ids) db
