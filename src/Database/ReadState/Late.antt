-- ===== src/Database/ReadState/Late.antt =====
-- A message that arrives after the boundary that covers it.
use omarchy_whatsapp.Prelude.{
  Bool, Bool-cases, List, Option, Option-cases, String, ap, arith, contains, eq_refl, false, inl,
  inr, is_some, length, none, refl, some, true, ◌+◌, ◌||◌, ◌∙◌, ◌≡◌, ◌≤◌,
}
use omarchy_whatsapp.Prelude.Int.{leb_ℤ, ℤ}
use omarchy_whatsapp.Prelude.Json.{JsonLaws}
use omarchy_whatsapp.Prelude.Table.Count.{count-append}
use omarchy_whatsapp.Prelude.Table.{count_where, exists_where, find_where, map_if}
use omarchy_whatsapp.Prelude.Table.Lookup.{exists-find, find-append, find-update}
use omarchy_whatsapp.Database.{
  Codecs, Database, SettingsRow, UnreadReceipt, chat_is, is_unread, new_settings, same_key,
  settings_of,
}
use omarchy_whatsapp.Database.ReadQueue.{queue_chat, queue_receipt}
use omarchy_whatsapp.Database.Insert.{
  MessageInsert, absorb, counts_unread, covered, insert_message_into, is_dropped, new_message,
  queue_intent, read_boundary_ids, read_boundary_ids-none, revive, store, upsert_chat,
}
use omarchy_whatsapp.Database.Unread.{
  counter, revive-tables, unread_count, unread_shown, upsert_chat-messages, upsert_chat-shown,
}
use omarchy_whatsapp.Database.ReadState.{
  apply_read_boundary, candidate_boundary, message_timestamp, read_boundary_ids_cap, settings_row,
}
use omarchy_whatsapp.Database.ReadState.Boundary.{apply_read_boundary-covers}

-- The counter and the unread messages of a chat are as they were.
abbrev pub SameUnread : {T : Type 0} → String → Database T → Database T → Type 0
SameUnread k db db' =
    (unread_shown k db' ≡ unread_shown k db) × (unread_count k db' ≡ unread_count k db)

module _ {T : Type 0} (codecs : Codecs T) where
  covered-undelete :
      (o : Option (SettingsRow T)) (p : SettingsRow T → Bool) (sent : ℤ) (id : String)
      → covered codecs (map_if p (λ s. record s { deleted = false }) o) sent id
        ≡ covered codecs o sent id
  unfolding covered
  covered-undelete none p sent id = refl
  covered-undelete (some s) p sent id = ground arith

  covered-new :
      (c : String) (sent : ℤ) (id : String)
      → covered codecs (some (new_settings c)) sent id ≡ covered codecs none sent id
  unfolding covered
  covered-new c sent id = ground (arith, read_boundary_ids-none codecs)

  -- Bringing a deleted chat back leaves its boundary.
  revive-covered :
      (i : MessageInsert) (db : Database T) (sent : ℤ) (id : String)
      → covered codecs (find_where (settings_of i.message.chat_jid) (revive i db).settings) sent id
        ≡ covered codecs (find_where (settings_of i.message.chat_jid) db.settings) sent id
  unfolding revive
  revive-covered i db sent id =
      let c = i.message.chat_jid in
      elim (Bool-cases i.from_history) [
        | inl history ↦ rw history refl
        | inr live ↦ elim (Option-cases (find_where (settings_of c) db.settings)) [
          | inl missing ↦
              let absent : exists_where (settings_of c) db.settings ≡ false =
                exists-find (settings_of c) db.settings ∙ ap is_some missing in
              rw
                (
                  live,
                  absent,
                  find-append (settings_of c) db.settings (new_settings c),
                  absent,
                  eq_refl c,
                  missing,
                )
                (covered-new c sent id)
          | inr (s, found) ↦
              let present : exists_where (settings_of c) db.settings ≡ true =
                exists-find (settings_of c) db.settings ∙ ap is_some found in
              rw (live, present)
                (ap (λ o. covered codecs o sent id)
                    (find-update (settings_of c) _ (λ s. record s { deleted = false }) db.settings
                      (λ r. refl))
                  ∙ covered-undelete (find_where (settings_of c) db.settings) _ sent id)
        ]
      ]

  store-read-SameUnread :
      (k : String) (i : MessageInsert) (db : Database T)
      → SameUnread k db (store codecs i false db).0
  unfolding store new_message
  store-read-SameUnread k i db =
      elim (Bool-cases (exists_where (same_key (new_message codecs i false db)) db.messages)) [
        | inl old ↦ rw old (refl, refl)
        | inr new ↦ rw new (
          refl,
          ground (arith, count-append (is_unread k) db.messages (new_message codecs i false db)),
        )
      ]

  queue_intent-SameUnread :
      (k : String) (i : MessageInsert) (o : Option UnreadReceipt) (db db' : Database T)
      → SameUnread k db db'
      → SameUnread k db (queue_intent i o db')
  unfolding queue_intent queue_chat queue_receipt
  queue_intent-SameUnread k i none db db' h = h
  queue_intent-SameUnread k i (some r) db db' h = h

  upserted-SameUnread :
      (k : String) (i : MessageInsert) (db : Database T)
      → SameUnread k db (upsert_chat i (revive i db))
  upserted-SameUnread k i db = (
    upsert_chat-shown k i (revive i db)
        ∙ ap (λ l. counter (find_where (chat_is k) l)) (revive-tables i db).0,
    ap (count_where (is_unread k)) (upsert_chat-messages i (revive i db) ∙ (revive-tables i db).1),
  )

  -- A message that its chat's read boundary covers is stored as read: no counter and no number of
  -- unread messages changes.
  pub insert_message_into-covered :
      (k : String) (i : MessageInsert) (db : Database T)
      → covered codecs
          (find_where (settings_of i.message.chat_jid) db.settings)
          i.message.timestamp
          i.message.id
        ≡ true
      → SameUnread k db (insert_message_into codecs i db).0
  unfolding insert_message_into absorb counts_unread upsert_chat
  insert_message_into-covered k i db h = elim (Bool-cases (is_dropped i.message db)) [
    | inl dropped ↦ rw dropped (refl, refl)
    | inr taken ↦
        let before = upsert_chat i (revive i db) in
        let silent : counts_unread codecs i before ≡ false =
          ground (arith, revive-covered i db i.message.timestamp i.message.id) in
        let start = upserted-SameUnread k i db in
        let stored = store-read-SameUnread k i before in
        rw (taken, silent)
          (queue_intent-SameUnread k i i.read_intent db (store codecs i false before).0
            (stored.0 ∙ start.0, stored.1 ∙ start.1))
  ]

  -- A message named by a read boundary, or one of its second or an earlier one, that is stored only
  -- afterwards does not make its chat unread again, where the stored IDs of the chat and those of the
  -- boundary fit the cap of 256 together and the stored list of IDs parses back.
  pub late-stays-read :
      JsonLaws codecs.ids
      → (k : String) (timestamp : ℤ) (ids : List String) (i : MessageInsert) (db : Database T)
      → length (
            read_boundary_ids codecs
              (settings_row i.message.chat_jid db.settings).read_boundary_ids)
          + length ids
        ≤ read_boundary_ids_cap
      → message_timestamp i.message.chat_jid i.message.id db.messages ≡ none
      → (contains i.message.id ids || leb_ℤ i.message.timestamp (candidate_boundary timestamp ids))
        ≡ true
      → SameUnread k
          (apply_read_boundary codecs i.message.chat_jid timestamp ids db).0
          (insert_message_into codecs i
            (apply_read_boundary codecs i.message.chat_jid timestamp ids db).0).0
  late-stays-read laws k timestamp ids i db few late named = insert_message_into-covered k i _ (
      apply_read_boundary-covers codecs laws i.message.chat_jid timestamp ids db i.message.id
        i.message.timestamp few (inl late) (ground arith))
