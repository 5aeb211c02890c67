-- ===== src/Database/History/Dropped.antt =====
-- No call forgets a tombstone or moves the window of a cleared chat back.
use omarchy_whatsapp.Prelude.{
  Bool, Bool-cases, List, Option, String, [], arith, false, if◌then◌else◌, inl, inr, none, refl,
  some, true, ◌∷◌, ◌≡◌,
}
use omarchy_whatsapp.Prelude.Int.{ltb_ℤ, max_ℤ_left, ℤ}
use omarchy_whatsapp.Prelude.Table.Lookup.{exists-append}
use omarchy_whatsapp.Prelude.Table.{exists_where, find_where}
use omarchy_whatsapp.Database.{Codecs, Database, UnreadReceipt, in_chat, new_settings, settings_of}
use omarchy_whatsapp.Database.ReadQueue.{queue_chat, queue_receipt}
use omarchy_whatsapp.Database.Insert.{
  MessageInsert, absorb, bump_unread, cleared, counts_unread, insert_message_inner,
  insert_message_into, is_dropped, prune_chat_history, queue_intent, revive, store, tombstone_is,
  upsert_chat,
}
use omarchy_whatsapp.Database.ReadState.{
  apply_read_boundary, apply_read_state, apply_self_read_receipt, apply_synced_read_state,
  ensure_settings, mark_unread, reconcile_unread_after_full_sync, settings_row, stamp_read_state,
  synced_boundary,
}
use omarchy_whatsapp.Database.Removal.{
  clear_chat, delete_chat, delete_message, delete_messages_through, refresh_chat_tail, settle_chat,
}
use omarchy_whatsapp.Database.Removal.Windows.{
  StaysDropped, cleared-append, cleared-update, cleared-upsert,
}

module _ {T : Type 0} where
  dropped-tables :
      (db db' : Database T)
      → db'.message_tombstones ≡ db.message_tombstones
      → ((k : String) (t : ℤ)
          → cleared (find_where (settings_of k) db.settings) t ≡ true
          → cleared (find_where (settings_of k) db'.settings) t ≡ true)
      → StaysDropped db db'
  unfolding is_dropped
  dropped-tables db db' same grows m h =
      rw same
        (elim (Bool-cases (exists_where (tombstone_is m.chat_jid m.id) db.message_tombstones)) [
          | inl stone ↦ rw stone refl
          | inr free ↦ rw free (grows m.chat_jid m.timestamp (rw free at h))
        ])

  insert-dropped-settings :
      (i : MessageInsert) (db : Database T) (k : String) (t : ℤ)
      → cleared (find_where (settings_of k) db.settings) t ≡ true
      → cleared (find_where (settings_of k) (revive i db).settings) t ≡ true
  unfolding revive
  insert-dropped-settings i db k t h = elim (Bool-cases i.from_history) [
    | inl history ↦ rw history h
    | inr live ↦ elim (Bool-cases (exists_where (settings_of i.message.chat_jid) db.settings)) [
      | inl there ↦
          rw (live, there) (cleared-update k _ _ db.settings t (λ s. refl) (λ s. omega arith) h)
      | inr fresh ↦ rw (live, fresh) (cleared-append k db.settings _ t h)
    ]
  ]

module _ {T : Type 0} (codecs : Codecs T) where
  -- Storing a message leaves the settings and the tombstones.
  abbrev SameRecords : Database T → Database T → Type 0
  SameRecords db db' =
      (db'.settings ≡ db.settings) × (db'.message_tombstones ≡ db.message_tombstones)

  store-SameRecords :
      (i : MessageInsert) (unread : Bool) (db : Database T)
      → SameRecords db (store codecs i unread db).0
  unfolding store bump_unread
  store-SameRecords i unread db = ground arith

  queue_intent-SameRecords :
      (i : MessageInsert) (o : Option UnreadReceipt) (db db' : Database T)
      → SameRecords db db'
      → SameRecords db (queue_intent i o db')
  unfolding queue_intent queue_chat queue_receipt
  queue_intent-SameRecords i none db db' h = h
  queue_intent-SameRecords i (some r) db db' h = h

  settle-SameRecords :
      (c : String) (newer : Bool) (db : Database T) → SameRecords db (settle_chat c newer db)
  unfolding settle_chat refresh_chat_tail
  settle-SameRecords c true db = (refl, refl)
  settle-SameRecords c false db = (refl, refl)

  absorb-SameRecords : (i : MessageInsert) (db : Database T) → SameRecords db (absorb codecs i db).0
  unfolding absorb
  absorb-SameRecords i db =
      queue_intent-SameRecords i i.read_intent db _
        (store-SameRecords i (counts_unread codecs i db) db)

  same_stones :
      (i : MessageInsert) (db : Database T)
      → (upsert_chat i (revive i db)).message_tombstones ≡ db.message_tombstones
  unfolding upsert_chat revive
  same_stones i db = ground arith

  pub insert-StaysDropped :
      (i : MessageInsert) (db : Database T) → StaysDropped db (insert_message_inner codecs i db).0
  unfolding insert_message_inner insert_message_into prune_chat_history upsert_chat revive
  insert-StaysDropped i db = elim (Bool-cases (is_dropped i.message db)) [
    | inl dropped ↦
        dropped-tables db (insert_message_inner codecs i db).0 (rw dropped refl)
          (λ k t h. rw dropped h)
    | inr taken ↦
        let same = absorb-SameRecords i (upsert_chat i (revive i db)) in
        dropped-tables db (insert_message_inner codecs i db).0
          (rw (taken, same.1) (same_stones i db))
          (λ k t h. rw (taken, same.0) (insert-dropped-settings i db k t h))
  ]

  pub read-StaysDropped :
      (c : String) (timestamp : ℤ) (ids : List String) (db : Database T)
      → StaysDropped db (apply_read_boundary codecs c timestamp ids db).0
  unfolding apply_read_boundary ensure_settings
  read-StaysDropped c timestamp ids db =
      dropped-tables db (apply_read_boundary codecs c timestamp ids db).0 refl λ k t h.
        cleared-update k (settings_of c) _ (ensure_settings c db.settings) t (λ s. refl)
          (λ s. omega arith)
          (elim (Bool-cases (exists_where (settings_of c) db.settings)) [
            | inl there ↦ rw there h
            | inr fresh ↦ rw fresh (cleared-append k db.settings (new_settings c) t h)
          ])

  unread-StaysDropped : (c : String) (db : Database T) → StaysDropped db (mark_unread c db).0
  unfolding mark_unread
  unread-StaysDropped c db =
      dropped-tables db (mark_unread c db).0 refl
        λ k t h. cleared-upsert k c _ _ db.settings t (λ s. refl) (λ s. omega arith) h

  pub state-StaysDropped :
      (c : String) (r : Bool) (db : Database T) → StaysDropped db (apply_read_state codecs c r db).0
  unfolding apply_read_state
  state-StaysDropped c true db = read-StaysDropped c _ [] db
  state-StaysDropped c false db = unread-StaysDropped c db

  stamp-StaysDropped :
      (c : String) (event : ℤ) (db db' : Database T)
      → StaysDropped db db'
      → StaysDropped db (stamp_read_state c event db')
  unfolding stamp_read_state
  stamp-StaysDropped c event db db' before m h =
      dropped-tables db' (stamp_read_state c event db') refl
        (λ k t e.
          cleared-update k (settings_of c) _ db'.settings t (λ s. refl) (λ s. omega arith) e)
        m (before m h)

  pub synced-StaysDropped :
      (c : String) (r : Bool) (boundary : Option ℤ) (ids : List String) (event : ℤ)
      (db : Database T)
      → StaysDropped db (apply_synced_read_state codecs c r boundary ids event db).0
  unfolding apply_synced_read_state stamp_read_state
  synced-StaysDropped c r boundary ids event db =
      elim (Bool-cases (ltb_ℤ event (settings_row c db.settings).read_state_updated_at)) [
        | inl stale ↦ rw stale (λ m h. h)
        | inr fresh ↦ rw fresh (
            stamp-StaysDropped c event db _
              (elim r
                as (λ b.
                  StaysDropped db
                    (if b
                      then apply_read_boundary codecs c (synced_boundary c boundary ids event db)
                          ids db
                      else apply_read_state codecs c false db).0) [
                        | true ↦ read-StaysDropped c _ ids db
                        | false ↦ unread-StaysDropped c db
                      ]))
      ]

  pub receipt-StaysDropped :
      (c : String) (ids : List String) (receipt : ℤ) (db : Database T)
      → StaysDropped db (apply_self_read_receipt codecs c ids receipt db).0
  unfolding apply_self_read_receipt
  receipt-StaysDropped c [] receipt db = λ m h. h
  receipt-StaysDropped c (id ∷ ids) receipt db = read-StaysDropped c _ (id ∷ ids) db

  pub reconcile-StaysDropped :
      (complete : Bool) (db : Database T)
      → StaysDropped db (reconcile_unread_after_full_sync complete db).0
  unfolding reconcile_unread_after_full_sync
  reconcile-StaysDropped true db = dropped-tables db _ refl (λ k t h. h)
  reconcile-StaysDropped false db = λ m h. h

  pub delete-StaysDropped :
      (c : String) (t : ℤ) (db : Database T) → StaysDropped db (delete_chat c t db)
  unfolding delete_chat delete_messages_through
  delete-StaysDropped c t db = elim (Bool-cases (ltb_ℤ t (settings_row c db.settings).cleared_at)) [
    | inl older ↦ rw older (λ m h. h)
    | inr newer ↦
        let db' = delete_messages_through c t db in
        let same = settle-SameRecords c (exists_where (in_chat c) db'.messages) db' in
        rw newer (
          dropped-tables db _ same.1 λ k s h.
            cleared-upsert k c _ _ _ s (λ x. refl) (λ x. max_ℤ_left x.cleared_at t) (rw same.0 h))
  ]

  pub clear-StaysDropped :
      (c : String) (t : ℤ) (db : Database T) → StaysDropped db (clear_chat c t db)
  unfolding clear_chat delete_messages_through refresh_chat_tail
  clear-StaysDropped c t db = elim (Bool-cases (ltb_ℤ t (settings_row c db.settings).cleared_at)) [
    | inl older ↦ rw older (λ m h. h)
    | inr newer ↦ rw newer (
        dropped-tables db _ refl λ k s h.
          cleared-upsert k c _ _ db.settings s (λ x. refl) (λ x. max_ℤ_left x.cleared_at t) h)
  ]

  pub delete_one-StaysDropped :
      (c id : String) (db : Database T) → StaysDropped db (delete_message c id db)
  unfolding delete_message is_dropped
  delete_one-StaysDropped c id db m h = ground (
    arith,
    exists-append (tombstone_is m.chat_jid m.id) db.message_tombstones
        (record { chat_jid = c; id = id }),
  )
