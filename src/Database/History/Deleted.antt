-- ===== src/Database/History/Deleted.antt =====
-- Deleted messages and chats through runs of calls (Database.History).
use omarchy_whatsapp.Database.History.Dropped.{
  clear-StaysDropped, delete-StaysDropped, delete_one-StaysDropped, insert-StaysDropped,
  read-StaysDropped, receipt-StaysDropped, reconcile-StaysDropped, state-StaysDropped,
  synced-StaysDropped,
}
use omarchy_whatsapp.Database.History.{
  Op, clear, delete, delete_one, insert, read, read_state, reconcile, run, self_read_receipt, step,
  synced_read_state,
}
use omarchy_whatsapp.Prelude.{List, [], false, refl, ℕ, ◌∷◌, ◌≡◌}
use omarchy_whatsapp.Prelude.Int.{pos, ◌≤ℤ◌}
use omarchy_whatsapp.Database.{Codecs, Database}
use omarchy_whatsapp.Database.Insert.{MessageInsert, insert_message_into}
use omarchy_whatsapp.Database.ReadState.{mark_read}
use omarchy_whatsapp.Database.Removal.{delete_chat, delete_message}
use omarchy_whatsapp.Database.Removal.Windows.{
  StaysDropped, delete_chat-drops, delete_message-drops,
}

module _ {T : Type 0} (codecs : Codecs T) where
  step-StaysDropped : (db : Database T) (o : Op) → StaysDropped db (step codecs db o)
  unfolding step mark_read
  step-StaysDropped db (insert i) = insert-StaysDropped codecs i db
  step-StaysDropped db (read c) = read-StaysDropped codecs c _ [] db
  step-StaysDropped db (read_state c r) = state-StaysDropped codecs c r db
  step-StaysDropped db (synced_read_state c r boundary ids event) =
      synced-StaysDropped codecs c r boundary ids event db
  step-StaysDropped db (self_read_receipt c ids receipt) =
      receipt-StaysDropped codecs c ids receipt db
  step-StaysDropped db (reconcile complete) = reconcile-StaysDropped codecs complete db
  step-StaysDropped db (delete c t) = delete-StaysDropped codecs c t db
  step-StaysDropped db (clear c t) = clear-StaysDropped codecs c t db
  step-StaysDropped db (delete_one c id) = delete_one-StaysDropped codecs c id db

  -- A message that the database drops is dropped after any further calls, too.
  pub run-StaysDropped : (db : Database T) (os : List Op) → StaysDropped db (run codecs db os)
  unfolding run
  run-StaysDropped db [] m h = h
  run-StaysDropped db (o ∷ os) m h =
      run-StaysDropped (step codecs db o) os m (step-StaysDropped db o m h)

  -- After a message is deleted, any inserts, reads (mark_read, apply_read_state,
  -- apply_synced_read_state, apply_self_read_receipt), reconciliations, deleted or cleared chats and
  -- deleted messages follow, and it arrives again from any sender: it is not stored, and the database
  -- is left as it was. A reset of the account and the migration of an alias do not follow.
  pub deleted-stays-deleted :
      (i : MessageInsert) (db : Database T) (os : List Op)
      → insert_message_into codecs i
          (run codecs (delete_message i.message.chat_jid i.message.id db) os)
        ≡ (run codecs (delete_message i.message.chat_jid i.message.id db) os, false)
  unfolding insert_message_into
  deleted-stays-deleted i db os =
      rw
        (run-StaysDropped (delete_message i.message.chat_jid i.message.id db) os i.message
          (delete_message-drops i.message db))
        refl

  -- The same, after the same calls, of a chat deleted at a time, for the messages of that time and
  -- earlier ones.
  pub deleted_chat-stays-deleted :
      (t : ℕ) (i : MessageInsert) (db : Database T) (os : List Op)
      → i.message.timestamp ≤ℤ pos t
      → insert_message_into codecs i (run codecs (delete_chat i.message.chat_jid (pos t) db) os)
        ≡ (run codecs (delete_chat i.message.chat_jid (pos t) db) os, false)
  unfolding insert_message_into
  deleted_chat-stays-deleted t i db os h =
      rw
        (run-StaysDropped (delete_chat i.message.chat_jid (pos t) db) os i.message
          (delete_chat-drops t i.message db h))
        refl
