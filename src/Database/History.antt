-- ===== src/Database/History.antt =====
-- Runs of calls on the history database.
pub mod Dropped
pub mod Deleted
pub mod Counters
use omarchy_whatsapp.Prelude.{Bool, List, Option, String, [], ◌∷◌}
use omarchy_whatsapp.Prelude.Int.{ℤ}
use omarchy_whatsapp.Database.{Codecs, Database}
use omarchy_whatsapp.Database.Insert.{MessageInsert, insert_message_inner}
use omarchy_whatsapp.Database.ReadState.{
  apply_read_state, apply_self_read_receipt, apply_synced_read_state, mark_read,
  reconcile_unread_after_full_sync,
}
use omarchy_whatsapp.Database.Removal.{clear_chat, delete_chat, delete_message}

-- The calls that insert messages, that read, delete or clear chats, and that delete one message. Those of a
-- history replay (insert_history_chat_into), of receipts (update_receipts), the reset of the account
-- (clear_account_data) and the migration of an alias (migrate_contact_jid) are not among them.
pub data Op : Type 0 where
  insert : MessageInsert → Op
  read : String → Op
  read_state : String → Bool → Op
  synced_read_state : String → Bool → Option ℤ → List String → ℤ → Op
  self_read_receipt : String → List String → ℤ → Op
  reconcile : Bool → Op
  delete clear : String → ℤ → Op
  delete_one : String → String → Op

module _ {T : Type 0} (codecs : Codecs T) where
  pub step : Database T → Op → Database T
  unfolding insert_message_inner
  step db (insert i) = (insert_message_inner codecs i db).0
  step db (read c) = mark_read codecs c db
  step db (read_state c r) = (apply_read_state codecs c r db).0
  step db (synced_read_state c r boundary ids event) =
      (apply_synced_read_state codecs c r boundary ids event db).0
  step db (self_read_receipt c ids receipt) = (apply_self_read_receipt codecs c ids receipt db).0
  step db (reconcile complete) = (reconcile_unread_after_full_sync complete db).0
  step db (delete c t) = delete_chat c t db
  step db (clear c t) = clear_chat c t db
  step db (delete_one c id) = delete_message c id db

  pub run : Database T → List Op → Database T
  unfolding step
  run db [] = db
  run db (o ∷ os) = run (step db o) os
