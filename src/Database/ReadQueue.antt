-- ===== src/Database/ReadQueue.antt =====
-- The durable read intents: pending_read_chats and pending_read_messages
-- (Database::queue_read_receipts, next_read_batch, finish_read_batch in crates/daemon/src/database.rs).
pub mod Keeps
use Prim.Native.Nat.{Ordering}
use Prim.Native.String.{compare}
use omarchy_whatsapp.Prelude.{
  Bool, List, Option, String, [], if◌then◌else◌, map, none, not, some, ◌&&◌, ◌++◌, ◌==◌, ◌∷◌,
}
use omarchy_whatsapp.Prelude.Int.{eqb_ℤ, ltb_ℤ, min_ℤ, ℤ}
use omarchy_whatsapp.Prelude.Table.{delete_where, exists_where, select_where, upsert}
use omarchy_whatsapp.Database.{Database, PendingReadChat, PendingReadMessage, UnreadReceipt}

pub record PendingReadBatch : Type 0 where
  pub chat_jid : String
  pub receipts : List UnreadReceipt

abbrev pub pending_chat : String → PendingReadChat → Bool
pending_chat c r = r.chat_jid == c

-- The primary key of pending_read_messages.
abbrev pub pending_key : String → String → String → PendingReadMessage → Bool
pending_key c sender id r = r.chat_jid == c && (r.sender_jid == sender && r.message_id == id)

abbrev pub pending_in : String → PendingReadMessage → Bool
pending_in c r = r.chat_jid == c

-- ORDER BY created_at, chat_jid LIMIT 1
abbrev pub earlier_chat : PendingReadChat → Option PendingReadChat → Option PendingReadChat
earlier_chat r none = some r
earlier_chat r (some s) =
    if ltb_ℤ s.created_at r.created_at
    then some s
    else if eqb_ℤ s.created_at r.created_at
    then elim (compare s.chat_jid r.chat_jid) [ Ordering.lt ↦ some s | _ ↦ some r ]
    else some r

pub first_chat : List PendingReadChat → Option PendingReadChat
first_chat [] = none
first_chat (r ∷ rs) = earlier_chat r (first_chat rs)

receipt_of : PendingReadMessage → UnreadReceipt
receipt_of r = record {
  message_id = r.message_id;
  sender_jid = r.sender_jid;
  is_group = r.is_group;
}

pub forget_receipts :
    String → List UnreadReceipt → List PendingReadMessage → List PendingReadMessage
forget_receipts c [] rows = rows
forget_receipts c (r ∷ rs) rows =
    forget_receipts c rs (delete_where (pending_key c r.sender_jid r.message_id) rows)

module _ {T : Type 0} where
  -- INSERT … ON CONFLICT DO UPDATE SET created_at = MIN(…)
  unfoldable pub queue_chat : String → ℤ → Database T → Database T
  queue_chat c created_at db = record db {
    pending_read_chats =
        upsert (pending_chat c) (record { chat_jid = c; created_at = created_at })
          (λ r. record r { created_at = min_ℤ r.created_at created_at }) db.pending_read_chats;
  }

  -- INSERT OR IGNORE INTO pending_read_messages
  unfoldable pub queue_receipt : String → UnreadReceipt → Database T → Database T
  queue_receipt c receipt db = record db {
    pending_read_messages =
        if exists_where (pending_key c receipt.sender_jid receipt.message_id)
          db.pending_read_messages
        then db.pending_read_messages
        else (db.pending_read_messages
            ++ record {
              chat_jid = c;
              message_id = receipt.message_id;
              sender_jid = receipt.sender_jid;
              is_group = receipt.is_group;
            }
              ∷ []);
  }

  pub queue_receipts : String → List UnreadReceipt → Database T → Database T
  queue_receipts c [] db = db
  queue_receipts c (r ∷ rs) db = queue_receipts c rs (queue_receipt c r db)

  pub queue_read_receipts : String → List UnreadReceipt → ℤ → Database T → Database T
  unfolding queue_chat queue_receipts queue_receipt
  queue_read_receipts c receipts created_at db =
      queue_receipts c receipts (queue_chat c created_at db)

  batch_of : Option PendingReadChat → Database T → Option PendingReadBatch
  batch_of none db = none
  batch_of (some r) db = some (record {
    chat_jid = r.chat_jid;
    receipts = map receipt_of (select_where (pending_in r.chat_jid) db.pending_read_messages);
  })

  unfoldable pub next_read_batch : Database T → Option PendingReadBatch
  unfolding batch_of first_chat receipt_of
  next_read_batch db = batch_of (first_chat db.pending_read_chats) db

  -- The chat is forgotten only when nothing of it was queued in the meantime.
  pub finish_read_batch : PendingReadBatch → Database T → Database T × Bool
  unfolding forget_receipts
  finish_read_batch batch db =
      let rest = forget_receipts batch.chat_jid batch.receipts db.pending_read_messages in
      let waiting = exists_where (pending_in batch.chat_jid) rest in
      (
        record db {
          pending_read_chats =
              if waiting
              then db.pending_read_chats
              else delete_where (pending_chat batch.chat_jid) db.pending_read_chats;
          pending_read_messages = rest;
        },
        not waiting && exists_where (pending_chat batch.chat_jid) db.pending_read_chats,
      )
