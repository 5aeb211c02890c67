-- ===== src/Outbox/Reads.antt =====
-- The delivery of read receipts (deliver_pending_read in crates/daemon/src/outbox.rs). The addresses of the
-- network library with their parser, and whether each call of the network succeeds, are parameters.
pub mod Made
pub mod Sent
pub mod Examples
use omarchy_whatsapp.Prelude.{
  Bool, List, Option, String, [], false, if◌then◌else◌, map, none, some, true, ◌++◌, ◌==◌, ◌∷◌,
}
use omarchy_whatsapp.Database.{Database, UnreadReceipt}
use omarchy_whatsapp.Database.ReadQueue.{PendingReadBatch, finish_read_batch, next_read_batch}

-- mark_as_read and mark_chat_as_read
pub data ReadCall (Jid : Type 0) : Type 0 where
  mark_as_read : (chat : Jid) (sender : Option Jid) (message_ids : List String) → ReadCall Jid
  mark_chat_as_read : (chat : Jid) → ReadCall Jid

pub data ReadDelivered : Type 0 where
  reads_sent no_reads reads_failed : ReadDelivered

pub record SenderIds : Type 0 where
  pub sender_jid : String
  pub message_ids : List String

-- grouped.entry(sender).or_default().push(id)
abbrev pub add_id : UnreadReceipt → List SenderIds → List SenderIds
add_id r [] = record { sender_jid = r.sender_jid; message_ids = r.message_id ∷ [] } ∷ []
add_id r (g ∷ groups) =
    let rest = add_id r groups in
    if g.sender_jid == r.sender_jid
    then record g { message_ids = g.message_ids ++ r.message_id ∷ [] } ∷ groups
    else g ∷ rest

-- The map gives its entries in an order of its own; here they come as their senders were first met.
abbrev pub group_by_sender : List UnreadReceipt → List SenderIds → List SenderIds
group_by_sender [] groups = groups
group_by_sender (r ∷ rs) groups = group_by_sender rs (add_id r groups)

abbrev pub is_of_group : List UnreadReceipt → Bool
is_of_group [] = false
is_of_group (r ∷ rs) = r.is_group

module _ {Jid : Type 0} (parse : String → Option Jid) where
  -- A call that is to be made; `none` is a text that does not parse, which ends the delivery.
  abbrev pub sender_call : Jid → List String → Option Jid → Option (ReadCall Jid)
  sender_call chat ids none = none
  sender_call chat ids (some sender) = some (mark_as_read chat (some sender) ids)

  abbrev pub sender_calls : Jid → List SenderIds → List (Option (ReadCall Jid))
  sender_calls chat [] = []
  sender_calls chat (g ∷ groups) =
      sender_call chat g.message_ids (parse g.sender_jid) ∷ sender_calls chat groups

  abbrev pub direct_calls : Jid → List String → List (Option (ReadCall Jid))
  direct_calls chat [] = []
  direct_calls chat (id ∷ ids) = some (mark_as_read chat none (id ∷ ids)) ∷ []

  abbrev pub receipt_calls : Jid → List UnreadReceipt → List (Option (ReadCall Jid))
  receipt_calls chat receipts =
      if is_of_group receipts
      then sender_calls chat (group_by_sender receipts [])
      else direct_calls chat (map (λ r. r.message_id) receipts)

  abbrev pub batch_calls : Option Jid → List UnreadReceipt → List (Option (ReadCall Jid))
  batch_calls none receipts = none ∷ []
  batch_calls (some chat) receipts =
      receipt_calls chat receipts ++ some (mark_chat_as_read chat) ∷ []

  module _ (succeeds : ReadCall Jid → Bool) where
    abbrev pub after_call :
        ReadCall Jid → Bool → List (ReadCall Jid) × Bool → List (ReadCall Jid) × Bool
    after_call call false rest = (call ∷ [], false)
    after_call call true (made, done) = (call ∷ made, done)

    -- The calls that are made, and whether the last of them was.
    abbrev pub run_calls : List (Option (ReadCall Jid)) → List (ReadCall Jid) × Bool
    run_calls [] = ([], true)
    run_calls (none ∷ calls) = ([], false)
    run_calls (some call ∷ calls) =
        let rest = run_calls calls in after_call call (succeeds call) rest

    module _ {T : Type 0} where
      -- What the batch comes to, where `meanwhile` is what others do to the database during the calls.
      finished :
          (Database T → Database T)
          → Database T
          → PendingReadBatch
          → List (ReadCall Jid) × Bool
          → (Database T × List (ReadCall Jid)) × ReadDelivered
      finished meanwhile db batch (made, false) = ((meanwhile db, made), reads_failed)
      finished meanwhile db batch (made, true) =
          (((finish_read_batch batch (meanwhile db)).0, made), reads_sent)

      delivered_batch :
          (Database T → Database T)
          → Database T
          → Option PendingReadBatch
          → (Database T × List (ReadCall Jid)) × ReadDelivered
      unfolding finished
      delivered_batch meanwhile db none = ((db, []), no_reads)
      delivered_batch meanwhile db (some batch) =
          finished meanwhile db batch
            (run_calls (batch_calls (parse batch.chat_jid) batch.receipts))

      unfoldable pub deliver_pending_read :
          (Database T → Database T)
          → Database T
          → (Database T × List (ReadCall Jid)) × ReadDelivered
      unfolding delivered_batch
      deliver_pending_read meanwhile db = delivered_batch meanwhile db (next_read_batch db)
