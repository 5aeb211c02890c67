-- ===== src/Outbox/Reads/Examples.antt =====
-- Tests of the delivery of read receipts, and the theorem at a concrete group.
use omarchy_whatsapp.Prelude.{List, String, [], refl, some, true, ◌∷◌, ◌≡◌}
use omarchy_whatsapp.Prelude.Int.{pos}
use omarchy_whatsapp.Database.{Database, UnreadReceipt}
use omarchy_whatsapp.Database.Examples.{empty_history}
use omarchy_whatsapp.Database.ReadQueue.{PendingReadBatch, next_read_batch}
use omarchy_whatsapp.Outbox.Reads.{
  batch_calls, deliver_pending_read, mark_as_read, mark_chat_as_read,
}
use omarchy_whatsapp.Outbox.Reads.Sent.{IsDelivery, deliver_pending_read-IsDelivery}

abbrev receipt : String → String → UnreadReceipt
receipt id sender = record { message_id = id; sender_jid = sender; is_group = true }

abbrev three_receipts : List UnreadReceipt
three_receipts = receipt "m1" "a" ∷ receipt "m2" "b" ∷ receipt "m3" "a" ∷ []

by_sender :
    batch_calls some (some "g") three_receipts
    ≡ some (mark_as_read "g" (some "a") ("m1" ∷ "m3" ∷ []))
      ∷ some (mark_as_read "g" (some "b") ("m2" ∷ []))
      ∷ some (mark_chat_as_read "g")
      ∷ []
by_sender = refl

abbrev one_waiting : Database (List String)
one_waiting = record empty_history {
  pending_read_chats = record { chat_jid = "g"; created_at = pos 1 } ∷ [];
  pending_read_messages =
      record { chat_jid = "g"; message_id = "m1"; sender_jid = "a"; is_group = true } ∷ [];
}

abbrev one_batch : PendingReadBatch
one_batch = record { chat_jid = "g"; receipts = receipt "m1" "a" ∷ [] }

batch_is_next : next_read_batch one_waiting ≡ some one_batch
unfolding next_read_batch
batch_is_next = refl

deliver_pending_read-IsDelivery_example :
    IsDelivery some
      (λ call. true)
      (λ db. db)
      one_waiting
      one_batch
      "a"
      "m1"
      (deliver_pending_read some (λ call. true) (λ db. db) one_waiting)
deliver_pending_read-IsDelivery_example =
    deliver_pending_read-IsDelivery some (λ call. true) (λ db. db) one_waiting one_batch "a" "m1"
      batch_is_next refl
