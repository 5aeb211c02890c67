-- ===== src/Database/ReadQueue/Keeps.antt =====
-- The waiting receipts before and after queue_read_receipts and finish_read_batch
-- (crates/daemon/src/database.rs).
use omarchy_whatsapp.Prelude.Int.{ℤ}
use omarchy_whatsapp.Database.{Database, PendingReadChat, PendingReadMessage, UnreadReceipt}
use omarchy_whatsapp.Database.ReadQueue.{
  PendingReadBatch, finish_read_batch, forget_receipts, pending_chat, pending_in, pending_key,
  queue_chat, queue_read_receipts, queue_receipt, queue_receipts,
}
use omarchy_whatsapp.Prelude.Table.{delete_where, exists_where, upsert}
use omarchy_whatsapp.Prelude.Table.Lookup.{
  exists-append, exists-delete_other, exists-implies, exists-update,
}
use omarchy_whatsapp.Prelude.{
  Bool, Bool-cases, List, String, [], ap, arith, eq_iff, eq_refl, false, inl, inr, refl, sym, true,
  ◌&&◌, ◌==◌, ◌||◌, ◌∙◌, ◌∷◌, ◌≡◌,
}

-- Whether a receipt of a chat waits, and whether the chat does.
abbrev pub receipt_waits : {T : Type 0} → String → String → String → Database T → Bool
receipt_waits c sender id db = exists_where (pending_key c sender id) db.pending_read_messages

abbrev pub chat_waits : {T : Type 0} → String → Database T → Bool
chat_waits c db = exists_where (pending_chat c) db.pending_read_chats

abbrev pub has_receipt : String → String → List UnreadReceipt → Bool
has_receipt sender id [] = false
has_receipt sender id (r ∷ rs) =
    (r.sender_jid == sender && r.message_id == id) || has_receipt sender id rs

key-same :
    (c k s sender i id : String) (x : PendingReadMessage)
    → (c == k && (s == sender && i == id)) ≡ true
    → pending_key c s i x ≡ true
    → pending_key k sender id x ≡ true
key-same c k s sender i id x same h = ground (
  arith,
  eq_iff c k,
  eq_iff s sender,
  eq_iff i id,
  eq_iff x.chat_jid c,
  eq_iff x.sender_jid s,
  eq_iff x.message_id i,
  eq_iff x.chat_jid k,
  eq_iff x.sender_jid sender,
  eq_iff x.message_id id,
)

key-apart :
    (c k s sender i id : String) (x : PendingReadMessage)
    → (c == k && (s == sender && i == id)) ≡ false
    → pending_key k sender id x ≡ true
    → pending_key c s i x ≡ false
key-apart c k s sender i id x apart h = ground (
  arith,
  eq_iff c k,
  eq_iff s sender,
  eq_iff i id,
  eq_iff x.chat_jid c,
  eq_iff x.sender_jid s,
  eq_iff x.message_id i,
  eq_iff x.chat_jid k,
  eq_iff x.sender_jid sender,
  eq_iff x.message_id id,
)

forget-queued :
    (c k sender id : String) (rs : List UnreadReceipt) (rows : List PendingReadMessage)
    → exists_where (pending_key k sender id) rows ≡ true
    → (c == k && has_receipt sender id rs) ≡ false
    → exists_where (pending_key k sender id) (forget_receipts c rs rows) ≡ true
unfolding forget_receipts
forget-queued c k sender id [] rows h apart = h
forget-queued c k sender id (r ∷ rs) rows h apart =
    forget-queued c k sender id rs (delete_where (pending_key c r.sender_jid r.message_id) rows)
      (exists-delete_other (pending_key k sender id) (pending_key c r.sender_jid r.message_id) rows
          (λ x. key-apart c k r.sender_jid sender r.message_id id x (ground arith))
        ∙ h)
      (ground arith)

upsert-there :
    (c : String) (new : PendingReadChat) (f : PendingReadChat → PendingReadChat)
    (rows : List PendingReadChat)
    → ((r : PendingReadChat) → (f r).chat_jid ≡ r.chat_jid)
    → new.chat_jid ≡ c
    → exists_where (pending_chat c) (upsert (pending_chat c) new f rows) ≡ true
upsert-there c new f rows keeps is = elim (Bool-cases (exists_where (pending_chat c) rows)) [
  | inl there ↦
      rw
        (
          there,
          exists-update (pending_chat c) (pending_chat c) f rows (λ r. ap (λ j. j == c) (keeps r)),
        )
        there
  | inr fresh ↦ rw (fresh, exists-append (pending_chat c) rows new, is, eq_refl c) (ground arith)
]

module _ {T : Type 0} where
  queue_receipt-queued :
      (c k sender id : String) (r : UnreadReceipt) (db : Database T)
      → receipt_waits k sender id (queue_receipt c r db) ≡ (
          receipt_waits k sender id db
          || (c == k && (r.sender_jid == sender && r.message_id == id)))
  unfolding queue_receipt
  queue_receipt-queued c k sender id r db =
      elim (Bool-cases
        (exists_where (pending_key c r.sender_jid r.message_id) db.pending_read_messages)) [
          | inl there ↦
              rw there
                (elim (Bool-cases (c == k && (r.sender_jid == sender && r.message_id == id))) [
                  | inl same ↦ rw same (
                      exists-implies _ (pending_key k sender id) db.pending_read_messages
                        (λ x. key-same c k r.sender_jid sender r.message_id id x same) there
                      ∙ ground arith)
                  | inr other ↦ rw other (ground arith)
                ])
          | inr fresh ↦
              rw (fresh, exists-append (pending_key k sender id) db.pending_read_messages _) refl
        ]

  queue_receipts-queued :
      (c sender id : String) (rs : List UnreadReceipt) (db : Database T)
      → receipt_waits c sender id (queue_receipts c rs db)
        ≡ (receipt_waits c sender id db || has_receipt sender id rs)
  unfolding queue_receipts
  queue_receipts-queued c sender id [] db = ground arith
  queue_receipts-queued c sender id (r ∷ rs) db =
      queue_receipts-queued c sender id rs (queue_receipt c r db)
      ∙ ground (arith, queue_receipt-queued c c sender id r db, eq_refl c)

  queue_receipts-chats :
      (c : String) (rs : List UnreadReceipt) (db : Database T)
      → (queue_receipts c rs db).pending_read_chats ≡ db.pending_read_chats
  unfolding queue_receipts queue_receipt
  queue_receipts-chats c [] db = refl
  queue_receipts-chats c (r ∷ rs) db = queue_receipts-chats c rs (queue_receipt c r db)

  -- After receipts are queued their chat waits, each of them waits, and so does every receipt of the
  -- chat that waited before.
  pub queue_read_receipts-queued :
      (c sender id : String) (rs : List UnreadReceipt) (created_at : ℤ) (db : Database T)
      → (chat_waits c (queue_read_receipts c rs created_at db) ≡ true)
        × (receipt_waits c sender id (queue_read_receipts c rs created_at db)
            ≡ (receipt_waits c sender id db || has_receipt sender id rs))
  unfolding queue_read_receipts queue_chat
  queue_read_receipts-queued c sender id rs created_at db = (
    ap (exists_where (pending_chat c)) (queue_receipts-chats c rs (queue_chat c created_at db))
        ∙ upsert-there c _ _ db.pending_read_chats (λ r. refl) refl,
    queue_receipts-queued c sender id rs (queue_chat c created_at db),
  )

  -- Finishing a batch keeps every waiting receipt that the batch does not hold, and a chat of which
  -- one is left waits on: what was queued while the batch was sent is not lost.
  pub finish_read_batch-keeps :
      (k sender id : String) (batch : PendingReadBatch) (db : Database T)
      → receipt_waits k sender id db ≡ true
      → chat_waits k db ≡ true
      → (batch.chat_jid == k && has_receipt sender id batch.receipts) ≡ false
      → (receipt_waits k sender id (finish_read_batch batch db).0 ≡ true)
        × (chat_waits k (finish_read_batch batch db).0 ≡ true)
  unfolding finish_read_batch
  finish_read_batch-keeps k sender id batch db h waits apart =
      let c = batch.chat_jid in
      let rest = forget_receipts c batch.receipts db.pending_read_messages in
      let left = forget-queued c k sender id batch.receipts db.pending_read_messages h apart in
      (
        left,
        elim (Bool-cases (exists_where (pending_in c) rest)) [
          | inl more ↦ rw more waits
          | inr last ↦ rw last (
              exists-delete_other (pending_chat k) (pending_chat c) db.pending_read_chats (λ r e.
                elim (Bool-cases (c == k)) [
                  | inl same ↦
                      let more : exists_where (pending_in c) rest ≡ true =
                        exists-implies (pending_key k sender id) (pending_in c) rest
                          (λ x i.
                            ground (arith, eq_iff c k, eq_iff x.chat_jid k, eq_iff x.chat_jid c))
                          left in
                      absurd (cc (sym more ∙ last))
                  | inr other ↦ ground (arith, eq_iff c k, eq_iff r.chat_jid k, eq_iff r.chat_jid c)
                ])
              ∙ waits)
        ],
      )
